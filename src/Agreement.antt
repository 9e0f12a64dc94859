-- ===== src/Agreement.antt =====
-- The relation between a host computation (apps/src) and its counterpart in the guest
-- (strategies/src), and its rules.
pub mod VotingPower
pub mod Delegations
pub mod Vote
pub mod Accepted
pub mod Execution
use aragon_zk_governance.Common.{
  ◌≡◌, refl, sym, ◌∙◌, ◌⊎◌, Bool, true, false, if◌then◌else◌, inl, inr, Option, none, some, List,
  [], ◌∷◌, ◌++◌, arith,
}
use aragon_zk_governance.Outcome
use aragon_zk_governance.Outcome.{Outcome, Error, Panic, ok, err, panic, external, call_failed}
use aragon_zk_governance.Steel.{Env, Call, Answer, Recorded, call}
use aragon_zk_governance.Host.Preflight.{
  Preflight, continue, lift, preflight_call, try_call, settled, err_panics, ◌>>=◌, ◌>>◌,
}

-- The guest's environment gives the answers that the host's gave, for every recorded call.
abbrev pub Agrees : Env → Env → List Call → Type 0
Agrees g h log = (c : Call) → Recorded c log → g.answer c ≡ h.answer c

pub Recorded-append : (c : Call) (xs ys : List Call) → Recorded c xs → Recorded c (xs ++ ys)
Recorded-append c [] ys r = elim r [ ]
Recorded-append c (d ∷ xs) ys (inl e) = inl e
Recorded-append c (d ∷ xs) ys (inr r) = inr (Recorded-append c xs ys r)

pub Recorded-last : (c : Call) (xs : List Call) → Recorded c (xs ++ c ∷ [])
Recorded-last c [] = inl refl
Recorded-last c (d ∷ xs) = inr (Recorded-last c xs)

-- The host's computation forgets no recorded call, and where it succeeds the guest's counterpart
-- has the same result, over any environment that agrees on what was recorded.
pub record Mirrors {ℓ} {A : Type ℓ} (h g : Env) (m : Preflight A) (o : Outcome A) : Type ℓ where
  pub keeps : (log : List Call) (c : Call) → Recorded c log → Recorded c (m log).1
  pub follows : (log : List Call) (a : A) → (m log).0 ≡ ok a → Agrees g h (m log).1 → o ≡ ok a

module _ {ℓ κ} {A : Type ℓ} {B : Type κ} (k : A → Preflight B) where
  continue-keeps :
      (o : Outcome A) (log : List Call) (c : Call)
      → ((a : A) → Recorded c (k a log).1)
      → Recorded c log
      → Recorded c (continue o k log).1
  continue-keeps (ok a) log c later r = later a
  continue-keeps (err e) log c later r = r
  continue-keeps (panic p) log c later r = r

  pub continue-eq-ok :
      (o : Outcome A) (log : List Call) {b : B}
      → (continue o k log).0 ≡ ok b
      → (a : A) × (o ≡ ok a) × ((k a log).0 ≡ ok b) × (continue o k log ≡ k a log)
  continue-eq-ok (ok a) log h = (a, refl, h, refl)
  continue-eq-ok (err e) log h = cc
  continue-eq-ok (panic p) log h = cc

answered {ℓ} :
    {A : Type ℓ} (o : Option A) {a : A}
    → elim o as (λ _. Outcome A) [ none ↦ err (external "call") | some x ↦ ok x ] ≡ ok a
    → elim o as (λ _. Outcome A) [ none ↦ panic call_failed | some x ↦ ok x ] ≡ ok a
answered none e = cc
answered (some x) e = e

module _ {h g : Env} where
  pub Mirrors-lift {ℓ} : {A : Type ℓ} (o : Outcome A) → Mirrors h g (lift o) o
  Mirrors-lift o = record { keeps = λ log c r. r; follows = λ log a e _. e }

  -- Where the host fails, nothing is said of the guest.
  pub Mirrors-err {ℓ} : {A : Type ℓ} (e : Error) (o : Outcome A) → Mirrors h g (lift (err e)) o
  Mirrors-err e o = record { keeps = λ log c r. r; follows = λ log a e _. cc }

  pub Mirrors-panic {ℓ} : {A : Type ℓ} (p : Panic) (o : Outcome A) → Mirrors h g (lift (panic p)) o
  Mirrors-panic p o = record { keeps = λ log c r. r; follows = λ log a e _. cc }

  pub Mirrors-preflight_call : (c : Call) → Mirrors h g (preflight_call h c) (call g c)
  unfolding preflight_call call
  Mirrors-preflight_call c = record {
    keeps = λ log d r. Recorded-append d log (c ∷ []) r;
    follows = λ log a e agree. rw (agree c (Recorded-last c log), call) e;
  }

  pub Mirrors-try_call : (c : Call) → Mirrors h g (try_call h c) (call g c)
  unfolding try_call call
  Mirrors-try_call c = record {
    keeps = λ log d r. Recorded-append d log (c ∷ []) r;
    follows = λ log a e agree. rw (agree c (Recorded-last c log), call) (answered (h.answer c) e);
  }

  pub Mirrors-bind {ℓ κ} :
      {A : Type ℓ} {B : Type κ} {m : Preflight A} {o : Outcome A} {k : A → Preflight B}
      {f : A → Outcome B}
      → Mirrors h g m o
      → ((a : A) → Mirrors h g (k a) (f a))
      → Mirrors h g (m >>= k) (Outcome.◌>>=◌ o f)
  Mirrors-bind {m} {o} {k} {f} mm mk = record {
    keeps = λ log c r.
        continue-keeps k (m log).0 (m log).1 c (λ a. (mk a).keeps (m log).1 c (mm.keeps log c r))
          (mm.keeps log c r);
    follows = λ log b e agree.
        let (a, ea, eb, same) = continue-eq-ok k (m log).0 (m log).1 e in
        let agree' : Agrees g h (k a (m log).1).1 = rw same at agree in
        let first = mm.follows log a ea (λ c r. agree' c ((mk a).keeps (m log).1 c r)) in
        rw first ((mk a).follows (m log).1 b eb agree');
  }

  -- A step that the guest does not make.
  pub Mirrors-skip {ℓ} :
      {B : Type ℓ} (p : Outcome (Unit {0})) {m : Preflight B} {o : Outcome B}
      → Mirrors h g m o
      → Mirrors h g (lift p >> m) o
  Mirrors-skip (ok tt) mm = mm
  Mirrors-skip (err e) mm = record { keeps = λ log c r. r; follows = λ log a e _. cc }
  Mirrors-skip (panic p) mm = record { keeps = λ log c r. r; follows = λ log a e _. cc }

  pub Mirrors-if {ℓ} :
      {A : Type ℓ} (b : Bool) {m m' : Preflight A} {o o' : Outcome A}
      → Mirrors h g m o
      → Mirrors h g m' o'
      → Mirrors h g (if b then m else m') (if b then o else o')
  Mirrors-if true yes' no' = yes'
  Mirrors-if false yes' no' = no'

  -- Both sides match on one value.
  pub Mirrors-option {ℓ κ} :
      {X : Type κ} {A : Type ℓ} (x : Option X) {m : Preflight A} {o : Outcome A}
      (f : X → Preflight A) (k : X → Outcome A)
      → Mirrors h g m o
      → ((y : X) → Mirrors h g (f y) (k y))
      → Mirrors h g
          (elim x as (λ _. Preflight A) [ none ↦ m | some y ↦ f y ])
          (elim x as (λ _. Outcome A) [ none ↦ o | some y ↦ k y ])
  Mirrors-option none f k absent present = absent
  Mirrors-option (some y) f k absent present = present y

  -- Reading two maps of one entry.
  pub one_name-Mirrors {ℓ κ μ} :
      {V : Type ℓ} {W : Type κ} {A : Type μ} (p : Bool) (u : V) (x : W) {missing : Preflight A}
      {missing' : Outcome A} (f : V → Preflight A) (k : W → Outcome A)
      → Mirrors h g missing missing'
      → Mirrors h g (f u) (k x)
      → Mirrors h g
          (elim (if p then some u else none) as (λ _. Preflight A) [
            | none ↦ missing
            | some s ↦ f s
          ])
          (elim (if p then some x else none) as (λ _. Outcome A) [ none ↦ missing' | some s ↦ k s ])
  one_name-Mirrors true u x f k absent present = present
  one_name-Mirrors false u x f k absent present = absent
