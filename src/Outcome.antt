-- ===== src/Outcome.antt =====
-- How a piece of the Rust code ends: with a value, with an `Err` of `anyhow`, or by a panic.
use aragon_zk_governance.Common.{String, ◌≡◌, refl, Bool, true, false, Option, none, some}

-- The `bail!`s, `ensure!`s and failures that `?` passes on.
pub data Error : Type 0 where
  strategy_not_found : String → Error
  invalid_data_length : Error
  invalid_delegations : Error
  external : String → Error

-- The `panic!`s, `assert!`s, `unwrap`s and `expect`s, and the panics of indexing and division.
pub data Panic : Type 0 where
  no_strategy : String → Panic
  call_failed : Panic
  division_by_zero : Panic
  index_out_of_bounds : Panic
  assertion : String → Panic
  unwrapped : String → Panic

pub data Outcome {ℓ} (A : Type ℓ) : Type ℓ where
  ok : A → Outcome A
  err : Error → Outcome A
  panic : Panic → Outcome A

infixl 5 ◌>>=◌ ◌>>◌
abbrev pub ◌>>=◌ {ℓ κ} : {B : Type κ} {A : Type ℓ} → Outcome A → (A → Outcome B) → Outcome B
panic why >>= k = panic why
err why >>= k = err why
ok x >>= k = k x

abbrev pub ◌>>◌ {ℓ} : {A : Type ℓ} → Outcome (Unit {0}) → Outcome A → Outcome A
first >> second = first >>= λ done. second

-- `assert!`
abbrev pub assert : Bool → String → Outcome (Unit {0})
assert true what = ok tt
assert false what = panic (assertion what)

-- `unwrap` and `expect` on an `Option`, or on a `Result` of which only the failure matters.
abbrev pub unwrap {ℓ} : {A : Type ℓ} → Option A → String → Outcome A
unwrap none what = panic (unwrapped what)
unwrap (some a) what = ok a

-- `?` on such a result.
abbrev pub or_err {ℓ} : {A : Type ℓ} → Option A → String → Outcome A
or_err none what = err (external what)
or_err (some a) what = ok a

-- A chain that succeeds has a first step that succeeds.
pub >>=-eq-ok {ℓ κ} :
    {B : Type κ} {A : Type ℓ} (o : Outcome A) (k : A → Outcome B) {result : B}
    → o >>= k ≡ ok result
    → (x : A) × (o ≡ ok x) × (k x ≡ ok result)
>>=-eq-ok (panic why) k h = cc
>>=-eq-ok (err why) k h = cc
>>=-eq-ok (ok x) k h = (x, refl, h)

pub bind_assoc {ℓ κ μ} :
    {A : Type ℓ} {B : Type κ} {C : Type μ} (m : Outcome A) (f : A → Outcome B) (g : B → Outcome C)
    → (m >>= f >>= g) ≡ (m >>= λ a. f a >>= g)
bind_assoc (ok a) f g = refl
bind_assoc (err e) f g = refl
bind_assoc (panic p) f g = refl

pub unwrap-eq-ok {ℓ} :
    {A : Type ℓ} (o : Option A) (what : String) {a : A} → unwrap o what ≡ ok a → o ≡ some a
unwrap-eq-ok none what h = cc
unwrap-eq-ok (some a) what h = cc

pub ok-injective {ℓ} : {A : Type ℓ} {a b : A} → ok a ≡ ok b → a ≡ b
ok-injective h = cc
