-- ===== src/Host/Preflight.antt =====
-- The host's environment, which the strategies borrow mutably: it answers a view call from the node
-- and records what the call read, so that the guest can be given it. A computation over it takes
-- the calls recorded so far and returns those recorded after.
use aragon_zk_governance.Common.{Option, List, [], ◌∷◌, ◌++◌}
use aragon_zk_governance.Outcome.{Outcome, ok, err, panic, assertion, external, call_failed}
use aragon_zk_governance.Steel.{Env, Call, Answer}

abbrev pub Preflight {ℓ} : Type ℓ → Type ℓ
Preflight A = List Call → Outcome A × List Call

abbrev pub continue {ℓ κ} : {A : Type ℓ} {B : Type κ} → Outcome A → (A → Preflight B) → Preflight B
continue (ok a) f log = f a log
continue (err e) f log = (err e, log)
continue (panic p) f log = (panic p, log)

infixl 5 ◌>>=◌ ◌>>◌
abbrev pub ◌>>=◌ {ℓ κ} : {A : Type ℓ} {B : Type κ} → Preflight A → (A → Preflight B) → Preflight B
◌>>=◌ m f log = let (o, log') = m log in continue o f log'

abbrev pub ◌>>◌ {ℓ} : {B : Type ℓ} → Preflight (Unit {0}) → Preflight B → Preflight B
m >> k = m >>= λ _. k

abbrev pub lift {ℓ} : {A : Type ℓ} → Outcome A → Preflight A
lift o log = (o, log)

abbrev pub pure {ℓ} : {A : Type ℓ} → A → Preflight A
pure a = lift (ok a)

-- `Contract::preflight(contract, env).call_builder(&call).call().await.unwrap()`
unfoldable pub preflight_call : Env → (c : Call) → Preflight (Answer c)
preflight_call env c log =
    (elim (env.answer c) [ Option.none ↦ panic call_failed | Option.some a ↦ ok a ], log ++ c ∷ [])

-- The same with `?` in place of `unwrap()`.
unfoldable pub try_call : Env → (c : Call) → Preflight (Answer c)
try_call env c log = (
  elim (env.answer c) [ Option.none ↦ err (external "call") | Option.some a ↦ ok a ],
  log ++ c ∷ [],
)

-- `if result.is_err() { assert!(false) }; result.unwrap()`
abbrev pub err_panics {ℓ} : {A : Type ℓ} → Outcome A → Outcome A
err_panics (ok a) = ok a
err_panics (err e) = panic (assertion "false")
err_panics (panic p) = panic p

abbrev pub settled {ℓ} : {A : Type ℓ} → Preflight A → Preflight A
settled m log = let (o, log') = m log in (err_panics o, log')
