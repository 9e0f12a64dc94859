-- ===== src/Host/Delegation/Registry.antt =====
-- `SplitDelegation` of the host on a delegate without entries in the registry.
use aragon_zk_governance.Common.{
  ◌%◌, ◌≡◌, ◌≢◌, sym, some, List, [], ◌∷◌, ◌++◌, ◌==◌, length, Bool-cases, inl, inr, eq_iff,
}
use aragon_zk_governance.Common.Dict.{lookup, insert}
use aragon_zk_governance.Outcome.{Outcome, ok, err, panic}
use aragon_zk_governance.Config.{Address, Bytes, Asset}
use aragon_zk_governance.Steel.{Env, Call, DelegationReturn, get_delegation}
use aragon_zk_governance.Crates.{Crates}
use aragon_zk_governance.Guest.Delegation.{addresses}
use aragon_zk_governance.Host.Preflight.{Preflight, preflight_call, settled, err_panics, ◌>>=◌}
use aragon_zk_governance.Host.Delegation.{
  process_delegate, process_delegates, split_process, print_first,
}
use aragon_zk_governance.Host.Context.{default_context, process_delegation_strategy}
use aragon_zk_governance.Agreement.{continue-eq-ok}

-- A step that never succeeds, whatever calls are recorded before.
abbrev pub Fails {ℓ} : {A : Type ℓ} → Preflight A → Type ℓ
Fails {A} m = (log : List Call) (a : A) → (m log).0 ≢ ok a

module _ {ℓ κ} {A : Type ℓ} {B : Type κ} (m : Preflight A) (k : A → Preflight B) where
  pub Fails-first : Fails m → Fails (m >>= k)
  Fails-first fails log b h =
      let (a, e, _, _) = continue-eq-ok k (m log).0 (m log).1 h in fails log a e

  pub Fails-later : ((a : A) → Fails (k a)) → Fails (m >>= k)
  Fails-later fails log b h =
      let (a, _, later, _) = continue-eq-ok k (m log).0 (m log).1 h in fails a (m log).1 b later

err_panics-fails {ℓ} :
    {A : Type ℓ} (o : Outcome A) → ((a : A) → o ≢ ok a) → (a : A) → err_panics o ≢ ok a
err_panics-fails (ok x) fails a h = fails a h
err_panics-fails (err e) fails a h = cc h
err_panics-fails (panic p) fails a h = cc h

pub settled-Fails {ℓ} : {A : Type ℓ} (m : Preflight A) → Fails m → Fails (settled m)
settled-Fails m fails log = err_panics-fails (m log).0 (fails log)

module _ (ext : Crates) (env : Env) (account delegate : Address) (asset : Asset)
    (answer : DelegationReturn)
    (asked : env.answer
        (get_delegation asset.delegation.contract (ext.address_to_string asset.contract) delegate)
      ≡ some answer)
    (nil : answer.delegations ≡ []) where
  process_delegate-Fails : Fails (
      process_delegate env asset.delegation.contract
        (ext.address_to_string asset.contract)
        delegate
        account)
  unfolding process_delegate print_first preflight_call
  process_delegate-Fails log a h = cc (rw (asked, nil) at h)

  process_delegates-Fails :
      (before after : List Address)
      → Fails (process_delegates ext env account asset (before ++ delegate ∷ after))
  unfolding process_delegates
  process_delegates-Fails [] after =
      Fails-first (process_delegate env asset.delegation.contract _ delegate account) _
        process_delegate-Fails
  process_delegates-Fails (d ∷ before) after =
      Fails-later (process_delegate env asset.delegation.contract _ d account) _ λ x.
        Fails-first (process_delegates ext env account asset (before ++ delegate ∷ after)) _
          (process_delegates-Fails before after)

  split_process-Fails :
      (bytes : Bytes) (before after : List Address)
      → addresses bytes ≡ before ++ delegate ∷ after
      → Fails (split_process ext env account asset bytes)
  unfolding split_process
  split_process-Fails bytes before after named log a h =
      elim (Bool-cases (length bytes % 20 == 0)) [
        | inl whole ↦
            Fails-first (process_delegates ext env account asset (before ++ delegate ∷ after)) _
              (process_delegates-Fails before after) log a (rw (whole, named) at h)
        | inr cut ↦ cc (rw cut at h)
      ]

  -- The strategy fails on data that names such a delegate.
  pub process_delegation_strategy-Fails :
      (bytes : Bytes) (before after : List Address)
      → asset.delegation.strategy ≡ "SplitDelegation"
      → addresses bytes ≡ before ++ delegate ∷ after
      → Fails (process_delegation_strategy (default_context ext env) account asset bytes)
  unfolding process_delegation_strategy default_context lookup insert
  process_delegation_strategy-Fails bytes before after split named log a h =
      split_process-Fails bytes before after named log a (
        rw
          (
            (eq_iff "SplitDelegation" asset.delegation.strategy).1 (sym split),
            process_delegation_strategy,
          )
          at h)
