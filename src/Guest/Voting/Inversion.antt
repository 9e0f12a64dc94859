-- ===== src/Guest/Voting/Inversion.antt =====
-- What a voter's counted power over one asset rests on, step by step (voting_protocol.rs).
use aragon_zk_governance.Steel.{Env}
use aragon_zk_governance.Common.{
  true, str_eq, Bool-cases, inl, inr, ℕ, String, ◌≡◌, sym, ◌∙◌, some, List,
}
use aragon_zk_governance.Outcome.{Outcome, ok, err, panic, >>=-eq-ok}
use aragon_zk_governance.Config.{Address, Bytes, Asset, Delegation}
use aragon_zk_governance.Crates.{Crates}
use aragon_zk_governance.Guest.Context.{default_context, process_delegation_strategy}
use aragon_zk_governance.Guest.Context.Registry.{process_delegation_strategy_by_name}
use aragon_zk_governance.Guest.Delegation.{split_process}
use aragon_zk_governance.Guest.Voting.{fold_delegations, delegations_or_panic, asset_voting_power}

delegations_or_panic-eq-ok :
    (o : Outcome (List Delegation)) {ds : List Delegation}
    → delegations_or_panic o ≡ ok ds
    → o ≡ ok ds
unfolding delegations_or_panic
delegations_or_panic-eq-ok (ok ds) h = h
delegations_or_panic-eq-ok (err e) h = cc
delegations_or_panic-eq-ok (panic p) h = cc

module _ (ext : Crates) (env : Env) (voter : Address) (asset : Asset) where
  -- Only `SplitDelegation` gives delegations.
  pub split_of_process :
      (xs : Bytes) {us : List Delegation}
      → process_delegation_strategy (default_context ext env) voter asset xs ≡ ok us
      → (str_eq "SplitDelegation" asset.delegation.strategy ≡ true)
        × (split_process ext env voter asset xs ≡ ok us)
  split_of_process xs h = elim (Bool-cases (str_eq "SplitDelegation" asset.delegation.strategy)) [
    | inl split ↦
        (split, rw split at (sym (process_delegation_strategy_by_name ext env voter asset xs) ∙ h))
    | inr other ↦
        cc (rw other at (sym (process_delegation_strategy_by_name ext env voter asset xs) ∙ h))
  ]

  -- What a counted piece of delegation data rests on.
  pub asset_voting_power-eq-ok :
      (text : String) {xs : Bytes} {p : ℕ}
      → ext.bytes_from_str text ≡ some xs
      → asset_voting_power ext (default_context ext env) voter text asset ≡ ok p
      → (us : List Delegation) × (process_delegation_strategy
            (default_context ext env)
            voter
            asset
            xs
          ≡ ok us)
        × (fold_delegations (default_context ext env) asset 0 us ≡ ok p)
  unfolding asset_voting_power
  asset_voting_power-eq-ok text {xs} e h =
      let (us, hu, hf) =
        >>=-eq-ok
          (delegations_or_panic
            (process_delegation_strategy (default_context ext env) voter asset xs))
          _ (rw e at h) in
      (us, delegations_or_panic-eq-ok _ hu, hf)
