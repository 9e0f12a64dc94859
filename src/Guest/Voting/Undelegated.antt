-- ===== src/Guest/Voting/Undelegated.antt =====
-- Delegation data that is one account without registry entries (split_delegation.rs and
-- voting_protocol.rs).
use native.Mathlib.Nat.{div-one}
use aragon_zk_governance.Common.{
  ℕ, ◌<◌, String, ◌≡◌, sym, ap, ◌∙◌, some, [], ◌∷◌, length, eq_iff, append-nil,
}
use aragon_zk_governance.Outcome.{ok}
use aragon_zk_governance.U256.{modulus, divide, ⊕_comm, zero-⊕}
use aragon_zk_governance.Config.{Address, Asset}
use aragon_zk_governance.Steel.{Env, DelegationReturn, get_delegation, call}
use aragon_zk_governance.Crates.{Crates}
use aragon_zk_governance.Guest.Context.{default_context, process_voting_strategy}
use aragon_zk_governance.Guest.Context.Registry.{process_delegation_strategy_by_name}
use aragon_zk_governance.Guest.Delegation.{
  addresses, check_delegate, check_delegates, match_delegation, valid_or_bail, all_valid,
  split_process,
}
use aragon_zk_governance.Guest.Delegation.Addresses.{addresses-join}
use aragon_zk_governance.Guest.Voting.{fold_delegations, delegations_or_panic, asset_voting_power}

addresses_single : (a : Address) → length a ≡ 20 → addresses a ≡ a ∷ []
addresses_single a size = ap addresses (sym (append-nil a)) ∙ addresses-join (a ∷ []) (size, tt)

divide-one : (n : ℕ) → divide n 1 ≡ ok n
unfolding divide
divide-one n = rw div-one

module _ (ext : Crates) (env : Env) (voter holder : Address) (asset : Asset) where
  split_process-undelegated :
      (answer : DelegationReturn)
      → length holder ≡ 20
      → env.answer
          (get_delegation asset.delegation.contract (ext.address_to_string asset.contract) holder)
        ≡ some answer
      → answer.delegations ≡ []
      → split_process ext env voter asset holder ≡ ok (record { delegate = holder; ratio = 1 } ∷ [])
  unfolding split_process check_delegates check_delegate match_delegation valid_or_bail all_valid
      call
  split_process-undelegated answer size e nil =
      rw (size, addresses_single holder size) (rw (e, call) (rw nil))

  -- Under `SplitDelegation`, delegation data that is an account's address gives any voter the whole
  -- power of that account, if it has no entries in the registry and its power is below 2 ^ 256.
  pub asset_voting_power-undelegated :
      (text : String) (answer : DelegationReturn) (power : ℕ)
      → asset.delegation.strategy ≡ "SplitDelegation"
      → ext.bytes_from_str text ≡ some holder
      → length holder ≡ 20
      → env.answer
          (get_delegation asset.delegation.contract (ext.address_to_string asset.contract) holder)
        ≡ some answer
      → answer.delegations ≡ []
      → process_voting_strategy (default_context ext env) asset.voting_power_strategy holder asset
        ≡ ok power
      → power < modulus
      → asset_voting_power ext (default_context ext env) voter text asset ≡ ok power
  unfolding asset_voting_power delegations_or_panic fold_delegations
  asset_voting_power-undelegated text answer power split hex size e nil counted small = rw (
    hex,
    process_delegation_strategy_by_name ext env voter asset holder,
    (eq_iff "SplitDelegation" asset.delegation.strategy).1 (sym split),
    split_process-undelegated answer size e nil,
    counted,
    divide-one power,
    ⊕_comm power 0,
    zero-⊕ power small,
  )
