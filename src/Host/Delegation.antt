-- ===== src/Host/Delegation.antt =====
-- apps/src/delegation_strategies.rs and its split_delegation.rs. The cutting of the input into
-- addresses and the last test on the results are word for word those of the crate `strategies`.
pub mod Registry
use aragon_zk_governance.Common.{
  ℕ, ◌%◌, Option, none, some, List, [], ◌∷◌, ◌==◌, if◌then◌else◌, length, String, Bool, bytes_eq,
  drop,
}
use aragon_zk_governance.Outcome.{
  Outcome, ok, err, panic, assertion, index_out_of_bounds, invalid_data_length,
}
use aragon_zk_governance.U256.{◌⊕◌, divide}
use aragon_zk_governance.Config.{Address, Bytes, Asset, Delegation}
use aragon_zk_governance.Steel.{Env, get_delegation, RegistryDelegation}
use aragon_zk_governance.Crates.{Crates}
use aragon_zk_governance.Host.Preflight.{Preflight, preflight_call, lift, pure, ◌>>=◌, ◌>>◌}
use aragon_zk_governance.Guest.Delegation.{addresses, valid_or_bail}

pub record DelegationStrategy : Type 0 where
  pub process : Env → Address → Asset → Bytes → Preflight (List Delegation)

-- `FromIterator<(Address, U256)> for Delegation`
unfoldable pub delegation_from_iter : List (Address × ℕ) → Outcome Delegation
delegation_from_iter [] = panic (assertion "Iterator is empty, cannot create Delegation")
delegation_from_iter ((delegate, ratio) ∷ rest) = ok (record { delegate = delegate; ratio = ratio })

unfoldable pub compare_bytes32_to_address : Bytes → Address → Bool
compare_bytes32_to_address bytes32 address = bytes_eq (drop 12 bytes32) address

-- The `fold` over the ratios.
unfoldable pub total_ratios : ℕ → List RegistryDelegation → ℕ
total_ratios acc [] = acc
total_ratios acc (d ∷ ds) = total_ratios (acc ⊕ d.ratio) ds

-- `iter().find(..)` for the entry that names the account.
unfoldable pub find_delegation : Address → List RegistryDelegation → Option RegistryDelegation
unfolding compare_bytes32_to_address
find_delegation account [] = none
find_delegation account (d ∷ ds) =
    if compare_bytes32_to_address d.delegate account then some d else find_delegation account ds

-- `println!` of `delegations[0]`, which panics on an empty list.
unfoldable pub print_first : List RegistryDelegation → Outcome (Unit {0})
print_first [] = panic index_out_of_bounds
print_first (d ∷ ds) = ok tt

-- The rest of `process_delegate`.
unfoldable pub match_delegation :
    Address → Address → List RegistryDelegation → Preflight (Option Delegation)
match_delegation account potential_delegate [] =
    pure (some (record { delegate = potential_delegate; ratio = 1 }))
match_delegation account potential_delegate (d ∷ ds) = elim (find_delegation account (d ∷ ds)) [
  | none ↦ pure none
  | some found ↦ do
    ratio ← lift (divide (total_ratios 0 (d ∷ ds)) found.ratio)
    pure (some (record { delegate = potential_delegate; ratio = ratio }))
]

unfoldable pub process_delegate :
    Env → Address → String → Address → Address → Preflight (Option Delegation)
process_delegate env asset_contract context potential_delegate account = do
  answer ← preflight_call env (get_delegation asset_contract context potential_delegate)
  lift (print_first answer.delegations)
  match_delegation account potential_delegate answer.delegations

module _ (ext : Crates) where
  -- The `for` loop over the potential delegates.
  unfoldable pub process_delegates :
      Env → Address → Asset → List Address → Preflight (List (Option Delegation))
  process_delegates env account asset [] = pure []
  process_delegates env account asset (a ∷ rest) = do
    let context = ext.address_to_string asset.contract
    d ← process_delegate env asset.delegation.contract context a account
    ds ← process_delegates env account asset rest
    pure (d ∷ ds)

  unfoldable pub split_process : Env → Address → Asset → Bytes → Preflight (List Delegation)
  split_process env account asset additional_data =
      if length additional_data % 20 == 0
      then (do
        account_delegates ← process_delegates env account asset (addresses additional_data)
        lift (valid_or_bail account_delegates))
      else lift (err invalid_data_length)

  abbrev pub split_delegation : DelegationStrategy
  split_delegation = record { process = split_process }
