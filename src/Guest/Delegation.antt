-- ===== src/Guest/Delegation.antt =====
-- strategies/src/delegation_strategies.rs and its split_delegation.rs.
pub mod Addresses
pub mod Rounds
pub mod Append
pub mod Valid
pub mod Shares
pub mod Find
pub mod Conserved
use aragon_zk_governance.Common.{
  ℕ, zero, suc, ◌%◌, ◌+◌, Bool, Option, none, some, List, [], ◌∷◌, map, ltb, ◌==◌, bytes_eq,
  if◌then◌else◌, length, take, drop, String,
}
use aragon_zk_governance.Outcome.{
  Outcome, ok, err, panic, unwrapped, assertion, ◌>>=◌, invalid_data_length, invalid_delegations,
}
use aragon_zk_governance.U256.{◌⊕◌, divide}
use aragon_zk_governance.Config.{Address, Bytes, Asset, Delegation}
use aragon_zk_governance.Steel.{Env, call, get_delegation, RegistryDelegation, DelegationReturn}
use aragon_zk_governance.Crates.{Crates}

pub record DelegationStrategy : Type 0 where
  pub process : Env → Address → Asset → Bytes → Outcome (List Delegation)

-- `FromIterator<(Address, U256)> for Delegation`: the first pair, and a panic if there is none.
unfoldable pub delegation_from_iter : List (Address × ℕ) → Outcome Delegation
delegation_from_iter [] = panic (assertion "Iterator is empty, cannot create MyStruct")
delegation_from_iter ((delegate, ratio) ∷ rest) = ok (record { delegate = delegate; ratio = ratio })

-- `chunks_exact(20)`. The first argument is fuel; a list needs no more rounds than it has bytes.
unfoldable pub chunks_exact : ℕ → Bytes → List Bytes
chunks_exact zero bytes = []
chunks_exact (suc fuel) bytes =
    let rest = chunks_exact fuel (drop 20 bytes) in
    if ltb (length bytes) 20 then [] else take 20 bytes ∷ rest

-- The chunks of the input, each an `Address`.
unfoldable pub addresses : Bytes → List Address
unfolding chunks_exact
addresses data' = chunks_exact (length data') data'

unfoldable pub compare_bytes32_to_address : Bytes → Address → Bool
compare_bytes32_to_address bytes32 address = bytes_eq (drop 12 bytes32) address

-- The `fold` over the ratios.
unfoldable pub total_ratios : ℕ → List RegistryDelegation → ℕ
total_ratios acc [] = acc
total_ratios acc (d ∷ ds) = total_ratios (acc ⊕ d.ratio) ds

-- `iter().find(..)` for the entry that names the account.
unfoldable pub find_delegation : Address → List RegistryDelegation → Option RegistryDelegation
unfolding compare_bytes32_to_address
find_delegation account [] = none
find_delegation account (d ∷ ds) =
    if compare_bytes32_to_address d.delegate account then some d else find_delegation account ds

-- The closure's body once the registry has answered.
unfoldable pub match_delegation :
    Address → Address → List RegistryDelegation → Outcome (Option Delegation)
match_delegation account potential_delegate [] =
    ok (some (record { delegate = potential_delegate; ratio = 1 }))
match_delegation account potential_delegate (d ∷ ds) = elim (find_delegation account (d ∷ ds)) [
  | none ↦ ok none
  | some found ↦ do
    ratio ← divide (total_ratios 0 (d ∷ ds)) found.ratio
    ok (some (record { delegate = potential_delegate; ratio = ratio }))
]

-- `any(|d| d.is_none())`, and the unwrapped list where there is none.
unfoldable pub all_valid : List (Option Delegation) → Option (List Delegation)
all_valid [] = some []
all_valid (none ∷ rest) = none
all_valid (some d ∷ rest) = elim (all_valid rest) [ none ↦ none | some ds ↦ some (d ∷ ds) ]

unfoldable pub valid_or_bail : List (Option Delegation) → Outcome (List Delegation)
valid_or_bail ds = elim (all_valid ds) [ none ↦ err invalid_delegations | some vs ↦ ok vs ]

module _ (ext : Crates) where
  -- The closure that is mapped over the potential delegates.
  unfoldable pub check_delegate : Env → Address → Asset → Address → Outcome (Option Delegation)
  check_delegate env account asset potential_delegate = do
    let registry = asset.delegation.contract
    let context = ext.address_to_string asset.contract
    answer ← call env (get_delegation registry context potential_delegate)
    match_delegation account potential_delegate answer.delegations

  -- `map(..).collect()`, in order; a panic in the closure ends it.
  unfoldable pub check_delegates :
      Env → Address → Asset → List Address → Outcome (List (Option Delegation))
  check_delegates env account asset [] = ok []
  check_delegates env account asset (a ∷ rest) = do
    d ← check_delegate env account asset a
    ds ← check_delegates env account asset rest
    ok (d ∷ ds)

  unfoldable pub split_process : Env → Address → Asset → Bytes → Outcome (List Delegation)
  split_process env account asset additional_data =
      if length additional_data % 20 == 0
      then (do
        account_delegates ← check_delegates env account asset (addresses additional_data)
        valid_or_bail account_delegates)
      else err invalid_data_length

  abbrev pub split_delegation : DelegationStrategy
  split_delegation = record { process = split_process }
