-- ===== src/Tests/Delegation.antt =====
-- Delegations by Carol to Alice and Bob.
use aragon_zk_governance.Common.{
  ℕ, ◌+◌, ◌*◌, ◌/◌, ◌<◌, ◌≤◌, ◌≡◌, refl, some, List, [], ◌∷◌, ◌++◌, arith, All,
}
use aragon_zk_governance.Outcome.{ok}
use aragon_zk_governance.U256.{divide}
use aragon_zk_governance.Config.{Delegation}
use aragon_zk_governance.Steel.{Call, RegistryDelegation}
use aragon_zk_governance.Guest.Delegation as Guest
use aragon_zk_governance.Guest.Delegation.{
  addresses, find_delegation, match_delegation, compare_bytes32_to_address, split_process,
}
use aragon_zk_governance.Guest.Delegation.Conserved.{
  match_delegation_conserved, IsExact, AreGranted, share_sum,
}
use aragon_zk_governance.Guest.Delegation.Shares.{
  match_delegation_share, match_delegation_over_counts,
}
use aragon_zk_governance.Tests.World.{alice, bob, carol, entry, balance_asset, env, ext}

abbrev alice_and_carol : List ℕ
alice_and_carol = alice ++ carol

abbrev granted : List Delegation
granted = record { delegate = alice; ratio = 1 } ∷ record { delegate = carol; ratio = 4 } ∷ []

-- The test is of the left side, which holds.
split_of_alice_and_carol : split_process ext env alice balance_asset alice_and_carol ≡ ok granted
unfolding split_process addresses Guest.chunks_exact Guest.check_delegates Guest.check_delegate
    match_delegation find_delegation compare_bytes32_to_address Guest.total_ratios divide
    Guest.valid_or_bail Guest.all_valid aragon_zk_governance.Steel.call
    aragon_zk_governance.U256.◌⊕◌
split_of_alice_and_carol = refl

abbrev first_entry : RegistryDelegation
first_entry = entry alice 1

abbrev entries : List RegistryDelegation
entries = first_entry ∷ entry bob 3 ∷ []

found_alice : find_delegation alice entries ≡ some first_entry
unfolding find_delegation compare_bytes32_to_address
found_alice = refl

match_delegation_share_example :
    (x : Delegation) × (match_delegation alice carol entries ≡ ok (some x))
    × (x.delegate ≡ carol)
    × (divide 40 x.ratio ≡ ok (40 / x.ratio))
    × (10 ≤ 40 / x.ratio)
    × (40 / x.ratio ≤ 40)
    × ((k : ℕ) → 4 ≡ k * 1 → 40 / x.ratio ≡ 10)
match_delegation_share_example =
    match_delegation_share alice carol first_entry (entry bob 3 ∷ []) first_entry 40 found_alice
      (omega arith) (omega arith)

abbrev two_thirds : List RegistryDelegation
two_thirds = entry alice 2 ∷ entry bob 3 ∷ []

found_two : find_delegation alice two_thirds ≡ some (entry alice 2)
unfolding find_delegation compare_bytes32_to_address
found_two = refl

found_three : find_delegation bob two_thirds ≡ some (entry bob 3)
unfolding find_delegation compare_bytes32_to_address
found_three = refl

match_delegation_over_counts_example :
    (x y : Delegation) × (match_delegation alice carol two_thirds ≡ ok (some x))
    × (match_delegation bob carol two_thirds ≡ ok (some y))
    × (40 < 40 / x.ratio + 40 / y.ratio)
match_delegation_over_counts_example =
    match_delegation_over_counts alice bob carol (entry alice 2) (entry bob 3) 40 found_two
      found_three (omega arith) (omega arith) (omega arith) (omega arith)

abbrev halves : List RegistryDelegation
halves = entry alice 1 ∷ entry bob 1 ∷ []

halves-IsExact : All (IsExact halves) halves
unfolding find_delegation compare_bytes32_to_address
halves-IsExact = ((refl, omega arith, 2, omega arith), ((refl, omega arith, 2, omega arith), tt))

match_delegation_conserved_example :
    (xs : List Delegation) × AreGranted carol halves halves xs × (share_sum 41 xs ≤ 41)
match_delegation_conserved_example =
    match_delegation_conserved carol 41 (entry alice 1) (entry bob 1 ∷ []) (omega arith)
      halves-IsExact
