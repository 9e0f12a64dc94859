-- ===== src/Tests/Voting.antt =====
-- The voting program on Alice's vote, and on delegation data that names others.
use aragon_zk_governance.Common.{ℕ, ◌%◌, ◌≡◌, ◌↔◌, String, refl, List, [], ◌∷◌, arith}
use aragon_zk_governance.Common.Dict.{lookup, insert}
use aragon_zk_governance.Outcome.{ok}
use aragon_zk_governance.U256.{modulus, ◌⊕◌, divide}
use aragon_zk_governance.Bytes.Laws.{parse_hex, digit_value}
use aragon_zk_governance.Steel.{Env, call}
use aragon_zk_governance.Guest.VotingPower.{balance_of_process}
use aragon_zk_governance.Guest.Delegation as Delegation
use aragon_zk_governance.Guest.Context.{
  default_context, process_voting_strategy, process_delegation_strategy,
}
use aragon_zk_governance.Guest.Signature as Signature
use aragon_zk_governance.Guest.Voting.{
  VotingInput, check_signature, prove_vote, asset_voting_power, fold_delegations,
  delegations_or_panic, sum_voting_power,
}
use aragon_zk_governance.Guest.Voting.Counted.{sum_voting_power_iff, AreCounted, total}
use aragon_zk_governance.Guest.Voting.Accepts.{prove_vote_iff, IsAccepted}
use aragon_zk_governance.Guest.Voting.Signer.{prove_vote-any_signer}
use aragon_zk_governance.Guest.Voting.Repeats.{asset_voting_power-append}
use aragon_zk_governance.Guest.Voting.Undelegated.{asset_voting_power-undelegated}
use aragon_zk_governance.Agreement.Accepted.{vote_input}
use aragon_zk_governance.Tests.World.{alice, bob, repeat, balance_asset, env, ext}
use aragon_zk_governance.Tests.Format.{wire}
use aragon_zk_governance.Tests.Publisher.{vote_args, journal, signature_recovers, delegates_text}

abbrev input : VotingInput Env
input = vote_input vote_args env

prove_vote_iff_example :
    (prove_vote ext wire input ≡ ok journal) ↔ IsAccepted ext wire input journal
prove_vote_iff_example = prove_vote_iff ext wire input journal

abbrev other_signature : String
other_signature =
    "111111111111111111111111111111111111111111111111111111111111111111111111111111111111111111111111111111111111111111111111111111111b"

abbrev other_input : VotingInput Env
other_input = record input { signature = other_signature }

other_recovers : check_signature ext other_input ≡ ok (repeat 20 0x11)
unfolding check_signature parse_hex digit_value Signature.ecrecover Signature.into_recovery_id
    Signature.recovery_byte Signature.skip_tag Signature.last_20
other_recovers = refl

prove_vote-any_signer_example : prove_vote ext wire other_input ≡ prove_vote ext wire input
prove_vote-any_signer_example =
    prove_vote-any_signer ext wire input other_signature (repeat 20 0) (repeat 20 0x11)
      signature_recovers other_recovers

abbrev alice_once : String
alice_once = "aaaaaaaaaaaaaaaaaaaaaaaaaaaaaaaaaaaaaaaa"

abbrev alice_twice : String
alice_twice = "aaaaaaaaaaaaaaaaaaaaaaaaaaaaaaaaaaaaaaaaaaaaaaaaaaaaaaaaaaaaaaaaaaaaaaaaaaaaaaaa"

abbrev bob_once : String
bob_once = "bbbbbbbbbbbbbbbbbbbbbbbbbbbbbbbbbbbbbbbb"

alice_counts :
    asset_voting_power ext (default_context ext env) alice alice_once balance_asset ≡ ok 100
unfolding asset_voting_power fold_delegations delegations_or_panic default_context lookup insert
    process_voting_strategy process_delegation_strategy balance_of_process call parse_hex
    digit_value divide ◌⊕◌ Delegation.split_process Delegation.addresses Delegation.chunks_exact
    Delegation.check_delegates Delegation.check_delegate Delegation.match_delegation
    Delegation.find_delegation Delegation.total_ratios Delegation.compare_bytes32_to_address
    Delegation.valid_or_bail Delegation.all_valid
alice_counts = refl

asset_voting_power-append_example :
    asset_voting_power ext (default_context ext env) alice alice_twice balance_asset
    ≡ ok (100 ⊕ 100)
unfolding parse_hex digit_value
asset_voting_power-append_example =
    asset_voting_power-append ext env alice balance_asset alice_once alice_once alice_twice alice
      alice refl refl refl alice_counts alice_counts

bob_has : process_voting_strategy (default_context ext env) "BalanceOf" bob balance_asset ≡ ok 30
unfolding process_voting_strategy default_context lookup insert balance_of_process call
bob_has = refl

asset_voting_power-undelegated_example :
    asset_voting_power ext (default_context ext env) alice bob_once balance_asset ≡ ok 30
unfolding parse_hex digit_value
asset_voting_power-undelegated_example =
    asset_voting_power-undelegated ext env alice bob balance_asset bob_once
      (record { delegations = []; expiration_timestamp = 0 }) 30 refl refl refl refl refl bob_has
      (omega arith)

sum_voting_power_iff_example :
    (sum_voting_power ext (default_context ext env) alice delegates_text 0 (balance_asset ∷ [])
      ≡ ok 110)
    ↔ ((ps : List ℕ) × AreCounted ext env alice delegates_text (balance_asset ∷ []) ps
        × (110 ≡ total ps % modulus))
sum_voting_power_iff_example =
    sum_voting_power_iff ext env alice delegates_text (balance_asset ∷ []) 110
