-- ===== src/Guest/Voting/Signer.antt =====
-- The address that a signature recovers to: its comparison with the voter is commented out in
-- voting_protocol.rs.
use aragon_zk_governance.Common.{String, ◌≡◌}
use aragon_zk_governance.Outcome.{ok}
use aragon_zk_governance.Config.{Address}
use aragon_zk_governance.Crates.{Crates}
use aragon_zk_governance.Stdin.{Wire}
use aragon_zk_governance.Guest.Voting.{VotingInput, check_signature, prove_vote}

-- A signature is as good as any other, whoever made it: with two signatures that both recover to
-- some address, the program ends alike.
pub prove_vote-any_signer :
    (ext : Crates) (wire : Wire) (i : VotingInput wire.Input) (signature : String) (a b : Address)
    → check_signature ext i ≡ ok a
    → check_signature ext (record i { signature = signature }) ≡ ok b
    → prove_vote ext wire (record i { signature = signature }) ≡ prove_vote ext wire i
unfolding prove_vote
prove_vote-any_signer ext wire i signature a b ha hb = rw (ha, hb)
