-- ===== src/Plugin/Vote/Accepts.antt =====
-- Which votes the plugin accepts.
use aragon_zk_governance.Common.{
  ◌≡◌, ◌↔◌, sym, true, some, arith, bytes_eq, bytes_eq_iff, ◌==◌, ==_iff,
}
use aragon_zk_governance.Config.{Bytes}
use aragon_zk_governance.Guest.Voting.{Journal}
use aragon_zk_governance.Plugin.{
  done, undecodable, expect, Proposal, ProposalParameters, Plugin, set_proposal, Externals,
}
use aragon_zk_governance.Plugin.Reverts.{
  >>=-eq-done, require_passed, expect-eq-done, done-injective,
}
use aragon_zk_governance.Plugin.Vote.{check_proof, cast_vote, vote}

-- The journal commits to the proposal's snapshot, and the proposal's verifier accepts the seal for
-- the program and the journal.
pub record IsProved (ext : Externals) (parameters : ProposalParameters) (image_id : Bytes)
    (journal : Journal) (journal_data seal : Bytes) : Type 0 where
  pub digest : journal.commitment.digest ≡ parameters.snapshot_block_hash
  pub claim : (ext.decode_versioned_id journal.commitment.id).0 ≡ parameters.snapshot_block
  pub verified : ext.verify parameters.verifier seal image_id (ext.sha256 journal_data) ≡ true

pub check_proof_iff :
    (ext : Externals) (parameters : ProposalParameters) (image_id : Bytes) (journal : Journal)
    (journal_data seal : Bytes)
    → (check_proof ext parameters image_id journal journal_data seal ≡ done tt)
      ↔ IsProved ext parameters image_id journal journal_data seal
unfolding check_proof
check_proof_iff ext parameters image_id journal journal_data seal =
    let same_digest = bytes_eq_iff journal.commitment.digest parameters.snapshot_block_hash in
    let claim_id = (ext.decode_versioned_id journal.commitment.id).0 in
    let same_claim = ==_iff claim_id parameters.snapshot_block in
    (
      λ h.
          let (digest, h) = require_passed (bytes_eq journal.commitment.digest _) _ _ h in
          let (claim, h) = require_passed (claim_id == parameters.snapshot_block) _ _ h in
          record {
            digest = same_digest.0 digest;
            claim = same_claim.0 claim;
            verified = ground arith;
          },
      λ p. rw (same_digest.1 p.digest, same_claim.1 p.claim, p.verified),
    )

-- The facts that an accepted vote rests on, and the storage after it.
pub record IsVoted (ext : Externals) (p : Plugin) (journal_data seal : Bytes) (after : Plugin)
    : Type 0 where
  pub journal : Journal
  pub decoded : ext.decode_voting_journal journal_data ≡ some journal
  pub contract : journal.config_contract ≡ p.this
  pub proved :
      IsProved ext
        (p.proposals journal.proposal_id).parameters
        (p.proposals journal.proposal_id).parameters.voting_protocol_image_id
        journal
        journal_data
        seal
  pub proposal : Proposal
  pub cast : cast_vote (p.proposals journal.proposal_id) journal ≡ done proposal
  pub stored : after ≡ set_proposal p journal.proposal_id proposal

vote-IsVoted :
    (ext : Externals) (p : Plugin) (journal_data seal : Bytes) {after : Plugin}
    → vote ext p journal_data seal ≡ done after
    → IsVoted ext p journal_data seal after
unfolding vote
vote-IsVoted ext p journal_data seal h =
    let (j, decoded, h) =
      >>=-eq-done (expect (ext.decode_voting_journal journal_data) undecodable) _ h in
    let (contract, h) = require_passed (bytes_eq j.config_contract p.this) _ _ h in
    let parameters = (p.proposals j.proposal_id).parameters in
    let (_, checked, h) =
      >>=-eq-done
        (check_proof ext parameters parameters.voting_protocol_image_id j journal_data seal) _ h in
    let (proposal, cast, h) = >>=-eq-done (cast_vote (p.proposals j.proposal_id) j) _ h in
    record {
      journal = j;
      decoded = expect-eq-done (ext.decode_voting_journal journal_data) _ decoded;
      contract = (bytes_eq_iff j.config_contract p.this).0 contract;
      proved = (check_proof_iff ext parameters _ j journal_data seal).0 checked;
      proposal = proposal;
      cast = cast;
      stored = sym (done-injective h);
    }

IsVoted-vote :
    (ext : Externals) (p : Plugin) (journal_data seal : Bytes) {after : Plugin}
    → IsVoted ext p journal_data seal after
    → vote ext p journal_data seal ≡ done after
unfolding vote
IsVoted-vote ext p journal_data seal v = rw (
  v.decoded,
  (bytes_eq_iff v.journal.config_contract p.this).1 v.contract,
  (check_proof_iff ext _ _ v.journal journal_data seal).1 v.proved,
  v.cast,
  v.stored,
)

-- The plugin accepts a vote exactly if the journal decodes, names the plugin, commits to the
-- snapshot of its proposal and is proved for the proposal's voting program, and the vote can be cast;
-- and then just that proposal is replaced by the one with the vote cast.
pub vote_iff :
    (ext : Externals) (p : Plugin) (journal_data seal : Bytes) (after : Plugin)
    → (vote ext p journal_data seal ≡ done after) ↔ IsVoted ext p journal_data seal after
vote_iff ext p journal_data seal after =
    (vote-IsVoted ext p journal_data seal, IsVoted-vote ext p journal_data seal)
