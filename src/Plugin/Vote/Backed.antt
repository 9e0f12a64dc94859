-- ===== src/Plugin/Vote/Backed.antt =====
-- The runs of voting_protocol.rs behind the votes that the plugin accepts.
use aragon_zk_governance.Common.{ℕ, ◌≡◌, ◌≢◌, sym, ap, ◌∙◌, some, true, List, arith}
use mathlib.Core.Option.{some-injective}
use aragon_zk_governance.Outcome.{ok, >>=-eq-ok}
use aragon_zk_governance.Config.{Address, Bytes}
use aragon_zk_governance.Steel.{Commitment}
use aragon_zk_governance.Crates.{Crates}
use aragon_zk_governance.Stdin.{Wire}
use aragon_zk_governance.Guest.Voting.{Journal, VotingInput, read_voting_input, voting_main}
use aragon_zk_governance.Guest.Voting.Accepts.{IsAccepted, prove_vote_iff}
use aragon_zk_governance.Plugin.{done, VoteOption, vote_none, Plugin, Externals}
use aragon_zk_governance.Plugin.Writes.{set_proposal_here, set_proposal_other}
use aragon_zk_governance.Plugin.Vote.{vote}
use aragon_zk_governance.Plugin.Vote.Accepts.{vote_iff}
use aragon_zk_governance.Plugin.Vote.Counts.{option_code, IsRecount, cast_vote_lem}

-- The verifier accepts a seal only for a journal that a run of the voting program committed.
pub record IsVotingVerifier (crates : Crates) (wire : Wire) (ext : Externals) (verifier : Address)
    (image_id : Bytes) : Type 0 where
  pub ran :
      (journal_data seal : Bytes)
      → ext.verify verifier seal image_id (ext.sha256 journal_data) ≡ true
      → (stdin : List wire.Word) × (j : Journal) × (voting_main crates wire stdin ≡ ok j)
        × (ext.decode_voting_journal journal_data ≡ some j)

-- An input that the voting program accepts, over the block of the proposal's snapshot and for this
-- plugin; what its journal changes in the proposal; and that the others are kept.
pub record IsBacked (crates : Crates) (wire : Wire) (ext : Externals) (p after : Plugin)
    : Type 0 where
  pub i : VotingInput wire.Input
  pub j : Journal
  pub accepted : IsAccepted crates wire i j
  pub contract : i.config_contract ≡ p.this
  pub digest :
      accepted.env.commitment.digest ≡ (p.proposals j.proposal_id).parameters.snapshot_block_hash
  pub block :
      (ext.decode_versioned_id accepted.env.commitment.id).0
      ≡ (p.proposals j.proposal_id).parameters.snapshot_block
  pub option : VoteOption
  pub real : option ≢ vote_none
  pub recounted : IsRecount (p.proposals j.proposal_id) (after.proposals j.proposal_id) j option
  pub others : (id : ℕ) → id ≢ j.proposal_id → after.proposals id ≡ p.proposals id
  pub settings : after.settings ≡ p.settings
  pub this : after.this ≡ p.this

pub voting_main-eq-ok :
    (crates : Crates) (wire : Wire) (stdin : List wire.Word) {j : Journal}
    → voting_main crates wire stdin ≡ ok j
    → (i : VotingInput wire.Input) × IsAccepted crates wire i j
unfolding voting_main
voting_main-eq-ok crates wire stdin {j} h =
    let (i, _, proves) = >>=-eq-ok (read_voting_input crates wire stdin) _ h in
    (i, (prove_vote_iff crates wire i j).0 proves)

-- If the proposals' verifiers accept only journals of runs of the voting program, each vote that
-- the plugin accepts is backed: some input, which the program accepts, was read over the block of
-- the proposal's snapshot and from this plugin; its balance is the power that the configured
-- strategies count for its voter there; that balance is added to the count of its direction, which
-- is an option other than none, and taken from the option that the voter had; and nothing else
-- changes.
pub vote-IsBacked :
    (crates : Crates) (wire : Wire) (ext : Externals) (p after : Plugin) (journal_data seal : Bytes)
    → ((id : ℕ)
        → IsVotingVerifier crates wire ext
            (p.proposals id).parameters.verifier
            (p.proposals id).parameters.voting_protocol_image_id)
    → vote ext p journal_data seal ≡ done after
    → IsBacked crates wire ext p after
vote-IsBacked crates wire ext p after journal_data seal sound h =
    let v = (vote_iff ext p journal_data seal after).0 h in
    let j = v.journal in
    let (stdin, j', ran, decoded) = (sound j.proposal_id).ran journal_data seal v.proved.verified in
    let same : j' ≡ j = some-injective _ _ (sym decoded ∙ v.decoded) in
    let (i, a) = voting_main-eq-ok crates wire stdin (rw same at ran) in
    let committed : a.env.commitment ≡ j.commitment =
      ap (λ (x : Journal). x.commitment) (sym a.journal) in
    let (option, r) = cast_vote_lem (p.proposals j.proposal_id) j v.cast in
    let now : after.proposals j.proposal_id ≡ v.proposal =
      ap (λ (x : Plugin). x.proposals j.proposal_id) v.stored
      ∙ set_proposal_here p j.proposal_id v.proposal in
    record {
      i = i;
      j = j;
      accepted = a;
      contract = ap (λ (x : Journal). x.config_contract) (sym a.journal) ∙ v.contract;
      digest = ap (λ (c : Commitment). c.digest) committed ∙ v.proved.digest;
      block = ap (λ (c : Commitment). (ext.decode_versioned_id c.id).0) committed ∙ v.proved.claim;
      option = option;
      real = λ none. omega (
        arith,
        a.direction_from,
        ap (λ (x : Journal). x.direction) (sym a.journal)
            ∙ r.chosen
            ∙ ap (λ (x : VoteOption). option_code x) none,
      );
      recounted = rw now r;
      others = λ id ne.
          ap (λ (x : Plugin). x.proposals id) v.stored
          ∙ set_proposal_other p j.proposal_id id v.proposal ne;
      settings = ap (λ (x : Plugin). x.settings) v.stored;
      this = ap (λ (x : Plugin). x.this) v.stored;
    }
