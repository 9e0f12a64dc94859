-- ===== src/Plugin/Vote/Never.antt =====
-- The configuration that voting_protocol.rs reads at a proposal's snapshot.
use aragon_zk_governance.Common.{ℕ, ◌+◌, ◌-◌, ◌%◌, ◌^◌, ◌≡◌, ◌≢◌, sym, ap, ◌∙◌, some, none}
use mathlib.Core.Option.{some-injective}
use aragon_zk_governance.Outcome.{ok, >>=-eq-ok, unwrap-eq-ok}
use aragon_zk_governance.Config.{Address, Bytes, RiscVotingProtocolConfig}
use aragon_zk_governance.Steel.{Env, call, call_iff, voting_protocol_config}
use aragon_zk_governance.Crates.{Crates}
use aragon_zk_governance.Stdin.{Wire}
use aragon_zk_governance.Guest.Voting.{Journal, read_config}
use aragon_zk_governance.Plugin.{done, Plugin, ProposalParameters, Block, Externals}
use aragon_zk_governance.Plugin.Getters.{proposal_config}
use aragon_zk_governance.Plugin.Settings.{Request, create}
use aragon_zk_governance.Plugin.Vote.{vote}
use aragon_zk_governance.Plugin.Vote.Accepts.{vote_iff}
use aragon_zk_governance.Plugin.Vote.Backed.{IsVotingVerifier, voting_main-eq-ok}
use aragon_zk_governance.Plugin.Reach.{Runs, Reach}
use aragon_zk_governance.Plugin.Reach.Frozen.{IsUnused, Runs-IsFrozen, Reach-no_parameters}
use aragon_zk_governance.Plugin.Reach.Shown.{create-IsSetBy}

-- The environment answers from the storage that the plugin had at some time before the number was
-- given to a proposal.
pub record IsBefore (ext : Externals) (this : Address) (id : ℕ) (g : Env) : Type 0 where
  pub earlier : Plugin
  pub same : earlier.this ≡ this
  pub reach : Reach ext earlier
  pub unused : IsUnused ext id reach.runs
  pub answer : g.answer (voting_protocol_config this id) ≡ some (proposal_config earlier id)

-- An input opens as the chain at the block of its commitment: for the block before a proposal's
-- creation, that is a time before it.
pub record IsHistory (wire : Wire) (ext : Externals) (this : Address) (block : Block) (id : ℕ)
    : Type 0 where
  pub before :
      (view : wire.Input) (g : Env)
      → wire.into_env view ≡ some g
      → g.commitment.digest ≡ block.block_hash ((block.number + 2 ^ 256 - 1) % 2 ^ 256)
      → IsBefore ext this id g

-- There is no configuration yet.
read_config-IsBefore :
    (crates : Crates) (ext : Externals) (this : Address) (id : ℕ) (g : Env)
    (config : RiscVotingProtocolConfig)
    → crates.config_from_str "" ≡ none
    → IsBefore ext this id g
    → read_config crates g this id ≢ ok config
unfolding read_config call proposal_config
read_config-IsBefore crates ext this id g config strict b h =
    let empty : proposal_config b.earlier id ≡ "" =
      ap (λ (x : ProposalParameters). x.voting_protocol_config)
        (Reach-no_parameters ext id b.earlier b.reach b.unused) in
    let (text, called, parsed) = >>=-eq-ok (call g (voting_protocol_config this id)) _ h in
    let answered = (call_iff g (voting_protocol_config this id) text).0 called in
    let nothing : text ≡ "" = some-injective _ _ (sym answered ∙ b.answer) ∙ empty in
    let read = unwrap-eq-ok (crates.config_from_str text) _ parsed in
    cc (rw nothing at read, strict)

-- No vote is ever accepted for a proposal, whatever is done before and after its creation, if its
-- verifier accepts only journals of runs of the voting program. The plugin asks for a commitment to
-- the block before the creation, and at that block the program reads an empty configuration from the
-- plugin and panics. (The proposal's number is new and is not given again, an input opens as the
-- chain was at its block, and the empty text is no JSON.)
pub vote_never :
    (crates : Crates) (wire : Wire) (ext : Externals) (block : Block) (r : Request)
    (before opened p after : Plugin) (later : Runs ext opened p) (journal_data seal : Bytes)
    (j : Journal)
    → create ext block r before ≡ done opened
    → IsUnused ext r.proposal_id later
    → IsHistory wire ext p.this block r.proposal_id
    → crates.config_from_str "" ≡ none
    → IsVotingVerifier crates wire ext
        (p.proposals r.proposal_id).parameters.verifier
        (p.proposals r.proposal_id).parameters.voting_protocol_image_id
    → ext.decode_voting_journal journal_data ≡ some j
    → j.proposal_id ≡ r.proposal_id
    → vote ext p journal_data seal ≢ done after
vote_never crates wire ext block r before opened p after later journal_data seal j creates unused
      history strict sound decoded for h =
    let v = (vote_iff ext p journal_data seal after).0 h in
    let id = r.proposal_id in
    let same : v.journal ≡ j = some-injective _ _ (sym v.decoded ∙ decoded) in
    let (_, kept) = Runs-IsFrozen ext id opened p later unused in
    let here_id = ap (λ (x : Journal). x.proposal_id) same ∙ for in
    let proved = rw here_id at v.proved in
    let (stdin, j', ran, decoded') = sound.ran journal_data seal proved.verified in
    let (i, a) = voting_main-eq-ok crates wire stdin ran in
    let same' : j' ≡ v.journal = some-injective _ _ (sym decoded' ∙ v.decoded) in
    let journal = sym a.journal ∙ same' in
    let digest =
      ap (λ (x : Journal). x.commitment.digest) journal
      ∙ proved.digest
      ∙ ap (λ (x : ProposalParameters). x.snapshot_block_hash) kept
      ∙ (create-IsSetBy ext block r before opened creates).snapshot_block_hash in
    let contract = ap (λ (x : Journal). x.config_contract) journal ∙ v.contract in
    let number = ap (λ (x : Journal). x.proposal_id) journal ∙ here_id in
    read_config-IsBefore crates ext p.this id a.env a.config strict
      (history.before i.input a.env a.opens digest) (rw (contract, number) at a.configured)
