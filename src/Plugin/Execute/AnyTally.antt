-- ===== src/Plugin/Execute/AnyTally.antt =====
-- `execute` beside the counts and the votes of its proposal.
use aragon_zk_governance.Common.{ℕ, ◌≡◌, refl, some, ==_iff}
use aragon_zk_governance.Config.{Address, Bytes}
use aragon_zk_governance.Guest.Voting.{Journal}
use aragon_zk_governance.Plugin.{
  done, VoteOption, Tally, Proposal, VotingSettings, Plugin, set_proposal, Block, Externals,
}
use aragon_zk_governance.Plugin.Vote.{is_proposal_open}
use aragon_zk_governance.Plugin.Execute.{can_execute, execute}
use aragon_zk_governance.Plugin.Execute.Accepts.{IsExecuted, executed_at, execute_iff}

-- The proposal with another support threshold and other votes.
abbrev pub with_votes : Proposal → ℕ → Tally → (Address → VoteOption) → Proposal
with_votes q support_threshold t voters = record q {
  parameters = record q.parameters { support_threshold = support_threshold };
  tally = t;
  voters = voters;
}

-- The plugin with other settings, and with other votes on a proposal.
abbrev pub with_limits : Plugin → VotingSettings → ℕ → ℕ → Tally → (Address → VoteOption) → Plugin
with_limits p settings id support_threshold t voters =
    set_proposal (record p { settings = settings }) id
      (with_votes (p.proposals id) support_threshold t voters)

-- An execution that the plugin accepts is accepted also whatever the counts and the votes of its
-- proposal, whatever its support threshold, and whatever the plugin's settings, the minimal
-- participation among them.
pub execute-any_tally :
    (ext : Externals) (block : Block) (p after : Plugin) (journal_data seal : Bytes)
    (settings : VotingSettings) (support_threshold : ℕ) (t : Tally) (voters : Address → VoteOption)
    → execute ext block p journal_data seal ≡ done after
    → (j : Journal) × (ext.decode_execution_journal journal_data ≡ some j)
      × (let other = with_limits p settings j.proposal_id support_threshold t voters in
          execute ext block other journal_data seal ≡ done (executed_at other j.proposal_id))
unfolding can_execute is_proposal_open
execute-any_tally ext block p after journal_data seal settings support_threshold t voters h =
    let e = (execute_iff ext block p journal_data seal after).0 h in
    let id = e.journal.proposal_id in
    let other = with_limits p settings id support_threshold t voters in
    let here = (==_iff id id).1 refl in
    let accepted : IsExecuted ext block other journal_data seal (executed_at other id) = record {
      journal = e.journal;
      decoded = e.decoded;
      contract = e.contract;
      allowed = rw here e.allowed;
      proved = rw here (record {
        digest = e.proved.digest;
        claim = e.proved.claim;
        verified = e.proved.verified;
      });
      succeeded = rw here e.succeeded;
      stored = refl;
    } in
    (
      e.journal,
      e.decoded,
      (execute_iff ext block other journal_data seal (executed_at other id)).1 accepted,
    )
