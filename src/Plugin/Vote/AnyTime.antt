-- ===== src/Plugin/Vote/AnyTime.antt =====
-- `vote` beside `_canVote`: the dates, the voting mode and whether the proposal was executed.
use aragon_zk_governance.Common.{ℕ, ◌<◌, ◌^◌, ◌≡◌, refl, some, ap, true, false, arith, ==_iff}
use aragon_zk_governance.Config.{Address, Bytes}
use aragon_zk_governance.Guest.Voting.{Journal}
use aragon_zk_governance.Plugin.{
  done, to_u64, Proposal, Plugin, set_proposal, VoteOption, VotingMode, Block, Externals,
}
use aragon_zk_governance.Plugin.Reverts.{>>=-eq-done, done-injective}
use aragon_zk_governance.Plugin.Vote.{
  vote, cast_vote, withdraw, deposit, vote_option, is_proposal_open, can_vote,
}
use aragon_zk_governance.Plugin.Vote.Accepts.{IsVoted, vote_iff}

-- The proposal at another time of its life: with other dates and another mode, executed or not.
abbrev pub at_time : Proposal → ℕ → ℕ → VotingMode → Proposal
at_time q start end mode = record q {
  executed = true;
  parameters = record q.parameters { start_date = start; end_date = end; voting_mode = mode };
}

cast_vote-at_time :
    (q after : Proposal) (j : Journal) (start end : ℕ) (mode : VotingMode)
    → cast_vote q j ≡ done after
    → cast_vote (at_time q start end mode) j ≡ done (at_time after start end mode)
unfolding cast_vote
cast_vote-at_time q after j start end mode h =
    let (taken, hw, h) = >>=-eq-done (withdraw (q.voters j.voter) j.balance q.tally) _ h in
    let (option, ho, h) = >>=-eq-done (vote_option j.direction) _ h in
    let (tally, hd, h) = >>=-eq-done (deposit option j.balance taken) _ h in
    rw (hw, ho, hd) (ap (λ (x : Proposal). done (at_time x start end mode)) (done-injective h))

-- A vote that the plugin accepts is accepted also if its proposal was executed, and whatever the
-- proposal's dates and voting mode, though `canVote` is then false for every account and option.
-- (The time fits in 64 bits.)
pub vote-any_time :
    (ext : Externals) (p after : Plugin) (journal_data seal : Bytes) (block : Block) (start end : ℕ)
    (mode : VotingMode)
    → block.timestamp < 2 ^ 64
    → vote ext p journal_data seal ≡ done after
    → (j : Journal) × (after' : Plugin) × (ext.decode_voting_journal journal_data ≡ some j)
      × (let later =
            set_proposal p j.proposal_id (at_time (p.proposals j.proposal_id) start end mode) in
          (vote ext later journal_data seal ≡ done after')
          × ((account : Address) (option : VoteOption)
              → can_vote block later j.proposal_id account option ≡ done false))
unfolding can_vote is_proposal_open to_u64
vote-any_time ext p after journal_data seal block start end mode small h =
    let v = (vote_iff ext p journal_data seal after).0 h in
    let id = v.journal.proposal_id in
    let later = set_proposal p id (at_time (p.proposals id) start end mode) in
    let after' = set_proposal later id (at_time v.proposal start end mode) in
    let here = (==_iff id id).1 refl in
    let voted : IsVoted ext later journal_data seal after' = record {
      journal = v.journal;
      decoded = v.decoded;
      contract = v.contract;
      proved = rw here (record {
        digest = v.proved.digest;
        claim = v.proved.claim;
        verified = v.proved.verified;
      });
      proposal = at_time v.proposal start end mode;
      cast =
          rw here (cast_vote-at_time (p.proposals id) v.proposal v.journal start end mode v.cast);
      stored = refl;
    } in
    (
      v.journal,
      after',
      v.decoded,
      (
        (vote_iff ext later journal_data seal after').1 voted,
        λ account option. rw here (ground arith),
      ),
    )
