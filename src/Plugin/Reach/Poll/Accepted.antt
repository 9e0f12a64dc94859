-- ===== src/Plugin/Reach/Poll/Accepted.antt =====
-- Votes that are not refused for their counts.
use aragon_zk_governance.Common.{ℕ, ◌+◌, ◌-◌, ◌≤◌, ◌<◌, ◌^◌, ◌≡◌, refl, some, arith}
use aragon_zk_governance.Config.{Address, Bytes}
use aragon_zk_governance.Guest.Voting.{Journal}
use aragon_zk_governance.Plugin.{
  done, add, sub, VoteOption, vote_none, vote_abstain, vote_yes, vote_no, Tally, Proposal, Plugin,
  set_proposal, set_voter, Externals,
}
use aragon_zk_governance.Plugin.Vote.{vote, withdraw, deposit, cast_vote}
use aragon_zk_governance.Plugin.Vote.Counts.{
  option_code, vote_option_iff, votes_for, weight, withdraw_lem,
}
use aragon_zk_governance.Plugin.Vote.Accepts.{IsProved, vote_iff}
use aragon_zk_governance.Plugin.Ledger.{
  Ledger, recast, option_of, recount, recount-recast, weight-none,
}
use aragon_zk_governance.Plugin.Reach.{Reach}
use aragon_zk_governance.Plugin.Writes.{set_proposal_here}
use aragon_zk_governance.Plugin.Reach.Poll.{ballots, VotesHave, IsCount}
use aragon_zk_governance.Plugin.Reach.Poll.Recount.{option_at_lem, cast_vote-IsCount, Reach-IsCount}

withdraw-done :
    (v : VoteOption) (n : ℕ) (t : Tally)
    → weight v v n ≤ votes_for v t
    → (t' : Tally) × (withdraw v n t ≡ done t')
unfolding withdraw sub
withdraw-done vote_none n t h = (t, refl)
withdraw-done vote_abstain n t h = (record t { abstain_votes = t.abstain_votes - n }, ground arith)
withdraw-done vote_yes n t h = (record t { yes_votes = t.yes_votes - n }, ground arith)
withdraw-done vote_no n t h = (record t { no_votes = t.no_votes - n }, ground arith)

deposit-done :
    (v : VoteOption) (n : ℕ) (t : Tally)
    → votes_for v t + weight v v n < 2 ^ 256
    → (t' : Tally) × (deposit v n t ≡ done t')
unfolding deposit add
deposit-done vote_none n t h = (t, refl)
deposit-done vote_abstain n t h = (record t { abstain_votes = t.abstain_votes + n }, ground arith)
deposit-done vote_yes n t h = (record t { yes_votes = t.yes_votes + n }, ground arith)
deposit-done vote_no n t h = (record t { no_votes = t.no_votes + n }, ground arith)

-- A voter's own ballot is part of the recount.
weight-recount :
    (o : VoteOption) (power : Address → ℕ) (a : Address) (l : Ledger)
    → weight o (option_of l a) (power a) ≤ recount o power l
weight-recount o power a l =
    omega (arith, recount-recast o power a vote_none l, weight-none o (power a))

cast_vote-done :
    (power : Address → ℕ) (l : Ledger) (q : Proposal) (j : Journal) (option : VoteOption)
    → IsCount power l q
    → j.balance ≡ power j.voter
    → j.direction ≡ option_code option
    → recount option power (recast j.voter option l) < 2 ^ 256
    → (after : Proposal) × (cast_vote q j ≡ done after)
unfolding cast_vote
cast_vote-done power l q j option c powered chosen room =
    let a = j.voter in
    let old = option_of l a in
    let entry : q.voters a ≡ old = c.entries a in
    let own : weight old old j.balance ≤ votes_for old q.tally =
      rw (powered, c.counts old) (weight-recount old power a l) in
    let (taken, hw) = withdraw-done old j.balance q.tally own in
    let left = withdraw_lem old j.balance q.tally option hw in
    let moved = rw (← powered) at (recount-recast option power a option l) in
    let space : votes_for option taken + weight option option j.balance < 2 ^ 256 =
      omega (arith, left, moved, c.counts option, room) in
    let (tally, hd) = deposit-done option j.balance taken space in
    (
      record q { tally = tally; voters = set_voter q.voters a option },
      rw (entry, hw, (vote_option_iff j.direction option).1 chosen, hd) refl,
    )

-- After any transactions, a proved vote is accepted: if the accepted votes for its proposal and the
-- vote itself carry the voters' powers, its direction stands for an option, and the powers for that
-- option, with this one, add up to less than 2 ^ 256. The proposal then agrees with the ballots in
-- which the voter's is the new one. (The journal names the plugin and its commitment is the
-- snapshot's.)
pub vote-IsCount :
    (ext : Externals) (power : Address → ℕ) (p : Plugin) (reach : Reach ext p)
    (journal_data seal : Bytes) (j : Journal) (option : VoteOption)
    → VotesHave ext j.proposal_id power reach.runs
    → ext.decode_voting_journal journal_data ≡ some j
    → j.config_contract ≡ p.this
    → IsProved ext
        (p.proposals j.proposal_id).parameters
        (p.proposals j.proposal_id).parameters.voting_protocol_image_id
        j
        journal_data
        seal
    → j.balance ≡ power j.voter
    → j.direction ≡ option_code option
    → recount option power (recast j.voter option (ballots ext j.proposal_id reach.runs)) < 2 ^ 256
    → (after : Plugin) × (vote ext p journal_data seal ≡ done after)
      × IsCount power
          (recast j.voter option (ballots ext j.proposal_id reach.runs))
          (after.proposals j.proposal_id)
vote-IsCount ext power p reach journal_data seal j option has decoded contract proved powered chosen
      room =
    let id = j.proposal_id in
    let l = ballots ext id reach.runs in
    let q = p.proposals id in
    let c = Reach-IsCount ext power id p reach has in
    let (cast_q, cast) = cast_vote-done power l q j option c powered chosen room in
    let after = set_proposal p id cast_q in
    let recounted = cast_vote-IsCount power l q j cast powered c in
    (
      after,
      (vote_iff ext p journal_data seal after).1 (record {
        journal = j;
        decoded = decoded;
        contract = contract;
        proved = proved;
        proposal = cast_q;
        cast = cast;
        stored = refl;
      }),
      rw (set_proposal_here p id cast_q, ← option_at_lem j.direction option chosen) recounted,
    )
