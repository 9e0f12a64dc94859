-- ===== src/Plugin/Reach/Poll/Recount.antt =====
-- The counts of a proposal beside the recount of its ballots.
use aragon_zk_governance.Common.{
  ℕ, ◌≡◌, refl, ap, sym, ◌∙◌, Bool-cases, inl, inr, true, false, [], ◌==◌, ==_iff, arith,
}
use aragon_zk_governance.Config.{Address, Bytes}
use aragon_zk_governance.Guest.Voting.{Journal}
use aragon_zk_governance.Plugin.{
  done, VoteOption, vote_none, vote_abstain, vote_yes, vote_no, Proposal, Plugin, Block, Externals,
}
use aragon_zk_governance.Plugin.Vote.{vote, cast_vote}
use aragon_zk_governance.Plugin.Execute.{execute}
use aragon_zk_governance.Plugin.Vote.Counts.{option_code, votes_for, cast_vote_lem}
use aragon_zk_governance.Plugin.Vote.Accepts.{vote_iff}
use aragon_zk_governance.Plugin.Execute.Accepts.{execute_iff}
use aragon_zk_governance.Plugin.Settings.{initialize, stored, create, Request}
use aragon_zk_governance.Plugin.Settings.Accepts.{
  update_settings_iff, update_voting_settings_tx_lem, create_lem,
}
use aragon_zk_governance.Plugin.Ledger.{
  Ledger, recast, option_of-recast, recount-recast, recast-HasDistinct,
}
use aragon_zk_governance.Plugin.Reach.{
  voted, executed, created, updated, Runs, here, next, Reach, begun, no_proposal,
}
use aragon_zk_governance.Plugin.Writes.{set_proposal_cases}
use aragon_zk_governance.Plugin.Reach.Poll.{
  option_at, with_ballot, ballots, JournalHas, VotesHave, IsCount,
}

pub option_at_lem : (d : ℕ) (o : VoteOption) → d ≡ option_code o → option_at d ≡ o
option_at_lem d vote_none h = rw h refl
option_at_lem d vote_abstain h = rw h refl
option_at_lem d vote_yes h = rw h refl
option_at_lem d vote_no h = rw h refl

pub cast_vote-IsCount :
    (power : Address → ℕ) (l : Ledger) (before : Proposal) (j : Journal) {after : Proposal}
    → cast_vote before j ≡ done after
    → j.balance ≡ power j.voter
    → IsCount power l before
    → IsCount power (recast j.voter (option_at j.direction) l) after
cast_vote-IsCount power l before j {after} cast powered c =
    let (option, r) = cast_vote_lem before j cast in
    let a = j.voter in
    rw (option_at_lem j.direction option r.chosen) (record {
      distinct = recast-HasDistinct a option l c.distinct;
      entries = λ b.
          ap (λ (q : Proposal). q.voters b) r.same_but_voters
          ∙ (rw (c.entries b) (sym (option_of-recast a b option l)));
      counts = λ o.
          let moved = rw (c.entries a, powered) at (r.counts o) in
          omega (arith, moved, c.counts o, recount-recast o power a option l);
    })

-- A change that is no ballot.
same-IsCount :
    (power : Address → ℕ) (l : Ledger) (before after : Proposal)
    → after.voters ≡ before.voters
    → after.tally ≡ before.tally
    → IsCount power l before
    → IsCount power l after
same-IsCount power l before after voters tally c = record {
  distinct = c.distinct;
  entries = λ a. rw voters (c.entries a);
  counts = λ o. rw tally (c.counts o);
}

voted-IsCount :
    (ext : Externals) (power : Address → ℕ) (id : ℕ) (l : Ledger) (p : Plugin)
    (journal_data seal : Bytes) {q : Plugin}
    → vote ext p journal_data seal ≡ done q
    → JournalHas id power (ext.decode_voting_journal journal_data)
    → IsCount power l (p.proposals id)
    → IsCount power (with_ballot id (ext.decode_voting_journal journal_data) l) (q.proposals id)
voted-IsCount ext power id l p journal_data seal {q} h has c =
    let v = (vote_iff ext p journal_data seal q).0 h in
    let j = v.journal in
    let powered : j.proposal_id ≡ id → j.balance ≡ power j.voter = rw v.decoded at has in
    rw (v.decoded, v.stored)
      (elim (Bool-cases (j.proposal_id == id)) [
        | inl same ↦
            let here_id = (==_iff j.proposal_id id).0 same in
            rw (same, (==_iff id j.proposal_id).1 (sym here_id))
              (cast_vote-IsCount power l (p.proposals id) j
                (ap (λ (k : ℕ). cast_vote (p.proposals k) j) (sym here_id) ∙ v.cast)
                (powered here_id) c)
        | inr other ↦
            let apart : (id == j.proposal_id) ≡ false =
              ground (arith, ==_iff id j.proposal_id, ==_iff j.proposal_id id) in
            rw (other, apart) c
      ])

execute-IsCount :
    (ext : Externals) (power : Address → ℕ) (id : ℕ) (l : Ledger) (block : Block) (p : Plugin)
    (journal_data seal : Bytes) {q : Plugin}
    → execute ext block p journal_data seal ≡ done q
    → IsCount power l (p.proposals id)
    → IsCount power l (q.proposals id)
execute-IsCount ext power id l block p journal_data seal {q} h c =
    let e = (execute_iff ext block p journal_data seal q).0 h in
    let marked = record (p.proposals e.journal.proposal_id) { executed = true } in
    rw e.stored (
      set_proposal_cases (IsCount power l) p e.journal.proposal_id marked id
        (λ same.
          same-IsCount power l (p.proposals id) marked (ap (λ (k : ℕ). (p.proposals k).voters) same)
            (ap (λ (k : ℕ). (p.proposals k).tally) same) c)
        c)

create-IsCount :
    (ext : Externals) (power : Address → ℕ) (id : ℕ) (l : Ledger) (block : Block) (r : Request)
    (p : Plugin) {q : Plugin}
    → create ext block r p ≡ done q
    → IsCount power l (p.proposals id)
    → IsCount power l (q.proposals id)
unfolding stored
create-IsCount ext power id l block r p h c =
    let f = create_lem ext block r p h in
    let new =
      stored p.settings block f.snapshot_block f.start f.end r (p.proposals r.proposal_id) in
    rw f.written (
      set_proposal_cases (IsCount power l) p r.proposal_id new id
        (λ same.
          same-IsCount power l (p.proposals id) new (ap (λ (k : ℕ). (p.proposals k).voters) same)
            (ap (λ (k : ℕ). (p.proposals k).tally) same) c)
        c)

Runs-IsCount :
    (ext : Externals) (power : Address → ℕ) (id : ℕ) {p q : Plugin} (runs : Runs ext p q)
    → VotesHave ext id power runs
    → IsCount power [] (p.proposals id)
    → IsCount power (ballots ext id runs) (q.proposals id)
Runs-IsCount ext power id here has c = c
Runs-IsCount ext power id (next {q} runs (voted journal_data seal h)) (has, rest) c =
    voted-IsCount ext power id (ballots ext id runs) q journal_data seal h has
      (Runs-IsCount ext power id runs rest c)
Runs-IsCount ext power id (next {q} runs (executed block journal_data seal h)) has c =
    execute-IsCount ext power id (ballots ext id runs) block q journal_data seal h
      (Runs-IsCount ext power id runs has c)
Runs-IsCount ext power id (next {q} runs (created block r h)) has c =
    create-IsCount ext power id (ballots ext id runs) block r q h
      (Runs-IsCount ext power id runs has c)
Runs-IsCount ext power id (next {q} {r} runs (updated sender s h)) has c =
    let (_, same) =
      (update_settings_iff s q r).0 (update_voting_settings_tx_lem ext sender s q h) in
    rw same (Runs-IsCount ext power id runs has c)

no_votes : (o : VoteOption) → votes_for o no_proposal.tally ≡ 0
no_votes vote_none = refl
no_votes vote_abstain = refl
no_votes vote_yes = refl
no_votes vote_no = refl

-- Whatever is done with an initialised plugin: if each accepted vote for a proposal carries the
-- voter's one power, the proposal's voters and counts are those of the ballots recounted. Each voter
-- has one ballot, the latest, and the entry of each account is its ballot's option or none.
pub Reach-IsCount :
    (ext : Externals) (power : Address → ℕ) (id : ℕ) (p : Plugin) (reach : Reach ext p)
    → VotesHave ext id power reach.runs
    → IsCount power (ballots ext id reach.runs) (p.proposals id)
unfolding initialize
Reach-IsCount ext power id p reach has =
    let (_, same) =
      (update_settings_iff reach.settings (begun reach.this reach.zeros) reach.first).0
        reach.initialized in
    let empty : IsCount power [] no_proposal = record {
      distinct = tt;
      entries = λ a. refl;
      counts = λ o. no_votes o;
    } in
    Runs-IsCount ext power id reach.runs has (rw same empty)
