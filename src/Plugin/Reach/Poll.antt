-- ===== src/Plugin/Reach/Poll.antt =====
-- The ballots of a proposal in a run, and what its counts are to agree with.
pub mod Recount
pub mod Accepted
use aragon_zk_governance.Common.{ℕ, ◌≡◌, Option, some, List, [], if◌then◌else◌, ◌==◌}
use aragon_zk_governance.Config.{Address}
use aragon_zk_governance.Guest.Voting.{Journal}
use aragon_zk_governance.Plugin.{
  VoteOption, vote_none, vote_abstain, vote_yes, vote_no, Proposal, Plugin, Externals,
}
use aragon_zk_governance.Plugin.Vote.Counts.{votes_for}
use aragon_zk_governance.Plugin.Ledger.{Ledger, recast, option_of, recount, HasDistinct}
use aragon_zk_governance.Plugin.Reach.{voted, executed, created, updated, Runs, here, next}

abbrev pub option_at : ℕ → VoteOption
option_at d =
    if d == 1
    then vote_abstain
    else if d == 2
    then vote_yes
    else if d == 3
    then vote_no
    else vote_none

-- The ballot of a journal, if it is for the proposal.
abbrev pub with_ballot : ℕ → Option Journal → Ledger → Ledger
with_ballot id Option.none l = l
with_ballot id (some j) l =
    if j.proposal_id == id then recast j.voter (option_at j.direction) l else l

-- The ballots of a proposal in the order of their voters' first ones, from the accepted votes.
abbrev pub ballots : (ext : Externals) → ℕ → {p q : Plugin} → Runs ext p q → Ledger
ballots ext id here = []
ballots ext id (next runs (voted journal_data seal h)) =
    with_ballot id (ext.decode_voting_journal journal_data) (ballots ext id runs)
ballots ext id (next runs (executed block journal_data seal h)) = ballots ext id runs
ballots ext id (next runs (created block r h)) = ballots ext id runs
ballots ext id (next runs (updated sender s h)) = ballots ext id runs

-- Each journal with a vote for the proposal has the voter's power for balance.
abbrev pub JournalHas : ℕ → (Address → ℕ) → Option Journal → Type 0
JournalHas id power Option.none = Unit {0}
JournalHas id power (some j) = j.proposal_id ≡ id → j.balance ≡ power j.voter

abbrev pub VotesHave :
    (ext : Externals) → ℕ → (Address → ℕ) → {p q : Plugin} → Runs ext p q → Type 0
VotesHave ext id power here = Unit {0}
VotesHave ext id power (next runs (voted journal_data seal h)) =
    JournalHas id power (ext.decode_voting_journal journal_data) × VotesHave ext id power runs
VotesHave ext id power (next runs (executed block journal_data seal h)) =
    VotesHave ext id power runs
VotesHave ext id power (next runs (created block r h)) = VotesHave ext id power runs
VotesHave ext id power (next runs (updated sender s h)) = VotesHave ext id power runs

-- The proposal agrees with the ballots.
pub record IsCount (power : Address → ℕ) (l : Ledger) (q : Proposal) : Type 0 where
  pub distinct : HasDistinct l
  pub entries : (a : Address) → q.voters a ≡ option_of l a
  pub counts : (o : VoteOption) → votes_for o q.tally ≡ recount o power l
