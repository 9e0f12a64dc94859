-- ===== src/Tests/Plugin.antt =====
-- The plugin's theorems on the small chain.
use aragon_zk_governance.Common.{ℕ, ◌+◌, ◌≡◌, ◌≢◌, refl, some, false, [], ◌∷◌, arith}
use aragon_zk_governance.Config.{Address}
use aragon_zk_governance.Guest.Voting.{Journal}
use aragon_zk_governance.Plugin.{
  done, revert, already_initialized, standard, vote_yes, vote_no, VoteOption, Tally, Proposal,
  VotingSettings, Plugin, add, sub, set_proposal, set_voter,
}
use aragon_zk_governance.Plugin.Settings.{stored, initialize}
use aragon_zk_governance.Plugin.Vote.{vote, can_vote, cast_vote, withdraw, deposit, vote_option}
use aragon_zk_governance.Plugin.Vote.AnyTime.{at_time, vote-any_time}
use aragon_zk_governance.Plugin.Vote.Counts.{cast_vote-other_balance}
use aragon_zk_governance.Plugin.Execute.{execute}
use aragon_zk_governance.Plugin.Execute.Accepts.{executed_at}
use aragon_zk_governance.Plugin.Execute.AnyTally.{with_limits, execute-any_tally}
use aragon_zk_governance.Plugin.Settings.Accepts.{IsAllowed}
use aragon_zk_governance.Plugin.Reach.{here}
use aragon_zk_governance.Plugin.Reach.Bounds.{HasBounds, Reach-HasBounds}
use aragon_zk_governance.Plugin.Reach.Initialized.{Reach-initialize}
use aragon_zk_governance.Plugin.Reach.Once.{execute-once}
use aragon_zk_governance.Plugin.Reach.Poll.{IsCount, VotesHave}
use aragon_zk_governance.Plugin.Reach.Poll.Recount.{Reach-IsCount}
use aragon_zk_governance.Tests.World.{alice}
use aragon_zk_governance.Tests.Prover.{encode}
use aragon_zk_governance.Tests.Publisher.{journal}
use aragon_zk_governance.Tests.Chain.{
  chain, block, at_create, at_vote, at_execute, votes, executes, casts, voted_yes, poll,
}

Reach-HasBounds_example :
    IsAllowed at_execute.settings × ((id : ℕ) → HasBounds (at_execute.proposals id).parameters)
Reach-HasBounds_example = Reach-HasBounds chain at_execute poll

execute-once_example : execute chain block at_execute (encode journal) [] ≢ done at_execute
execute-once_example =
    execute-once chain block block at_vote at_execute at_execute at_execute (encode journal) []
      (encode journal) [] journal journal refl refl refl executes here

Reach-initialize_example : initialize at_vote.settings at_execute ≡ revert already_initialized
Reach-initialize_example = Reach-initialize chain at_execute at_vote.settings poll

abbrev power : Address → ℕ
power a = 110

powered : VotesHave chain 1 power poll.runs
powered = ((λ same. refl), tt)

Reach-IsCount_example : IsCount power ((alice, vote_yes) ∷ []) (at_execute.proposals 1)
Reach-IsCount_example = Reach-IsCount chain power 1 at_execute poll powered

-- Alice changes her vote after the execution.
abbrev against_it : Journal
against_it = record journal { direction = 3 }

vote-any_time_example :
    (j : Journal) × (after' : Plugin) × (chain.decode_voting_journal (encode journal) ≡ some j)
    × (let later =
          set_proposal at_create j.proposal_id
            (at_time (at_create.proposals j.proposal_id) 1 2 standard) in
        (vote chain later (encode journal) [] ≡ done after')
        × ((account : Address) (option : VoteOption)
            → can_vote block later j.proposal_id account option ≡ done false))
vote-any_time_example =
    vote-any_time chain at_create at_vote (encode journal) [] block 1 2 standard (omega arith) votes

abbrev against : Tally
against = record { abstain_votes = 0; yes_votes = 0; no_votes = 110 }

-- No proposal has the support of its whole base.
abbrev strict : VotingSettings
strict = record at_vote.settings { min_participation = 1000000; support_threshold = 999999 }

execute-any_tally_example :
    (j : Journal) × (chain.decode_execution_journal (encode journal) ≡ some j)
    × (let other = with_limits at_vote strict j.proposal_id 999999 against (λ a. vote_no) in
        execute chain block other (encode journal) [] ≡ done (executed_at other j.proposal_id))
execute-any_tally_example =
    execute-any_tally chain block at_vote at_execute (encode journal) [] strict 999999 against
      (λ a. vote_no) executes

-- Alice's power is less at another snapshot.
abbrev second : Journal
second = record journal { balance = 60; direction = 3 }

abbrev voted_no : Proposal
voted_no = record voted_yes {
  tally = record { abstain_votes = 0; yes_votes = 50; no_votes = 60 };
  voters = set_voter voted_yes.voters alice vote_no;
}

casts_again : cast_vote voted_yes second ≡ done voted_no
unfolding cast_vote withdraw deposit vote_option add sub
casts_again = refl

cast_vote-other_balance_example :
    (voted_no.tally.yes_votes + 60 ≡ (at_create.proposals 1).tally.yes_votes + 110)
    × (voted_no.tally.no_votes ≡ (at_create.proposals 1).tally.no_votes + 60)
unfolding stored
cast_vote-other_balance_example =
    cast_vote-other_balance (at_create.proposals 1) voted_yes voted_no journal second refl refl refl
      refl casts casts_again
