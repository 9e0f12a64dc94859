-- ===== src/Tests/Token.antt =====
-- The token with the balances of Alice and Bob, in an environment and beside a poll.
use aragon_zk_governance.Common.{◌+◌, ◌≤◌, ◌≡◌, ◌≢◌, refl, Option, none, some, [], ◌∷◌}
use aragon_zk_governance.Outcome.{ok}
use aragon_zk_governance.Steel.{
  Env, Call, Answer, call, balance_of, get_total_supply, get_past_votes, get_past_total_supply,
  get_delegation, voting_protocol_config,
}
use aragon_zk_governance.Guest.Voting.{Journal, read_config}
use aragon_zk_governance.Guest.Execution.{ExecutionInput, prove_execution}
use aragon_zk_governance.Guest.Execution.Supplyless.{prove_execution-supplyless}
use aragon_zk_governance.Plugin.{done, add, sub, vote_no, Plugin}
use aragon_zk_governance.Plugin.Vote.{vote}
use aragon_zk_governance.Plugin.Vote.Accepts.{IsProved}
use aragon_zk_governance.Plugin.Settings.{stored}
use aragon_zk_governance.Plugin.Reach.Poll.{VotesHave, IsCount}
use aragon_zk_governance.Token.{
  Token, new_token, set, mint, transfer, IsReached, deployed, next, minted, transferred,
}
use aragon_zk_governance.Token.Supply.{IsSolvent, IsReached-IsSolvent}
use aragon_zk_governance.Token.View.{IsTokenAt, balance_of_process-token, IsTokenAt-IsSupplyless}
use aragon_zk_governance.Token.Turnout.{IsCountedBy, Reach-turnout, vote-turnout}
use aragon_zk_governance.Tests.World.{
  alice, bob, dao, token, plugin, balance_asset, balance_config, answer_at, env, ext,
}
use aragon_zk_governance.Tests.Format.{wire}
use aragon_zk_governance.Tests.Prover.{encode}
use aragon_zk_governance.Tests.Publisher.{journal}
use aragon_zk_governance.Tests.Execution.{tally, executed}
use aragon_zk_governance.Tests.Chain.{chain, at_execute, poll}

abbrev minted_150 : Token
minted_150 = record new_token {
  total_supply = 150;
  balance_of = set new_token.balance_of alice 150;
}

-- 40 of Alice's 150 go to Bob.
abbrev shared : Token
shared = record minted_150 { balance_of = set (set minted_150.balance_of alice 110) bob 40 }

mints : mint alice 150 new_token ≡ done minted_150
unfolding mint add
mints = refl

transfers : transfer alice bob 40 minted_150 ≡ done shared
unfolding transfer add sub
transfers = refl

shared-IsReached : IsReached shared
shared-IsReached =
    next (next deployed (minted alice 150 mints)) (transferred alice bob 40 transfers)

IsReached-IsSolvent_example : IsSolvent shared
IsReached-IsSolvent_example = IsReached-IsSolvent shared shared-IsReached

abbrev token_answer : (c : Call) → Option (Answer c)
token_answer (balance_of t account) = some (shared.balance_of account)
token_answer (get_total_supply t) = none
token_answer (get_past_votes t account timepoint) = none
token_answer (get_past_total_supply t timepoint) = none
token_answer (get_delegation r context delegate) = answer_at 10 (get_delegation r context delegate)
token_answer (voting_protocol_config contract proposal_id) = some "balances"

abbrev token_env : Env
token_env = record env { answer = token_answer }

stands : IsTokenAt token_env token shared
stands = record {
  balance = λ a. refl;
  total_supply = refl;
  past_votes = λ a timepoint. refl;
  past_total_supply = λ timepoint. refl;
}

abbrev token_input : ExecutionInput Env
token_input = record {
  input = token_env;
  dao = dao;
  proposal_id = 1;
  tally = tally;
  config_contract = plugin;
}

token_configured : read_config ext token_env plugin 1 ≡ ok balance_config
unfolding read_config call
token_configured = refl

prove_execution-supplyless_example : prove_execution ext wire token_input ≢ ok executed
prove_execution-supplyless_example =
    prove_execution-supplyless ext wire token_input token_env balance_config [] [] balance_asset
      refl token_configured refl (IsTokenAt-IsSupplyless token_env token shared stands) executed

counted : IsCountedBy token_env balance_asset shared shared.balance_of
counted = record {
  reached = shared-IsReached;
  stands = stands;
  powers = λ a. balance_of_process-token token_env balance_asset shared a stands;
}

powered : VotesHave chain 1 shared.balance_of poll.runs
powered = ((λ same. refl), tt)

Reach-turnout_example :
    (at_execute.proposals 1).tally.abstain_votes
      + (at_execute.proposals 1).tally.yes_votes
      + (at_execute.proposals 1).tally.no_votes
    ≤ 150
Reach-turnout_example =
    Reach-turnout chain at_execute poll 1 token_env balance_asset shared shared.balance_of counted
      powered

-- Alice changes her vote after the execution.
abbrev against_it : Journal
against_it = record journal { direction = 3 }

against_it-IsProved :
    IsProved chain
      (at_execute.proposals 1).parameters
      (at_execute.proposals 1).parameters.voting_protocol_image_id
      against_it
      (encode against_it)
      []
unfolding stored
against_it-IsProved = record { digest = refl; claim = refl; verified = refl }

vote-turnout_example :
    (after : Plugin) × (vote chain at_execute (encode against_it) [] ≡ done after)
    × IsCount shared.balance_of ((alice, vote_no) ∷ []) (after.proposals 1)
vote-turnout_example =
    vote-turnout chain at_execute poll token_env balance_asset shared shared.balance_of
      (encode against_it) [] against_it vote_no counted powered refl refl against_it-IsProved
      (balance_of_process-token token_env balance_asset shared alice stands) refl
