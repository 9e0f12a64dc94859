-- ===== src/Tests/Never.antt =====
-- A proposal from its creation on, and the chain at the block before it.
use aragon_zk_governance.Common.{
  ◌≡◌, ◌≢◌, refl, Option, none, some, [], false, true, str_eq, if◌then◌else◌,
}
use mathlib.Core.Option.{some-injective}
use aragon_zk_governance.Config.{Bytes}
use aragon_zk_governance.Steel.{
  Env, Call, Answer, balance_of, get_total_supply, get_past_votes, get_past_total_supply,
  get_delegation, voting_protocol_config,
}
use aragon_zk_governance.Crates.{Crates}
use aragon_zk_governance.Stdin.{Wire}
use aragon_zk_governance.Plugin.{done, to_u64, Externals}
use aragon_zk_governance.Plugin.Getters.{ProposalView, get_proposal, proposal_config}
use aragon_zk_governance.Plugin.Settings.{create, stored}
use aragon_zk_governance.Plugin.Vote.{vote, is_proposal_open}
use aragon_zk_governance.Plugin.Vote.Never.{IsHistory, vote_never}
use aragon_zk_governance.Plugin.Vote.Backed.{IsVotingVerifier}
use aragon_zk_governance.Plugin.Reach.{voted, executed, Runs, here, next, Reach}
use aragon_zk_governance.Plugin.Reach.Shown.{IsSetBy, create-get_proposal}
use aragon_zk_governance.Tests.World.{plugin, answer_at, balance_config, env, ext}
use aragon_zk_governance.Tests.Format.{wire}
use aragon_zk_governance.Tests.Prover.{encode}
use aragon_zk_governance.Tests.Publisher.{journal}
use aragon_zk_governance.Tests.Chain.{
  chain, settings, block, request, at_first, at_create, at_vote, at_execute, initialises, creates,
  votes, executes,
}

-- No journal has a proof.
abbrev honest_chain : Externals
honest_chain = record chain { verify = λ verifier seal image_id digest. false }

-- A parser that refuses the empty text.
abbrev strict : Crates
strict = record ext {
  config_from_str = λ s. if str_eq s "balances" then some balance_config else none;
}

abbrev empty_answer : (c : Call) → Option (Answer c)
empty_answer (balance_of t a) = answer_at 10 (balance_of t a)
empty_answer (get_total_supply t) = answer_at 10 (get_total_supply t)
empty_answer (get_past_votes t a n) = answer_at 10 (get_past_votes t a n)
empty_answer (get_past_total_supply t n) = answer_at 10 (get_past_total_supply t n)
empty_answer (get_delegation r context d) = answer_at 10 (get_delegation r context d)
empty_answer (voting_protocol_config contract id) = some (proposal_config at_first id)

-- The chain at the block before the proposal, which is the only one that an input opens as.
abbrev snapshot_env : Env
snapshot_env = record env { answer = empty_answer }

abbrev snapshot_wire : Wire
snapshot_wire = record wire { into_env = λ view. some snapshot_env }

abbrev opening : Reach honest_chain at_first
opening = record {
  this = plugin;
  zeros = settings;
  settings = settings;
  first = at_first;
  initialized = initialises;
  runs = here;
}

history : IsHistory snapshot_wire honest_chain plugin block 1
history = record {
  before = λ view g opens digest. record {
    earlier = at_first;
    same = refl;
    reach = opening;
    unused = tt;
    answer = rw (← some-injective _ _ opens) refl;
  };
}

creates_honest : create honest_chain block request at_first ≡ done at_create
unfolding create
creates_honest = creates

no_proof :
    (verifier image_id : Bytes)
    → IsVotingVerifier strict snapshot_wire honest_chain verifier image_id
no_proof verifier image_id = record { ran = λ journal_data seal h. cc h }

vote_never_example : vote honest_chain at_create (encode journal) [] ≢ done at_vote
vote_never_example =
    vote_never strict snapshot_wire honest_chain block request at_first at_create at_create at_vote
      here (encode journal) [] journal creates_honest tt history refl (no_proof _ _) refl refl

abbrev later : Runs chain at_create at_execute
later =
    next (next here (voted (encode journal) [] votes)) (executed block (encode journal) [] executes)

abbrev view : ProposalView
view = record {
  is_open = false;
  executed = true;
  parameters = (at_execute.proposals 1).parameters;
  tally = (at_execute.proposals 1).tally;
  actions = (at_execute.proposals 1).actions;
  allow_failure_map = (at_execute.proposals 1).allow_failure_map;
}

shows : get_proposal block at_execute 1 ≡ done view
unfolding get_proposal is_proposal_open to_u64 stored
shows = refl

create-get_proposal_example :
    IsSetBy settings block view.parameters × (proposal_config at_execute 1 ≡ "{}")
create-get_proposal_example =
    create-get_proposal chain block block request at_first at_create at_execute view later creates
      tt shows
