-- ===== src/Tests/Backed.antt =====
-- Alice's vote from its run to the plugin, both ways.
use aragon_zk_governance.Common.{◌≡◌, refl, ap, [], bytes_eq, bytes_eq_iff}
use aragon_zk_governance.Config.{Bytes}
use aragon_zk_governance.Host.Publisher.{write_input}
use aragon_zk_governance.Plugin.{done, vote_yes, Externals}
use aragon_zk_governance.Plugin.Vote.{vote, check_proof}
use aragon_zk_governance.Plugin.Vote.Backed.{IsVotingVerifier, IsBacked, vote-IsBacked}
use aragon_zk_governance.Plugin.Settings.{stored, create}
use aragon_zk_governance.Plugin.Reach.{Reach, created, voted, here, next}
use aragon_zk_governance.Plugin.Reach.Backed.{IsRun, Reach-IsRun}
use aragon_zk_governance.Tests.World.{alice, plugin, env, ext}
use aragon_zk_governance.Tests.Format.{wire}
use aragon_zk_governance.Tests.Prover.{node, encode, decode}
use aragon_zk_governance.Tests.Publisher.{vote_args, journal, votes_run}
use aragon_zk_governance.Tests.Chain.{
  chain, settings, block, request, at_first, at_create, at_vote, initialises, creates, casts,
}

-- A verifier of the one run.
abbrev backed_chain : Externals
backed_chain = record chain {
  verify = λ verifier seal image_id digest. bytes_eq digest (encode journal);
}

backed_chain-IsVotingVerifier :
    (verifier image_id : Bytes) → IsVotingVerifier ext wire backed_chain verifier image_id
backed_chain-IsVotingVerifier verifier image_id = record {
  ran = λ journal_data seal h. (
    write_input ext wire node vote_args env,
    journal,
    votes_run,
    ap (λ (b : Bytes). decode b) ((bytes_eq_iff journal_data (encode journal)).0 h),
  );
}

accepts : vote backed_chain at_create (encode journal) [] ≡ done at_vote
unfolding vote check_proof stored
accepts = rw casts refl

vote-IsBacked_example : IsBacked ext wire backed_chain at_create at_vote
vote-IsBacked_example =
    vote-IsBacked ext wire backed_chain at_create at_vote (encode journal) []
      (λ id.
        backed_chain-IsVotingVerifier (at_create.proposals id).parameters.verifier
          (at_create.proposals id).parameters.voting_protocol_image_id)
      accepts

creates_backed : create backed_chain block request at_first ≡ done at_create
unfolding create
creates_backed = creates

abbrev voting : Reach backed_chain at_vote
voting = record {
  this = plugin;
  zeros = settings;
  settings = settings;
  first = at_first;
  initialized = initialises;
  runs =
      next (next here (created block request creates_backed)) (voted (encode journal) [] accepts);
}

Reach-IsRun_example : IsRun ext wire backed_chain 1 plugin alice vote_yes
Reach-IsRun_example =
    Reach-IsRun ext wire backed_chain at_vote voting 1 alice
      (
        (λ id.
            backed_chain-IsVotingVerifier (at_create.proposals id).parameters.verifier
              (at_create.proposals id).parameters.voting_protocol_image_id),
        tt,
      )
      (λ e. cc e)
