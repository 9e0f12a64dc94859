-- ===== src/Agreement/Accepted.antt =====
-- A preflight that passes, and the guest's run over what it recorded: for a vote (publisher.rs and
-- voting_protocol.rs).
use aragon_zk_governance.Common.{
  ℕ, ◌≤◌, ◌<◌, String, ◌≡◌, refl, ap, ◌∙◌, some, [], All, ◌==◌, arith,
}
use aragon_zk_governance.Outcome.{ok, assert}
use aragon_zk_governance.Config.{Address, RiscVotingProtocolConfig}
use aragon_zk_governance.Steel.{Env}
use aragon_zk_governance.Crates.{Crates}
use aragon_zk_governance.Stdin.{Wire}
use aragon_zk_governance.Agreement.{Agrees, Mirrors, continue-eq-ok}
use aragon_zk_governance.Agreement.VotingPower.{IsComparable}
use aragon_zk_governance.Agreement.Vote.{sum_assets-Mirrors, fetch_config-Mirrors}
use aragon_zk_governance.Host.Context as HostContext
use aragon_zk_governance.Host.Publisher.{Args, fetch_config, sum_assets, preflight_vote}
use aragon_zk_governance.Guest.Context as GuestContext
use aragon_zk_governance.Guest.Voting.{
  VotingInput, read_config, sum_voting_power, check_signature, prove_vote,
}
use aragon_zk_governance.Guest.Voting.Accepts.{prove_vote_iff}

-- What the publisher's arguments become for the guest.
abbrev pub vote_input : {Input : Type 0} → Args → Input → VotingInput Input
vote_input args view_call_input = record {
  input = view_call_input;
  signature = args.voter_signature;
  voter = args.voter;
  dao = args.dao_address;
  proposal_id = args.proposal_id;
  direction = args.direction;
  balance = args.balance;
  config_contract = args.config_contract;
  additional_delegation_data = args.additional_delegation_data;
}

-- No asset of the configuration that the host reads uses `GetPastVotes`.
abbrev pub IsComparableConfig : Crates → Env → Address → ℕ → Type 0
IsComparableConfig ext h contract proposal_id =
    (config : RiscVotingProtocolConfig)
    → (fetch_config ext h contract proposal_id []).0 ≡ ok config
    → All IsComparable config.assets

assert-eq-ok : (a b : ℕ) (what : String) → assert (a == b) what ≡ ok tt → a ≡ b
assert-eq-ok a b what e = ground arith

module _ (ext : Crates) (args : Args) (h g : Env) where
  -- Over what a passing preflight has recorded, the guest reads the same configuration and counts
  -- the balance.
  preflight_vote-counted :
      IsComparableConfig ext h args.config_contract args.proposal_id
      → (preflight_vote ext args h []).0 ≡ ok tt
      → Agrees g h (preflight_vote ext args h []).1
      → (config : RiscVotingProtocolConfig) × (read_config ext g args.config_contract
            args.proposal_id
          ≡ ok config)
        × (sum_voting_power ext
              (GuestContext.default_context ext g)
              args.voter
              args.additional_delegation_data
              0
              config.assets
            ≡ ok args.balance)
  unfolding preflight_vote
  preflight_vote-counted comparable passed agree =
      let m = fetch_config ext h args.config_contract args.proposal_id [] in
      let (config, e1, e2, same1) = continue-eq-ok _ m.0 m.1 passed in
      let n =
        sum_assets ext (HostContext.default_context ext h) args.voter
          args.additional_delegation_data 0 config.assets m.1 in
      let (total, e3, e4, same2) = continue-eq-ok _ n.0 n.1 e2 in
      let fits = comparable config e1 in
      let counts : Mirrors h g
          (sum_assets ext (HostContext.default_context ext h) args.voter
            args.additional_delegation_data 0 config.assets)
          (sum_voting_power ext (GuestContext.default_context ext g) args.voter
            args.additional_delegation_data 0 config.assets) =
        sum_assets-Mirrors ext args.voter args.additional_delegation_data 0 config.assets fits in
      let agree2 : Agrees g h n.1 = rw (same1 ∙ same2) at agree in
      let agree1 : Agrees g h m.1 = λ c r. agree2 c (counts.keeps m.1 c r) in
      (
        config,
        (fetch_config-Mirrors ext args.config_contract args.proposal_id).follows [] config e1
            agree1,
        counts.follows m.1 total e3 agree2 ∙ ap ok (assert-eq-ok total args.balance _ e4),
      )

  -- A vote whose preflight passes is accepted by the guest over what the preflight recorded, if its
  -- signature recovers to some address, its direction is 1, 2 or 3 and its balance is above 0, and
  -- no asset uses `GetPastVotes`; the journal then holds the vote of the arguments.
  pub preflight_vote-prove_vote :
      (wire : Wire) (view_call_input : wire.Input) (signer : Address)
      → IsComparableConfig ext h args.config_contract args.proposal_id
      → (preflight_vote ext args h []).0 ≡ ok tt
      → wire.into_env view_call_input ≡ some g
      → Agrees g h (preflight_vote ext args h []).1
      → check_signature ext (vote_input args view_call_input) ≡ ok signer
      → 1 ≤ args.direction
      → args.direction ≤ 3
      → 0 < args.balance
      → prove_vote ext wire (vote_input args view_call_input)
        ≡ ok (record {
          commitment = g.commitment;
          config_contract = args.config_contract;
          proposal_id = args.proposal_id;
          voter = args.voter;
          balance = args.balance;
          direction = args.direction;
        })
  preflight_vote-prove_vote wire view signer comparable passed opens agree recovers from to
        positive =
      let (config, configured, counted) = preflight_vote-counted comparable passed agree in
      (prove_vote_iff ext wire (vote_input args view) _).1 (record {
        signer = signer;
        env = g;
        config = config;
        recovers = recovers;
        opens = opens;
        configured = configured;
        counted = counted;
        direction_from = from;
        direction_to = to;
        not_empty = positive;
        journal = refl;
      })
