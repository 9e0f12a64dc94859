-- ===== src/Agreement/Execution.antt =====
-- The preflight of an execution (execution_publisher.rs) against the program of
-- execution_protocol.rs.
use aragon_zk_governance.Common.{
  ℕ, String, ◌≡◌, refl, ◌∙◌, Bool, true, some, List, [], ◌∷◌, All, arith, str_eq,
}
use aragon_zk_governance.Common.Dict.{lookup, insert}
use aragon_zk_governance.Outcome.{ok, assert}
use aragon_zk_governance.U256.{◌⊕◌}
use aragon_zk_governance.Config.{Asset, Tally}
use aragon_zk_governance.Steel.{Env}
use aragon_zk_governance.Crates.{Crates}
use aragon_zk_governance.Stdin.{Wire}
use aragon_zk_governance.Agreement.{
  Agrees, Mirrors, Mirrors-lift, Mirrors-err, Mirrors-bind, one_name-Mirrors, continue-eq-ok,
}
use aragon_zk_governance.Agreement.VotingPower.{IsComparable, process_total_supply-Mirrors}
use aragon_zk_governance.Agreement.Vote.{fetch_config-Mirrors}
use aragon_zk_governance.Agreement.Accepted.{IsComparableConfig}
use aragon_zk_governance.Host.Preflight.{lift}
use aragon_zk_governance.Host.Majority as HostMajority
use aragon_zk_governance.Host.Context as HostContext
use aragon_zk_governance.Host.Publisher.{fetch_config}
use aragon_zk_governance.Host.ExecutionPublisher.{Args, sum_supplies, preflight_execution}
use aragon_zk_governance.Guest.Majority as GuestMajority
use aragon_zk_governance.Guest.Context as GuestContext
use aragon_zk_governance.Guest.Context.{block_commitment-default_context}
use aragon_zk_governance.Guest.Execution.{ExecutionInput, sum_total_supply, prove_execution}

-- Host and guest let the same proposals pass.
pub proof_execution-same :
    (h g : Env) (supply : ℕ) (t : Tally)
    → HostMajority.proof_execution h supply t ≡ GuestMajority.proof_execution g supply t
unfolding HostMajority.proof_execution GuestMajority.proof_execution
proof_execution-same h g supply t = refl

module _ (ext : Crates) {h g : Env} where
  sum_supplies-Mirrors :
      (acc : ℕ) (assets : List Asset)
      → All IsComparable assets
      → Mirrors h g
          (sum_supplies (HostContext.default_context ext h) acc assets)
          (sum_total_supply (GuestContext.default_context ext g) acc assets)
  unfolding sum_supplies sum_total_supply
  sum_supplies-Mirrors acc [] comparable = Mirrors-lift _
  sum_supplies-Mirrors acc (asset ∷ assets) comparable =
      Mirrors-bind (process_total_supply-Mirrors ext h g asset comparable.0)
        λ supply. sum_supplies-Mirrors (acc ⊕ supply) assets comparable.1

  process_execution_strategy-Mirrors :
      (name : String) (supply : ℕ) (t : Tally)
      → Mirrors h g
          (HostContext.process_execution_strategy (HostContext.default_context ext h) name supply t)
          (GuestContext.process_execution_strategy
            (GuestContext.default_context ext g)
            name
            supply
            t)
  unfolding HostContext.process_execution_strategy HostContext.default_context
      GuestContext.process_execution_strategy GuestContext.default_context lookup insert
  process_execution_strategy-Mirrors name supply t =
      one_name-Mirrors (str_eq "MajorityVoting" name) HostMajority.majority_voting
        GuestMajority.majority_voting (λ s. lift (ok (s.proof_execution h supply t)))
        (λ s. ok (s.proof_execution g supply t)) (Mirrors-err _ _)
        (rw (proof_execution-same h g supply t) (Mirrors-lift _))

abbrev pub execution_input : {Input : Type 0} → Args → Tally → Input → ExecutionInput Input
execution_input args tally view_call_input = record {
  input = view_call_input;
  dao = args.dao_address;
  proposal_id = args.proposal_id;
  tally = tally;
  config_contract = args.config_contract;
}

assert-eq-ok : (b : Bool) (what : String) → assert b what ≡ ok tt → b ≡ true
assert-eq-ok b what e = ground arith

-- An execution whose preflight passes is accepted by the guest over what the preflight recorded, if
-- no asset uses `GetPastVotes` and the guest is given the arguments as they are.
pub preflight_execution-prove_execution :
    (ext : Crates) (wire : Wire) (args : Args) (tally : Tally) (h g : Env)
    (view_call_input : wire.Input)
    → IsComparableConfig ext h args.config_contract args.proposal_id
    → (preflight_execution ext args tally h []).0 ≡ ok tt
    → wire.into_env view_call_input ≡ some g
    → Agrees g h (preflight_execution ext args tally h []).1
    → prove_execution ext wire (execution_input args tally view_call_input)
      ≡ ok (record {
        commitment = g.commitment;
        config_contract = args.config_contract;
        proposal_id = args.proposal_id;
        tally = tally;
      })
unfolding preflight_execution prove_execution
preflight_execution-prove_execution ext wire args tally h g view comparable passed opens agree =
    let m = fetch_config ext h args.config_contract args.proposal_id [] in
    let (config, e1, e2, same1) = continue-eq-ok _ m.0 m.1 passed in
    let n = sum_supplies (HostContext.default_context ext h) 0 config.assets m.1 in
    let (total, e3, e4, same2) = continue-eq-ok _ n.0 n.1 e2 in
    let p =
      HostContext.process_execution_strategy (HostContext.default_context ext h)
        config.execution_strategy total tally n.1 in
    let (passes, e5, e6, same3) = continue-eq-ok _ p.0 p.1 e4 in
    let counts = sum_supplies-Mirrors ext {h = h} {g = g} 0 config.assets (comparable config e1) in
    let decides =
      process_execution_strategy-Mirrors ext {h = h} {g = g} config.execution_strategy total
        tally in
    let agree3 : Agrees g h p.1 = rw (same1 ∙ same2 ∙ same3) at agree in
    let agree2 : Agrees g h n.1 = λ c r. agree3 c (decides.keeps n.1 c r) in
    let agree1 : Agrees g h m.1 = λ c r. agree2 c (counts.keeps m.1 c r) in
    rw (
      opens,
      (fetch_config-Mirrors ext {h = h} {g = g} args.config_contract args.proposal_id).follows []
          config e1 agree1,
      counts.follows m.1 total e3 agree2,
      decides.follows n.1 passes e5 agree3,
      assert-eq-ok passes _ e6,
      block_commitment-default_context,
    )
