-- ===== src/Host/ExecutionPublisher.antt =====
-- apps/src/bin/execution_publisher.rs: the preflight of an execution, its proof and its transaction.
pub mod Order
pub mod Sent
pub mod Nothing
use aragon_zk_governance.Common.{
  ℕ, String, Option, none, some, List, [], ◌∷◌, ◌++◌, ◌==◌, if◌then◌else◌,
}
use aragon_zk_governance.Outcome.{Outcome, ok, err, panic, unwrapped, or_err, assert}
use aragon_zk_governance.U256.{◌⊕◌}
use aragon_zk_governance.Config.{Address, Asset, Tally}
use aragon_zk_governance.Steel.{Env, Call}
use aragon_zk_governance.Crates.{Crates}
use aragon_zk_governance.Stdin.{Wire}
use aragon_zk_governance.Host.Preflight.{Preflight, lift, pure, ◌>>=◌, ◌>>◌}
use aragon_zk_governance.Host.Context.{
  HostContext, default_context, process_total_supply, process_execution_strategy,
}
use aragon_zk_governance.Host.Node.{
  Node, Run, then_run, execution_protocol_elf, execute, open_env, publish,
}
use aragon_zk_governance.Host.Publisher.{fetch_config}

-- The arguments, but for the private key, which only the wallet uses.
pub record Args : Type 0 where
  pub chain_id : ℕ
  pub rpc_url : String
  pub block_number : Option ℕ
  pub dao_address : Address
  pub proposal_id : ℕ
  pub config_contract : Address
  pub tally : List ℕ
  pub testing : ℕ

-- `args.tally.try_into().expect(..)` for `[U256; 3]`.
unfoldable pub tally_of : List ℕ → Outcome Tally
tally_of (yes_votes ∷ no_votes ∷ abstain_votes ∷ []) =
    ok (record { yes_votes = yes_votes; no_votes = no_votes; abstain_votes = abstain_votes })
tally_of _ = panic (unwrapped "Expected tally input to be an array of 3")

-- The `for` loop over the assets.
unfoldable pub sum_supplies : HostContext → ℕ → List Asset → Preflight ℕ
sum_supplies c total_voting_power [] = pure total_voting_power
sum_supplies c total_voting_power (asset ∷ assets) = do
  supply ← process_total_supply c asset
  sum_supplies c (total_voting_power ⊕ supply) assets

module _ (ext : Crates) where
  -- From the configuration to the `assert!`.
  unfoldable pub preflight_execution : Args → Tally → Env → Preflight (Unit {0})
  preflight_execution args tally env = do
    config ← fetch_config ext env args.config_contract args.proposal_id
    let c = default_context ext env
    total_voting_power ← sum_supplies c 0 config.assets
    passes ← process_execution_strategy c config.execution_strategy total_voting_power tally
    lift (assert passes "process_execution_strategy")

  module _ (wire : Wire) (node : Node wire) where
    -- What is written for the guest, in this order.
    unfoldable pub write_input : Args → Tally → wire.Input → List wire.Word
    write_input args tally view_call_input =
        wire.input.write view_call_input
        ++ (wire.address.write args.dao_address
            ++ (wire.u256.write args.proposal_id
                ++ (wire.address.write args.config_contract ++ wire.tally.write tally)))

    -- From `env.into_input()` on.
    unfoldable pub prove_and_send : Args → Tally → Env → List Call → Run
    unfolding write_input
    prove_and_send args tally env log =
        then_run (or_err (node.into_input env log) "into_input") λ view_call_input.
          publish wire node execution_protocol_elf (write_input args tally view_call_input)
            (execute args.config_contract)

    unfoldable pub main : Args → Run
    main args = then_run (tally_of args.tally) λ tally.
        then_run (open_env wire node args.rpc_url args.block_number) λ env.
          let (checked, log) = preflight_execution args tally env [] in
          then_run checked
            λ _. if args.testing == 1 then (ok tt, []) else prove_and_send args tally env log
