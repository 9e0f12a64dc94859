-- ===== src/Host/Publisher.antt =====
-- apps/src/bin/publisher.rs: the preflight of a vote, its proof and its transaction.
pub mod Sent
pub mod Unregistered
pub mod Delivered
pub mod Stdin
pub mod Cli
use aragon_zk_governance.Common.{
  ℕ, String, Option, none, some, List, [], ◌∷◌, ◌++◌, ◌==◌, if◌then◌else◌,
}
use aragon_zk_governance.Outcome.{Outcome, ok, err, panic, unwrap, or_err, assert, external}
use aragon_zk_governance.U256.{◌⊕◌, divide}
use aragon_zk_governance.Config.{Address, Bytes, Asset, Delegation, RiscVotingProtocolConfig}
use aragon_zk_governance.Steel.{Env, Call, voting_protocol_config}
use aragon_zk_governance.Crates.{Crates}
use aragon_zk_governance.Stdin.{Wire}
use aragon_zk_governance.Host.Preflight.{Preflight, try_call, lift, pure, settled, ◌>>=◌, ◌>>◌}
use aragon_zk_governance.Host.Context.{
  HostContext, default_context, process_voting_power_strategy, process_delegation_strategy,
}
use aragon_zk_governance.Host.Node.{
  Node, Run, then_run, voting_protocol_elf, vote, open_env, publish,
}

-- The arguments, but for the private key, which only the wallet uses.
pub record Args : Type 0 where
  pub chain_id : ℕ
  pub rpc_url : String
  pub block_number : Option ℕ
  pub voter_signature : String
  pub voter : Address
  pub dao_address : Address
  pub proposal_id : ℕ
  pub direction : ℕ
  pub balance : ℕ
  pub config_contract : Address
  pub token : Address
  pub additional_delegation_data : String
  pub testing : ℕ

-- The inner `for` loop.
unfoldable pub sum_delegations : HostContext → Asset → ℕ → List Delegation → Preflight ℕ
sum_delegations c asset asset_voting_power [] = pure asset_voting_power
sum_delegations c asset asset_voting_power (d ∷ ds) = do
  power ← process_voting_power_strategy c asset.voting_power_strategy d.delegate asset
  share ← lift (divide power d.ratio)
  sum_delegations c asset (asset_voting_power ⊕ share) ds

module _ (ext : Crates) where
  -- The body of the outer `for` loop.
  unfoldable pub asset_power : HostContext → Address → String → Asset → Preflight ℕ
  asset_power c voter additional_delegation_data asset = do
    additional_data ←
        lift (unwrap (ext.bytes_from_str additional_delegation_data) "Bytes::from_str")
    delegations ← settled (process_delegation_strategy c voter asset additional_data)
    sum_delegations c asset 0 delegations

  unfoldable pub sum_assets : HostContext → Address → String → ℕ → List Asset → Preflight ℕ
  sum_assets c voter additional_delegation_data total_voting_power [] = pure total_voting_power
  sum_assets c voter additional_delegation_data total_voting_power (asset ∷ assets) = do
    power ← asset_power c voter additional_delegation_data asset
    sum_assets c voter additional_delegation_data (total_voting_power ⊕ power) assets

  -- The configuration, by the first preflight call.
  unfoldable pub fetch_config : Env → Address → ℕ → Preflight RiscVotingProtocolConfig
  fetch_config env config_contract proposal_id = do
    text ← try_call env (voting_protocol_config config_contract proposal_id)
    lift (unwrap (ext.config_from_str text) "serde_json::from_str")

  -- From the configuration to the test of the balance.
  unfoldable pub preflight_vote : Args → Env → Preflight (Unit {0})
  preflight_vote args env = do
    config ← fetch_config env args.config_contract args.proposal_id
    let c = default_context ext env
    total ← sum_assets c args.voter args.additional_delegation_data 0 config.assets
    lift (assert (total == args.balance) "total_voting_power == args.balance")

  module _ (wire : Wire) (node : Node wire) where
    -- What is written for the guest, in this order.
    unfoldable pub write_input : Args → wire.Input → List wire.Word
    write_input args view_call_input =
        wire.input.write view_call_input
        ++ (wire.string.write args.voter_signature
            ++ (wire.address.write args.voter
                ++ (wire.address.write args.dao_address
                    ++ (wire.u256.write args.proposal_id
                        ++ (wire.u8.write args.direction
                            ++ (wire.u256.write args.balance
                                ++ (wire.address.write args.config_contract
                                    ++ wire.string.write args.additional_delegation_data)))))))

    -- From `env.into_input()` on.
    unfoldable pub prove_and_send : Args → Env → List Call → Run
    unfolding write_input
    prove_and_send args env log =
        then_run (or_err (node.into_input env log) "into_input") λ view_call_input.
          publish wire node voting_protocol_elf (write_input args view_call_input)
            (vote args.config_contract)

    unfoldable pub main : Args → Run
    main args = then_run (open_env wire node args.rpc_url args.block_number) λ env.
        let (checked, log) = preflight_vote args env [] in
        then_run checked λ _. if args.testing == 1 then (ok tt, []) else prove_and_send args env log
