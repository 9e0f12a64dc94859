-- ===== src/Host/Publisher/Unregistered.antt =====
-- publisher.rs on delegation data that names an account without entries in the registry.
use aragon_zk_governance.Common.{ℕ, ◌≡◌, ◌≢◌, String, some, List, [], ◌∷◌, ◌++◌}
use aragon_zk_governance.Outcome.{ok}
use aragon_zk_governance.U256.{◌⊕◌}
use aragon_zk_governance.Config.{Address, Bytes, Asset, RiscVotingProtocolConfig}
use aragon_zk_governance.Steel.{Env, DelegationReturn, get_delegation, voting_protocol_config}
use aragon_zk_governance.Crates.{Crates}
use aragon_zk_governance.Guest.Delegation.{addresses}
use aragon_zk_governance.Stdin.{Wire}
use aragon_zk_governance.Host.Preflight.{settled, try_call}
use aragon_zk_governance.Host.Context.{default_context, process_delegation_strategy}
use aragon_zk_governance.Host.Delegation.Registry.{
  Fails, Fails-first, Fails-later, settled-Fails, process_delegation_strategy-Fails,
}
use aragon_zk_governance.Host.Node.{Node, open_env}
use aragon_zk_governance.Host.Node.Sent.{then_run-fails}
use aragon_zk_governance.Host.Publisher.{
  Args, asset_power, sum_assets, fetch_config, preflight_vote, main,
}

-- Some asset of the proposal's configuration, under `SplitDelegation`, has a registry without
-- entries for an address that the delegation data names.
pub record IsUnregistered (ext : Crates) (env : Env) (args : Args) : Type 0 where
  pub text : String
  pub config : RiscVotingProtocolConfig
  pub configured :
      env.answer (voting_protocol_config args.config_contract args.proposal_id) ≡ some text
  pub parsed : ext.config_from_str text ≡ some config
  pub assets_before : List Asset
  pub assets_after : List Asset
  pub asset : Asset
  pub assets : config.assets ≡ assets_before ++ asset ∷ assets_after
  pub split : asset.delegation.strategy ≡ "SplitDelegation"
  pub bytes : Bytes
  pub hex : ext.bytes_from_str args.additional_delegation_data ≡ some bytes
  pub before : List Address
  pub after : List Address
  pub delegate : Address
  pub named : addresses bytes ≡ before ++ delegate ∷ after
  pub answer : DelegationReturn
  pub asked :
      env.answer
        (get_delegation asset.delegation.contract (ext.address_to_string asset.contract) delegate)
      ≡ some answer
  pub nil : answer.delegations ≡ []

module _ (ext : Crates) (env : Env) (args : Args) (u : IsUnregistered ext env args) where
  asset_power-Fails :
      Fails (
        asset_power ext
          (default_context ext env)
          args.voter
          args.additional_delegation_data
          u.asset)
  unfolding asset_power
  asset_power-Fails log a h =
      Fails-first
        (settled (process_delegation_strategy (default_context ext env) args.voter u.asset u.bytes))
        _
        (settled-Fails
          (process_delegation_strategy (default_context ext env) args.voter u.asset u.bytes)
          (process_delegation_strategy-Fails ext env args.voter u.delegate u.asset u.answer u.asked
            u.nil u.bytes u.before u.after u.split u.named))
        log a (rw u.hex at h)

  sum_assets-Fails :
      (before after : List Asset) (total : ℕ)
      → Fails (
          sum_assets ext
            (default_context ext env)
            args.voter
            args.additional_delegation_data
            total
            (before ++ u.asset ∷ after))
  unfolding sum_assets
  sum_assets-Fails [] after total =
      Fails-first
        (asset_power ext (default_context ext env) args.voter args.additional_delegation_data
          u.asset)
        _ asset_power-Fails
  sum_assets-Fails (b ∷ before) after total =
      Fails-later
        (asset_power ext (default_context ext env) args.voter args.additional_delegation_data b) _
        λ power. sum_assets-Fails before after (total ⊕ power)

  preflight_vote-Fails : Fails (preflight_vote ext args env)
  unfolding preflight_vote fetch_config try_call
  preflight_vote-Fails log a h =
      Fails-first
        (sum_assets ext (default_context ext env) args.voter args.additional_delegation_data 0
          (u.assets_before ++ u.asset ∷ u.assets_after))
        _ (sum_assets-Fails u.assets_before u.assets_after 0) _ a
        (rw (u.configured, u.parsed, u.assets) at h)

  -- A registry that has no entries for an address of the delegation data, for some asset under
  -- `SplitDelegation` in any place of the configuration, stops the publisher: it does not end well,
  -- and it sends nothing, whoever votes and whatever the other addresses are.
  pub main-unregistered :
      (wire : Wire) (node : Node wire)
      → open_env wire node args.rpc_url args.block_number ≡ ok env
      → ((main ext wire node args).0 ≢ ok tt) × ((main ext wire node args).1 ≡ [])
  unfolding main
  main-unregistered wire node opened =
      rw opened (then_run-fails (preflight_vote ext args env []).0 _ (preflight_vote-Fails [] tt))
