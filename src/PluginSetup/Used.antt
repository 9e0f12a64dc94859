-- ===== src/PluginSetup/Used.antt =====
-- The use of an installed plugin, where Aragon OSx has applied what was prepared.
use aragon_zk_governance.Common.{◌+◌, ◌-◌, ◌≡◌, List, true}
use aragon_zk_governance.Config.{Address}
use aragon_zk_governance.Plugin.{
  Plugin, set_proposal, create_proposal, update_voting_settings, Block, Externals,
}
use aragon_zk_governance.Plugin.Settings.{Request, stored}
use aragon_zk_governance.PluginSetup.{
  grant, update_voting_settings_id, create_proposal_id, MultiTargetPermission,
}
use aragon_zk_governance.PluginSetup.Installed.{Lists, entry}

-- Aragon OSx, after what was prepared for the installation has been applied: what is granted on the
-- plugin is held.
pub record IsApplied (ext : Externals) (plugin : Address) (permissions : List MultiTargetPermission)
    : Type 0 where
  pub updates :
      (who : Address)
      → Lists (entry grant plugin who update_voting_settings_id) permissions
      → ext.has_permission who update_voting_settings ≡ true
  pub creates :
      (who : Address)
      → Lists (entry grant plugin who create_proposal_id) permissions
      → ext.has_permission who create_proposal ≡ true

-- The plugin after a proposal that starts now and lasts as short as it may.
abbrev created_now : Plugin → Block → Request → Plugin
created_now p block r = set_proposal p r.proposal_id (
    stored p.settings block (block.number - 1) block.timestamp
      (block.timestamp + p.settings.min_duration) r (p.proposals r.proposal_id))
