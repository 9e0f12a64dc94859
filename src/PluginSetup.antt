-- ===== src/PluginSetup.antt =====
-- contracts/RiscVotingProtocolPluginSetup.sol: what is prepared for the installation, an update and
-- the uninstallation of the plugin. Aragon OSx deploys, applies the permissions and keeps the helpers.
pub mod Installed
pub mod Used
use aragon_zk_governance.Common.{
  ℕ, Option, List, [], ◌∷◌, Bool, true, false, ◌&&◌, ltb, ◌==◌, bytes_eq, length, if◌then◌else◌,
}
use aragon_zk_governance.Config.{Address, Bytes}
use aragon_zk_governance.Plugin.{
  Tx, done, revert, undecodable, wrong_helpers_array_length, ◌>>=◌, ◌>>◌, require, expect,
  VotingSettings, Plugin,
}
use aragon_zk_governance.Plugin.Settings.{initialize}
use aragon_zk_governance.Plugin.Reach.{new_storage}

-- `PermissionLib`
pub data Operation : Type 0 where
  grant revoke : Operation

pub data PermissionId : Type 0 where
  update_voting_settings_id execute_id create_proposal_id upgrade_plugin_id : PermissionId

pub record MultiTargetPermission : Type 0 where
  pub operation : Operation
  pub target : Address
  pub who : Address
  pub permission_id : PermissionId

pub record PreparedSetupData : Type 0 where
  pub helpers : List Address
  pub permissions : List MultiTargetPermission

pub record SetupPayload : Type 0 where
  pub plugin : Address
  pub current_helpers : List Address

-- What the installation takes from outside: ABI decoding, the address of the new proxy, and storage
-- that is all zeros.
pub record Deployment : Type 0 where
  pub decode_settings : Bytes → Option VotingSettings
  pub proxy : Address
  pub zeros : VotingSettings

-- 0x8bF1e340055c7dE62F11229A149d3A1918de3d74
abbrev pub proposal_creator : Address
proposal_creator =
    0x8b ∷ 0xf1 ∷ 0xe3 ∷ 0x40 ∷ 0x05 ∷ 0x5c ∷ 0x7d ∷ 0xe6 ∷ 0x2f ∷ 0x11 ∷ 0x22 ∷ 0x9a ∷ 0x14 ∷ 0x9d
    ∷ 0x3a ∷ 0x19 ∷ 0x18 ∷ 0xde ∷ 0x3d ∷ 0x74 ∷ []

abbrev pub installed_permissions : Address → Address → List MultiTargetPermission
installed_permissions dao plugin =
    (record {
      operation = grant;
      target = plugin;
      who = dao;
      permission_id = update_voting_settings_id;
    })
    ∷ (record { operation = grant; target = dao; who = plugin; permission_id = execute_id })
    ∷ (record {
      operation = grant;
      target = plugin;
      who = proposal_creator;
      permission_id = create_proposal_id;
    })
    ∷ []

abbrev pub uninstalled_permissions : Address → Address → List MultiTargetPermission
uninstalled_permissions dao plugin =
    (record {
      operation = revoke;
      target = plugin;
      who = dao;
      permission_id = update_voting_settings_id;
    })
    ∷ (record { operation = revoke; target = dao; who = plugin; permission_id = execute_id })
    ∷ []

-- The new plugin beside what is returned. The proxy's constructor calls `initialize`.
unfoldable pub prepare_installation : Deployment → Address → Bytes → Tx (Plugin × PreparedSetupData)
prepare_installation deployment dao installation_data = do
  voting_settings ← expect (deployment.decode_settings installation_data) undecodable
  plugin ← initialize voting_settings (new_storage deployment.proxy deployment.zeros)
  done (plugin, record { helpers = []; permissions = installed_permissions dao plugin.this })

unfoldable pub prepare_update : Address → ℕ → SetupPayload → PreparedSetupData
prepare_update dao from_build payload = record {
  helpers = [];
  permissions =
      if ltb from_build 3
      then record {
        operation = revoke;
        target = payload.plugin;
        who = dao;
        permission_id = upgrade_plugin_id;
      }
        ∷ []
      else [];
}

unfoldable pub prepare_uninstallation : Address → SetupPayload → Tx (List MultiTargetPermission)
prepare_uninstallation dao payload = do
  let helper_length = length payload.current_helpers
  require (helper_length == 1) (wrong_helpers_array_length helper_length)
  done (uninstalled_permissions dao payload.plugin)
