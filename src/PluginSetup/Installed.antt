-- ===== src/PluginSetup/Installed.antt =====
-- What is prepared for the installation, beside an update and the uninstallation.
use aragon_zk_governance.Common.{
  ℕ, ◌<◌, ◌≡◌, ◌≢◌, ◌↔◌, ◌⊎◌, inl, inr, refl, sym, ap, ◌∙◌, List, [], ◌∷◌, ltb, Bool-cases, arith,
  ltb→lt,
}
use aragon_zk_governance.Config.{Address, Bytes}
use aragon_zk_governance.Plugin.{
  done, revert, undecodable, wrong_helpers_array_length, expect, VotingSettings, Plugin, Externals,
}
use aragon_zk_governance.Plugin.Reverts.{>>=-eq-done, done-injective}
use aragon_zk_governance.Plugin.Settings.{initialize}
use aragon_zk_governance.Plugin.Reach.{Reach, here, new_storage}
use aragon_zk_governance.PluginSetup.{
  Operation, grant, revoke, PermissionId, create_proposal_id, upgrade_plugin_id,
  MultiTargetPermission, PreparedSetupData, Deployment, installed_permissions,
  uninstalled_permissions, prepare_installation, prepare_update, prepare_uninstallation,
}

-- The entry is in the list.
abbrev pub Lists : MultiTargetPermission → List MultiTargetPermission → Type 0
Lists m [] = ⊥
Lists m (n ∷ ns) = (m ≡ n) ⊎ Lists m ns

abbrev pub entry : Operation → Address → Address → PermissionId → MultiTargetPermission
entry operation target who id = record {
  operation = operation;
  target = target;
  who = who;
  permission_id = id;
}

-- The installed plugin is as it is at the start of any use. An update from a build before 3 revokes
-- just the DAO's permission to upgrade the plugin, which no installation grants. The uninstallation
-- reverts with the helpers that were prepared; with one helper it revokes just the permissions that
-- the installation grants, but for the one to create proposals.
pub record IsInstalled (dao : Address) (plugin : Plugin) (prepared : PreparedSetupData)
    : Type 0 where
  pub starts : (ext : Externals) → Reach ext plugin
  pub updated :
      (from_build : ℕ) (helpers : List Address) (target who : Address) (id : PermissionId)
      → Lists
          (entry revoke target who id)
          (prepare_update dao from_build
            (record { plugin = plugin.this; current_helpers = helpers })).permissions
        ↔ ((from_build < 3) × (target ≡ plugin.this) × (who ≡ dao) × (id ≡ upgrade_plugin_id))
  pub no_upgrade :
      (target who : Address)
      → ¬ Lists (entry grant target who upgrade_plugin_id) prepared.permissions
  pub stays :
      prepare_uninstallation dao
        (record { plugin = plugin.this; current_helpers = prepared.helpers })
      ≡ revert (wrong_helpers_array_length 0)
  pub revoked :
      (helper : Address)
      → (revoked : List MultiTargetPermission) × (prepare_uninstallation dao
            (record { plugin = plugin.this; current_helpers = helper ∷ [] })
          ≡ done revoked)
        × ((target who : Address) (id : PermissionId)
            → Lists (entry revoke target who id) revoked ↔ (
                Lists (entry grant target who id) prepared.permissions × (id ≢ create_proposal_id)))

pub prepare_installation-eq-done :
    (deployment : Deployment) (dao : Address) (installation_data : Bytes) {plugin : Plugin}
    {prepared : PreparedSetupData}
    → prepare_installation deployment dao installation_data ≡ done (plugin, prepared)
    → (settings : VotingSettings) × (initialize settings
          (new_storage deployment.proxy deployment.zeros)
        ≡ done plugin)
      × (record { helpers = []; permissions = installed_permissions dao plugin.this } ≡ prepared)
unfolding prepare_installation
prepare_installation-eq-done deployment dao installation_data h =
    let (settings, _, h) =
      >>=-eq-done (expect (deployment.decode_settings installation_data) undecodable) _ h in
    let (made, initialized, h) =
      >>=-eq-done (initialize settings (new_storage deployment.proxy deployment.zeros)) _ h in
    let same : made ≡ _ = ap (λ (x : Plugin × PreparedSetupData). x.0) (done-injective h) in
    (
      settings,
      initialized ∙ ap (λ (x : Plugin). done x) same,
      rw (← same) (ap (λ (x : Plugin × PreparedSetupData). x.1) (done-injective h)),
    )

abbrev regranted : MultiTargetPermission → MultiTargetPermission
regranted m = record m { operation = grant }

abbrev unrevoked : MultiTargetPermission → MultiTargetPermission
unrevoked m = record m { operation = revoke }

abbrev target_of : MultiTargetPermission → Address
target_of m = m.target

abbrev who_of : MultiTargetPermission → Address
who_of m = m.who

abbrev id_of : MultiTargetPermission → PermissionId
id_of m = m.permission_id

module _ (dao plugin target who : Address) where
  no_upgrade_lem :
      ¬ Lists (entry grant target who upgrade_plugin_id) (installed_permissions dao plugin)
  no_upgrade_lem (inl e) = cc (ap id_of e)
  no_upgrade_lem (inr (inl e)) = cc (ap id_of e)
  no_upgrade_lem (inr (inr (inl e))) = cc (ap id_of e)
  no_upgrade_lem (inr (inr (inr l))) = l

  abbrev Revokes : PermissionId → List MultiTargetPermission → Type 0
  Revokes id l = Lists (entry revoke target who id) l

  abbrev Grants : PermissionId → List MultiTargetPermission → Type 0
  Grants id l = Lists (entry grant target who id) l

  update_one :
      (id : PermissionId)
      → Revokes id (entry revoke plugin dao upgrade_plugin_id ∷ [])
      → (target ≡ plugin) × (who ≡ dao) × (id ≡ upgrade_plugin_id)
  update_one id (inl e) = (ap target_of e, ap who_of e, ap id_of e)
  update_one id (inr l) = absurd l

  prepare_update-Lists :
      (from_build : ℕ) (helpers : List Address) (id : PermissionId)
      → Lists
          (entry revoke target who id)
          (prepare_update dao from_build
            (record { plugin = plugin; current_helpers = helpers })).permissions
        ↔ ((from_build < 3) × (target ≡ plugin) × (who ≡ dao) × (id ≡ upgrade_plugin_id))
  unfolding prepare_update
  prepare_update-Lists from_build helpers id = elim (Bool-cases (ltb from_build 3)) [
    | inl before ↦ rw before (
      λ l. let (t, w, i) = update_one id l in (ltb→lt _ _ before, t, w, i),
      λ (_, t, w, i). inl (rw (t, w, i) refl),
    )
    | inr from ↦ rw from ((λ l. absurd l), λ (small, _, _, _). absurd (ground (arith, from, small)))
  ]

  granted_before :
      (id : PermissionId)
      → Revokes id (uninstalled_permissions dao plugin)
      → Grants id (installed_permissions dao plugin) × (id ≢ create_proposal_id)
  granted_before id (inl e) = (inl (ap regranted e), λ i. cc (sym i ∙ ap id_of e))
  granted_before id (inr (inl e)) = (inr (inl (ap regranted e)), λ i. cc (sym i ∙ ap id_of e))
  granted_before id (inr (inr l)) = absurd l

  revoked_after :
      (id : PermissionId)
      → Grants id (installed_permissions dao plugin)
      → id ≢ create_proposal_id
      → Revokes id (uninstalled_permissions dao plugin)
  revoked_after id (inl e) other = inl (ap unrevoked e)
  revoked_after id (inr (inl e)) other = inr (inl (ap unrevoked e))
  revoked_after id (inr (inr (inl e))) other = absurd (other (ap id_of e))
  revoked_after id (inr (inr (inr l))) other = absurd l

-- After an installation the plugin is as at the start of any use. An update from a build before 3
-- revokes just the DAO's permission to upgrade the plugin, and one from a later build revokes
-- nothing; the installation does not grant that permission to anyone. The uninstallation with the
-- prepared helpers reverts, for there are none; with one helper it revokes just the permissions that
-- the installation grants, but for the one to create proposals, which stays.
pub prepare_installation-IsInstalled :
    (deployment : Deployment) (dao : Address) (installation_data : Bytes) (plugin : Plugin)
    (prepared : PreparedSetupData)
    → prepare_installation deployment dao installation_data ≡ done (plugin, prepared)
    → IsInstalled dao plugin prepared
unfolding prepare_uninstallation
prepare_installation-IsInstalled deployment dao installation_data plugin prepared h =
    let (settings, initialized, same) =
      prepare_installation-eq-done deployment dao installation_data h in
    rw (← same) (record {
      starts = λ ext. record {
        this = deployment.proxy;
        zeros = deployment.zeros;
        settings = settings;
        first = plugin;
        initialized = initialized;
        runs = here;
      };
      updated = λ from_build helpers target who id.
          prepare_update-Lists dao plugin.this target who from_build helpers id;
      no_upgrade = no_upgrade_lem dao plugin.this;
      stays = refl;
      revoked = λ helper. (
        uninstalled_permissions dao plugin.this,
        refl,
        λ target who id. (
          granted_before dao plugin.this target who id,
          λ (l, other). revoked_after dao plugin.this target who id l other,
        ),
      );
    })
