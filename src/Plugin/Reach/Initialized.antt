-- ===== src/Plugin/Reach/Initialized.antt =====
-- `initialize` on a plugin that is in use.
use aragon_zk_governance.Common.{◌≡◌, refl, ap, ◌∙◌, Bool, true}
use aragon_zk_governance.Plugin.{revert, already_initialized, VotingSettings, Plugin, Externals}
use aragon_zk_governance.Plugin.Vote.Accepts.{vote_iff}
use aragon_zk_governance.Plugin.Execute.Accepts.{execute_iff}
use aragon_zk_governance.Plugin.Settings.{initialize}
use aragon_zk_governance.Plugin.Settings.Accepts.{
  update_settings_iff, update_voting_settings_tx_lem, create_lem,
}
use aragon_zk_governance.Plugin.Reach.{
  Step, voted, executed, created, updated, Runs, here, next, Reach, begun,
}

abbrev is_initialized_of : Plugin → Bool
is_initialized_of p = p.initialized

step-initialized : (ext : Externals) {p q : Plugin} → Step ext p q → q.initialized ≡ p.initialized
step-initialized ext {p} {q} (voted journal_data seal h) =
    ap is_initialized_of ((vote_iff ext p journal_data seal q).0 h).stored
step-initialized ext {p} {q} (executed block journal_data seal h) =
    ap is_initialized_of ((execute_iff ext block p journal_data seal q).0 h).stored
step-initialized ext {p} (created block r h) =
    ap is_initialized_of (create_lem ext block r p h).written
step-initialized ext {p} {q} (updated sender s h) =
    let (_, same) =
      (update_settings_iff s p q).0 (update_voting_settings_tx_lem ext sender s p h) in
    ap is_initialized_of same

Runs-initialized :
    (ext : Externals) {p q : Plugin} → Runs ext p q → p.initialized ≡ true → q.initialized ≡ true
Runs-initialized ext here h = h
Runs-initialized ext (next runs step) h = step-initialized ext step ∙ Runs-initialized ext runs h

-- Whatever is done with an initialised plugin, it cannot be initialised again: with any settings,
-- and whoever asks, `initialize` reverts.
pub Reach-initialize :
    (ext : Externals) (p : Plugin) (s : VotingSettings)
    → Reach ext p
    → initialize s p ≡ revert already_initialized
unfolding initialize
Reach-initialize ext p s reach =
    let (_, same) =
      (update_settings_iff reach.settings (begun reach.this reach.zeros) reach.first).0
        reach.initialized in
    rw (Runs-initialized ext reach.runs (ap is_initialized_of same)) refl
