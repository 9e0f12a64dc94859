-- ===== src/Tests/PluginSetup.antt =====
-- The installation of the plugin of the small chain.
use aragon_zk_governance.Common.{◌≡◌, refl, some, [], Bool, bytes_eq}
use aragon_zk_governance.Config.{Address}
use aragon_zk_governance.Plugin.{
  done, VotingSettings, Plugin, Permission, create_proposal, update_voting_settings, Externals,
}
use aragon_zk_governance.Plugin.Settings.{Request}
use aragon_zk_governance.PluginSetup.{
  PreparedSetupData, Deployment, proposal_creator, installed_permissions, prepare_installation,
}
use aragon_zk_governance.PluginSetup.Installed.{IsInstalled, prepare_installation-IsInstalled}
use aragon_zk_governance.Tests.World.{dao, plugin}
use aragon_zk_governance.Tests.Chain.{chain, settings, request, at_first, initialises}

abbrev deployment : Deployment
deployment = record { decode_settings = λ bytes. some settings; proxy = plugin; zeros = settings }

abbrev prepared : PreparedSetupData
prepared = record { helpers = []; permissions = installed_permissions dao plugin }

installs : prepare_installation deployment dao [] ≡ done (at_first, prepared)
unfolding prepare_installation
installs = rw initialises refl

prepare_installation-IsInstalled_example : IsInstalled dao at_first prepared
prepare_installation-IsInstalled_example =
    prepare_installation-IsInstalled deployment dao [] at_first prepared installs

-- The DAO may update the settings, and the fixed account may create proposals.
abbrev may : Address → Permission → Bool
may who update_voting_settings = bytes_eq who dao
may who create_proposal = bytes_eq who proposal_creator

abbrev managed : Externals
managed = record chain { has_permission = may }

abbrev strict : VotingSettings
strict = record settings { support_threshold = 700000 }

abbrev from_creator : Request
from_creator = record request { sender = proposal_creator }
