-- ===== src/Server/Delivered.antt =====
-- From a payload of the server's route for proofs to the transaction of the publisher.
use aragon_zk_governance.Common.{◌≡◌, some, String, Option, List}
use aragon_zk_governance.Outcome.{ok}
use aragon_zk_governance.Crates.{Crates}
use aragon_zk_governance.Host.Node.{Node}
use aragon_zk_governance.Host.Publisher.{Args}
use aragon_zk_governance.Host.Publisher.Cli.{FromStr}
use aragon_zk_governance.Server.{VotingParams, Command, Output, Machine, publisher_command}
use aragon_zk_governance.Server.Publisher.{IsClap}
use aragon_zk_governance.Server.Started.{IsDecimal, IsReadAs}

-- A payload that the server can start the publisher with, and that is read as some arguments.
pub record IsStarted (machine : Machine) (from_str : FromStr)
    (value_of : List String → String → Option String) (payload : VotingParams) (command : Command)
    (args : Args) : Type 0 where
  pub clap : IsClap value_of
  pub decimal : IsDecimal from_str
  pub built : publisher_command machine payload ≡ ok command
  pub output : Output
  pub starts : machine.output command ≡ some output
  pub reads : IsReadAs machine from_str payload args
