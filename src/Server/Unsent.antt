-- ===== src/Server/Unsent.antt =====
-- What the server answers where the publisher fails.
use aragon_zk_governance.Common.{◌<◌, ◌^◌, ◌≡◌, ◌≢◌, refl, String, Option, List, []}
use aragon_zk_governance.Outcome.{ok}
use aragon_zk_governance.Steel.{Env}
use aragon_zk_governance.Crates.{Crates}
use aragon_zk_governance.Stdin.{Wire}
use aragon_zk_governance.Host.Node.{Node, open_env}
use aragon_zk_governance.Host.Node.Sent.{then_run-fails}
use aragon_zk_governance.Host.Publisher.{Args, preflight_vote, main}
use aragon_zk_governance.Host.Publisher.Cli.{FromStr, run}
use aragon_zk_governance.Server.{VotingParams, Command, Machine, proof_vote}
use aragon_zk_governance.Server.Started.{child_var, publisher_command-parse_iff}
use aragon_zk_governance.Server.Delivered.{IsStarted}

-- Where the publisher starts and its preflight fails, it ends badly and sends nothing, but the server
-- answers the vote with success. (The direction is a `u8`, and the environment opens.)
pub proof_vote-unsent :
    (machine : Machine) (from_str : FromStr) (value_of : List String → String → Option String)
    (payload : VotingParams) (command : Command) (ext : Crates) (wire : Wire) (node : Node wire)
    (args : Args) (env : Env)
    → IsStarted machine from_str value_of payload command args
    → payload.direction < 2 ^ 8
    → open_env wire node args.rpc_url args.block_number ≡ ok env
    → (preflight_vote ext args env []).0 ≢ ok tt
    → (proof_vote machine payload ≡ ok tt)
      × ((run ext wire node from_str (value_of command.args) (child_var machine command)).0 ≢ ok tt)
      × ((run ext wire node from_str (value_of command.args) (child_var machine command)).1 ≡ [])
unfolding proof_vote main
proof_vote-unsent machine from_str value_of payload command ext wire node args env started small
      opened fails =
    let parsed =
      (publisher_command-parse_iff machine from_str value_of payload command args started.clap
          started.decimal small started.built).1
        started.reads in
    let (bad, nothing) = then_run-fails (preflight_vote ext args env []).0 _ fails in
    (rw (started.built, started.starts) refl, rw (parsed, opened) bad, rw (parsed, opened) nothing)
