-- ===== src/Host/Publisher/Stdin.antt =====
-- What publisher.rs writes for the guest, and what voting_protocol.rs reads.
use aragon_zk_governance.Common.{◌≤◌, ◌<◌, ◌≡◌, sym, ap, ◌∙◌, some, [], append-nil}
use aragon_zk_governance.Outcome.{ok}
use aragon_zk_governance.Crates.{Crates}
use aragon_zk_governance.Stdin.{Wire, IsLawfulWire, Codec, IsLawful}
use aragon_zk_governance.Host.Node.{Node}
use aragon_zk_governance.Host.Publisher.{Args, write_input}
use aragon_zk_governance.Guest.Voting.{read_voting_input, prove_vote, voting_main}
use aragon_zk_governance.Agreement.Accepted.{
  vote_input, IsComparableConfig, preflight_vote-prove_vote,
}
use aragon_zk_governance.Agreement.{Agrees}
use aragon_zk_governance.Config.{Address}
use aragon_zk_governance.Steel.{Env}
use aragon_zk_governance.Guest.Voting.{check_signature}
use aragon_zk_governance.Host.Publisher.{preflight_vote}

-- Reading the last thing that was written.
read_last :
    {Word A : Type 0} {c : Codec Word A} → IsLawful c → (a : A) → c.read (c.write a) ≡ some (a, [])
read_last {c} l a = ap c.read (sym (append-nil (c.write a))) ∙ l.read-write a []

-- With a word format that gives back what was written, the guest reads just the arguments that the
-- publisher was called with.
pub read_voting_input-write_input :
    (ext : Crates) (wire : Wire) (node : Node wire) (args : Args) (view_call_input : wire.Input)
    → IsLawfulWire wire
    → read_voting_input ext wire (write_input ext wire node args view_call_input)
      ≡ ok (vote_input args view_call_input)
unfolding read_voting_input write_input
read_voting_input-write_input ext wire node args view l = rw (
  l.input.read-write view,
  l.string.read-write args.voter_signature,
  l.address.read-write args.voter,
  l.address.read-write args.dao_address,
  l.u256.read-write args.proposal_id,
  l.u8.read-write args.direction,
  l.u256.read-write args.balance,
  l.address.read-write args.config_contract,
  read_last l.string args.additional_delegation_data,
)

pub voting_main-write_input :
    (ext : Crates) (wire : Wire) (node : Node wire) (args : Args) (view_call_input : wire.Input)
    → IsLawfulWire wire
    → voting_main ext wire (write_input ext wire node args view_call_input)
      ≡ prove_vote ext wire (vote_input args view_call_input)
unfolding voting_main
voting_main-write_input ext wire node args view l =
    rw (read_voting_input-write_input ext wire node args view l)

-- A vote whose preflight passes is proved by the guest: on the words that the publisher writes, the
-- voting program commits a journal that holds the vote of the arguments. The conditions are: the
-- word format gives back what was written; the input opens as an environment that answers the
-- recorded calls as the host's did; no asset uses `GetPastVotes`; the signature recovers to some
-- address, the direction is 1, 2 or 3, and the balance is above 0.
pub preflight_vote-voting_main :
    (ext : Crates) (wire : Wire) (node : Node wire) (args : Args) (h g : Env)
    (view_call_input : wire.Input) (signer : Address)
    → IsLawfulWire wire
    → IsComparableConfig ext h args.config_contract args.proposal_id
    → (preflight_vote ext args h []).0 ≡ ok tt
    → wire.into_env view_call_input ≡ some g
    → Agrees g h (preflight_vote ext args h []).1
    → check_signature ext (vote_input args view_call_input) ≡ ok signer
    → 1 ≤ args.direction
    → args.direction ≤ 3
    → 0 < args.balance
    → voting_main ext wire (write_input ext wire node args view_call_input)
      ≡ ok (record {
        commitment = g.commitment;
        config_contract = args.config_contract;
        proposal_id = args.proposal_id;
        voter = args.voter;
        balance = args.balance;
        direction = args.direction;
      })
preflight_vote-voting_main ext wire node args h g view signer l comparable passed opens agree
      recovers from to positive =
    voting_main-write_input ext wire node args view l
    ∙ preflight_vote-prove_vote ext args h g wire view signer comparable passed opens agree recovers
        from to positive
