-- ===== src/Tests/Prover.antt =====
-- A node whose prover runs the voting program and puts the journal in the receipt.
use aragon_zk_governance.Common.{
  ℕ, String, ◌≡◌, Option, none, some, List, [], ◌∷◌, ◌++◌, true, length, take, drop, take-append,
  drop-append, refl,
}
use aragon_zk_governance.Outcome.{Outcome, ok, err, panic}
use aragon_zk_governance.Config.{Bytes}
use aragon_zk_governance.Guest.Voting.{Journal, voting_main}
use aragon_zk_governance.Host.Node.{Node, Program, voting_protocol_elf, execution_protocol_elf}
use aragon_zk_governance.Host.Publisher.Sent.{IsSoundProver}
use aragon_zk_governance.Host.Publisher.Delivered.{IsWorking}
use aragon_zk_governance.Tests.World.{commitment, ext, env}
use aragon_zk_governance.Tests.Format.{wire, Word}

-- Four numbers and three lengths, then the four byte sequences.
abbrev pub encode : Journal → Bytes
encode j =
    j.commitment.id
    ∷ j.proposal_id
    ∷ j.balance
    ∷ j.direction
    ∷ length j.commitment.digest
    ∷ length j.commitment.config_id
    ∷ length j.config_contract
    ∷ (j.commitment.digest ++ (j.commitment.config_id ++ (j.config_contract ++ j.voter)))

abbrev pub decode : Bytes → Option Journal
decode (id ∷ proposal_id ∷ balance ∷ direction ∷ m ∷ k ∷ n ∷ rest) = some (record {
  commitment = record { id = id; digest = take m rest; config_id = take k (drop m rest) };
  config_contract = take n (drop k (drop m rest));
  proposal_id = proposal_id;
  voter = drop n (drop k (drop m rest));
  balance = balance;
  direction = direction;
})
decode _ = none

decode-encode : (j : Journal) → decode (encode j) ≡ some j
decode-encode j =
    let digest = j.commitment.digest in
    let config_id = j.commitment.config_id in
    let rest = j.config_contract ++ j.voter in
    rw (
      take-append digest (config_id ++ rest),
      drop-append digest (config_id ++ rest),
      take-append config_id rest,
      drop-append config_id rest,
      take-append j.config_contract j.voter,
      drop-append j.config_contract j.voter,
    )

abbrev receipt_of : Outcome Journal → Option Journal
receipt_of (ok j) = some j
receipt_of (err e) = none
receipt_of (panic p) = none

receipt_of-eq-some : (o : Outcome Journal) {j : Journal} → receipt_of o ≡ some j → o ≡ ok j
receipt_of-eq-some (ok j) h = cc
receipt_of-eq-some (err e) h = cc
receipt_of-eq-some (panic p) h = cc

-- The receipts of the other program are made up.
abbrev pub made_up : Journal
made_up = record {
  commitment = commitment;
  config_contract = [];
  proposal_id = 1;
  voter = [];
  balance = 0;
  direction = 0;
}

abbrev pub prove : Program → List Word → Option Journal
prove voting_protocol_elf stdin = receipt_of (voting_main ext wire stdin)
prove execution_protocol_elf stdin = some made_up

abbrev pub node : Node wire
node = record {
  Url = String;
  parse_url = some;
  build_env = λ url number. some env;
  into_input = λ e log. some e;
  Receipt = Journal;
  prove = prove;
  journal_bytes = encode;
  encode_seal = λ receipt. some [];
  decode_voting_journal = decode;
  Hash = ℕ;
  send = λ tx. some 1;
  get_receipt = λ hash. some true;
}

pub node-IsSound : IsSoundProver ext wire node
node-IsSound = record {
  proved = λ stdin r h. (r, receipt_of-eq-some (voting_main ext wire stdin) h, decode-encode r);
}

pub node-IsWorking : IsWorking ext wire node
node-IsWorking = record {
  replays = λ e log. (e, e, refl, refl, λ c r. refl);
  proves = λ stdin j ran. (j, [], rw ran, decode-encode j, refl);
  confirms = λ tx. (1, refl, refl);
}
