-- ===== src/Tests/Signature.antt =====
-- Two votes that are signed alike, the recovery bytes, and the hexadecimal print.
use aragon_zk_governance.Common.{◌≡◌, refl, arith, length}
use aragon_zk_governance.Guest.Signature.Message.{
  Fields, InRange, message, length-message, message-injective,
}
use aragon_zk_governance.Tests.World.{dao}

abbrev fields : Fields
fields = record { chain_id = 11155111; dao = dao; proposal_id = 1; direction = 2; balance = 110 }

in_range : InRange fields
in_range = record {
  chain_id = omega arith;
  dao = refl;
  proposal_id = omega arith;
  direction = omega arith;
  balance = omega arith;
}

length-message_example : length (message fields) ≡ 93
length-message_example = length-message fields in_range

message-injective_example : fields ≡ fields
message-injective_example = message-injective fields fields in_range in_range refl
