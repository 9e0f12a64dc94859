-- ===== src/Bytes.antt =====
-- Big-endian numbers, and the hexadecimal print of the programs' `to_hex_string`.
pub mod Laws
use aragon_zk_governance.Common.{
  ℕ, zero, suc, ◌+◌, ◌*◌, ◌/◌, ◌%◌, List, [], ◌∷◌, ◌++◌, ltb, if◌then◌else◌,
}
use aragon_zk_governance.Config.{Bytes}

-- `to_be_bytes` of a u64 (8 bytes), `to_be_bytes_vec` of a U256 (32 bytes).
unfoldable pub to_be_bytes : ℕ → ℕ → Bytes
to_be_bytes zero x = []
to_be_bytes (suc n) x = to_be_bytes n (x / 256) ++ ((x % 256) ∷ [])

-- The number that a big-endian sequence stands for.
unfoldable pub from_be_bytes : ℕ → Bytes → ℕ
from_be_bytes acc [] = acc
from_be_bytes acc (b ∷ bs) = from_be_bytes (acc * 256 + b) bs

-- One digit of `{:x}`, as an ASCII code.
abbrev pub hex_digit : ℕ → ℕ
hex_digit d = if ltb d 10 then b'0' + d else 87 + d

-- `format!("{:02x}", byte)` for each byte, collected into one text.
unfoldable pub to_hex_string : Bytes → List ℕ
to_hex_string [] = []
to_hex_string (b ∷ bs) = hex_digit (b / 16) ∷ hex_digit (b % 16) ∷ to_hex_string bs
