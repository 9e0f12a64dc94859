-- ===== src/Bytes/Laws.antt =====
-- Reading big-endian numbers and the hexadecimal print back.
use native.Mathlib.Nat.{pow-suc}
use aragon_zk_governance.Common.{
  ℕ, zero, suc, ◌+◌, ◌*◌, ◌/◌, ◌%◌, ◌^◌, ◌<◌, ◌≡◌, refl, sym, ap, ◌∙◌, List, [], ◌∷◌, ◌++◌, arith,
  ltb, if◌then◌else◌, length, length-append, All,
}
use aragon_zk_governance.Config.{Bytes}
use aragon_zk_governance.Bytes.{to_be_bytes, from_be_bytes, to_hex_string}

pub length-to_be_bytes : (n x : ℕ) → length (to_be_bytes n x) ≡ n
unfolding to_be_bytes
length-to_be_bytes zero x = refl
length-to_be_bytes (suc n) x = omega (
  arith,
  length-append (to_be_bytes n (x / 256)) ((x % 256) ∷ []),
  length-to_be_bytes n (x / 256),
)

from_be_bytes-snoc :
    (acc : ℕ) (bs : Bytes) (b : ℕ)
    → from_be_bytes acc (bs ++ b ∷ []) ≡ from_be_bytes acc bs * 256 + b
unfolding from_be_bytes
from_be_bytes-snoc acc [] b = refl
from_be_bytes-snoc acc (c ∷ bs) b = from_be_bytes-snoc (acc * 256 + c) bs b

pub from_be_bytes-to_be_bytes : (n x : ℕ) → x < 256 ^ n → from_be_bytes 0 (to_be_bytes n x) ≡ x
unfolding to_be_bytes
from_be_bytes-to_be_bytes zero x h = unfold from_be_bytes in omega arith
from_be_bytes-to_be_bytes (suc n) x h =
    rw (from_be_bytes-snoc, from_be_bytes-to_be_bytes n (x / 256) (omega (arith, pow-suc 256 n)))
      (omega arith)

pub to_be_bytes-injective :
    (n x y : ℕ) → x < 256 ^ n → y < 256 ^ n → to_be_bytes n x ≡ to_be_bytes n y → x ≡ y
to_be_bytes-injective n x y hx hy e =
    sym (from_be_bytes-to_be_bytes n x hx)
    ∙ ap (from_be_bytes 0) e
    ∙ from_be_bytes-to_be_bytes n y hy

-- The value of a hexadecimal digit that `{:x}` prints.
unfoldable pub digit_value : ℕ → ℕ
digit_value c = if ltb c 58 then Prim.Native.Nat.◌-◌ c 48 else Prim.Native.Nat.◌-◌ c 87

unfoldable pub parse_hex : List ℕ → Bytes
parse_hex [] = []
parse_hex (c ∷ []) = []
parse_hex (c ∷ d ∷ rest) = (digit_value c * 16 + digit_value d) ∷ parse_hex rest

-- The print of a byte sequence is twice as long, and reads back as the sequence.
pub parse_hex-to_hex_string :
    (bs : Bytes)
    → All (λ b. b < 256) bs
    → (length (to_hex_string bs) ≡ length bs + length bs) × (parse_hex (to_hex_string bs) ≡ bs)
unfolding parse_hex digit_value to_hex_string
parse_hex-to_hex_string [] h = (refl, refl)
parse_hex-to_hex_string (b ∷ bs) h =
    let ih = parse_hex-to_hex_string bs h.1 in (omega arith, ground (arith, ih.1))
