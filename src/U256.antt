-- ===== src/U256.antt =====
-- `U256` of `alloy_primitives`, as the strategies and the programs use it: a number below 2 ^ 256,
-- `+` and `sum` wrap around, `/` panics at a zero divisor.
use aragon_zk_governance.Common.{ℕ, ◌+◌, ◌/◌, ◌%◌, ◌^◌, ◌<◌, ◌≡◌, ◌↔◌, arith, ◌==◌, if◌then◌else◌}
use aragon_zk_governance.Outcome.{Outcome, ok, panic, division_by_zero}

abbrev pub modulus : ℕ
modulus = 2 ^ 256

infixl 65 ◌⊕◌
unfoldable pub ◌⊕◌ : ℕ → ℕ → ℕ
a ⊕ b = (a + b) % modulus

unfoldable pub divide : ℕ → ℕ → Outcome ℕ
divide a b = if b == 0 then panic division_by_zero else ok (a / b)

pub ⊕_comm : (a b : ℕ) → a ⊕ b ≡ b ⊕ a
unfolding ◌⊕◌
⊕_comm a b = omega arith

pub ⊕_assoc : (a b c : ℕ) → a ⊕ b ⊕ c ≡ a ⊕ (b ⊕ c)
unfolding ◌⊕◌
⊕_assoc a b c = omega arith

pub ⊕-lt : (a b : ℕ) → a ⊕ b < modulus
unfolding ◌⊕◌
⊕-lt a b = omega arith

-- Where the sum fits, it is exact.
pub ⊕-eq-add : (a b : ℕ) → a + b < modulus → a ⊕ b ≡ a + b
unfolding ◌⊕◌
⊕-eq-add a b h = omega arith

pub zero-⊕ : (a : ℕ) → a < modulus → 0 ⊕ a ≡ a
unfolding ◌⊕◌
zero-⊕ a h = omega arith

-- Division succeeds exactly by a divisor that is not 0.
pub divide_iff : (a b q : ℕ) → (divide a b ≡ ok q) ↔ ((0 < b) × (q ≡ a / b))
unfolding divide
divide_iff a b q = ground arith
