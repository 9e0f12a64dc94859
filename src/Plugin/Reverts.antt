-- ===== src/Plugin/Reverts.antt =====
-- Taking a transaction's success apart.
use aragon_zk_governance.Common.{
  ℕ, ◌+◌, ◌^◌, ◌<◌, ◌≡◌, refl, Bool, true, false, Option, some, arith,
}
use aragon_zk_governance.Plugin.{
  Tx, done, revert, Revert, ◌>>=◌, ◌>>◌, require, expect, add, sub, to_u64,
}

pub >>=-eq-done {ℓ κ} :
    {B : Type κ} {A : Type ℓ} (t : Tx A) (next : A → Tx B) {result : B}
    → t >>= next ≡ done result
    → (x : A) × (t ≡ done x) × (next x ≡ done result)
>>=-eq-done (revert why) next h = cc
>>=-eq-done (done x) next h = (x, refl, h)

-- A step behind a `require`.
pub require_passed {ℓ} :
    {A : Type ℓ} (test : Bool) (why : Revert) (rest : Tx A) {x : A}
    → require test why >> rest ≡ done x
    → (test ≡ true) × (rest ≡ done x)
require_passed true why rest h = (refl, h)
require_passed false why rest h = cc

pub expect-eq-done {ℓ} :
    {A : Type ℓ} (o : Option A) (why : Revert) {a : A} → expect o why ≡ done a → o ≡ some a
expect-eq-done Option.none why h = cc
expect-eq-done (some a) why h = cc

pub done-injective {ℓ} : {A : Type ℓ} {a b : A} → done a ≡ done b → a ≡ b
done-injective h = cc

-- Checked arithmetic is exact where it does not revert.
pub add-eq-done : (bits a b : ℕ) {n : ℕ} → add bits a b ≡ done n → (n ≡ a + b) × (n < 2 ^ bits)
unfolding add
add-eq-done bits a b h = ground arith

pub sub-eq-done : (a b : ℕ) {n : ℕ} → sub a b ≡ done n → n + b ≡ a
unfolding sub
sub-eq-done a b h = ground arith

pub to_u64-eq-done : (n : ℕ) {m : ℕ} → to_u64 n ≡ done m → m ≡ n
unfolding to_u64
to_u64-eq-done n h = ground arith
