-- ===== src/Guest/Delegation/Shares.antt =====
-- The share of a delegated power: `total_ratios / d.ratio` in split_delegation.rs, by which the
-- guest divides the delegate's power.
use native.Mathlib.Nat.{
  le-div_iff_mul-le, div-mul-le_self, div-le_self, div-eq_of_lt-le, div-one, add-zero,
  mul-le-mul_left, le_trans, le_of_mul-le-mul_right, mul_assoc, mul-div-mul_right, mul-div_cancel,
}
use aragon_zk_governance.Common.{
  ℕ, ◌+◌, ◌*◌, ◌/◌, ◌<◌, ◌≤◌, ◌≡◌, refl, some, List, [], ◌∷◌, arith, Bool-cases, inl, inr,
}
use aragon_zk_governance.Outcome.{ok}
use aragon_zk_governance.U256.{modulus, divide, ⊕-eq-add}
use aragon_zk_governance.Config.{Address, Delegation}
use aragon_zk_governance.Steel.{RegistryDelegation}
use aragon_zk_governance.Guest.Delegation.{
  total_ratios, find_delegation, match_delegation, compare_bytes32_to_address,
}

-- The sum of the ratios, as a number without bound.
abbrev pub ratio_sum : List RegistryDelegation → ℕ
ratio_sum [] = 0
ratio_sum (d ∷ ds) = d.ratio + ratio_sum ds

pub total_ratios-eq-add :
    (acc : ℕ) (ds : List RegistryDelegation)
    → acc + ratio_sum ds < modulus
    → total_ratios acc ds ≡ acc + ratio_sum ds
unfolding total_ratios
total_ratios-eq-add acc [] h = omega arith
total_ratios-eq-add acc (d ∷ ds) h =
    rw (⊕-eq-add acc d.ratio (omega arith))
      (omega (arith, total_ratios-eq-add (acc + d.ratio) ds (omega arith)))

pub find_delegation-ratio-le :
    (account : Address) (ds : List RegistryDelegation) (found : RegistryDelegation)
    → find_delegation account ds ≡ some found
    → found.ratio ≤ ratio_sum ds
unfolding find_delegation
find_delegation-ratio-le account [] found e = cc
find_delegation-ratio-le account (d ∷ ds) found e =
    elim (Bool-cases (compare_bytes32_to_address d.delegate account)) [
      | inl here ↦ ground arith
      | inr there ↦ ground (arith, find_delegation-ratio-le account ds found)
    ]

pub divide_pos : (a b : ℕ) → 0 < b → divide a b ≡ ok (a / b)
unfolding divide
divide_pos a b h = ground arith

quotient-pos : (total ratio : ℕ) → 0 < ratio → ratio ≤ total → 0 < total / ratio
quotient-pos total ratio h k = (le-div_iff_mul-le h).1 (omega arith)

-- The share is never below the proportional one.
proportional-le-share :
    (power total ratio : ℕ)
    → 0 < ratio
    → ratio ≤ total
    → power * ratio / total ≤ power / (total / ratio)
proportional-le-share power total ratio h k = (le-div_iff_mul-le (quotient-pos total ratio h k)).1 (
    le_of_mul-le-mul_right
      (le_trans
        (rw mul_assoc (mul-le-mul_left (power * ratio / total) (div-mul-le_self total ratio)))
        (div-mul-le_self (power * ratio) total))
      h)

pub share_exact :
    (power total ratio k : ℕ)
    → 0 < ratio
    → total ≡ k * ratio
    → power / (total / ratio) ≡ power * ratio / total
share_exact power total ratio k h e = rw (e, mul-div_cancel k h, mul-div-mul_right power k h)

-- The answer for a delegate whose registry entries name the account.
pub match_delegation-found :
    (account delegate : Address) (d : RegistryDelegation) (ds : List RegistryDelegation)
    (found : RegistryDelegation)
    → find_delegation account (d ∷ ds) ≡ some found
    → 0 < found.ratio
    → ratio_sum (d ∷ ds) < modulus
    → match_delegation account delegate (d ∷ ds)
      ≡ ok (some (record { delegate = delegate; ratio = ratio_sum (d ∷ ds) / found.ratio }))
unfolding match_delegation divide
match_delegation-found account delegate d ds found e h fits =
    rw (e, match_delegation) (rw (total_ratios-eq-add 0 (d ∷ ds) (omega arith)) (ground arith))

-- Where a delegate's registry entries name the account with a ratio above 0 and their ratios add up
-- to less than 2 ^ 256, the account gets a share of the delegate's power: no less than the
-- proportional one, no more than the power, and just the proportional one if the account's ratio
-- divides the sum.
pub match_delegation_share :
    (account delegate : Address) (d : RegistryDelegation) (ds : List RegistryDelegation)
    (found : RegistryDelegation) (power : ℕ)
    → find_delegation account (d ∷ ds) ≡ some found
    → 0 < found.ratio
    → ratio_sum (d ∷ ds) < modulus
    → let total = ratio_sum (d ∷ ds) in
      let proportional = power * found.ratio / total in
      (x : Delegation) × (match_delegation account delegate (d ∷ ds) ≡ ok (some x))
      × (x.delegate ≡ delegate)
      × (divide power x.ratio ≡ ok (power / x.ratio))
      × (proportional ≤ power / x.ratio)
      × (power / x.ratio ≤ power)
      × ((k : ℕ) → total ≡ k * found.ratio → power / x.ratio ≡ proportional)
match_delegation_share account delegate d ds found power e h fits =
    let total = ratio_sum (d ∷ ds) in
    let small = find_delegation-ratio-le account (d ∷ ds) found e in
    (
      record { delegate = delegate; ratio = total / found.ratio },
      match_delegation-found account delegate d ds found e h fits,
      refl,
      divide_pos power (total / found.ratio) (quotient-pos total found.ratio h small),
      proportional-le-share power total found.ratio h small,
      div-le_self power (total / found.ratio),
      λ k m. share_exact power total found.ratio k h m,
    )

larger_once : (a b : ℕ) → a < b → (a + (b + 0)) / b ≡ 1
larger_once a b h = div-eq_of_lt-le {k = 1} b {m = a + (b + 0)} (omega arith) (omega arith)

some_left : (a b power : ℕ) → 0 < a → (a + b) / a ≤ power → 0 < power / ((a + (b + 0)) / a)
some_left a b power h k =
    rw add-zero (quotient-pos power ((a + b) / a) (quotient-pos (a + b) a h (omega arith)) k)

-- Rounding the divisor down can give away more than there is: of two unequal ratios the larger gets
-- the whole power, and the smaller a part of it again, if the power is at least the quotient of the
-- sum of the ratios by the smaller one.
pub match_delegation_over_counts :
    (a b delegate : Address) (d e : RegistryDelegation) (power : ℕ)
    → find_delegation a (d ∷ e ∷ []) ≡ some d
    → find_delegation b (d ∷ e ∷ []) ≡ some e
    → 0 < d.ratio
    → d.ratio < e.ratio
    → d.ratio + e.ratio < modulus
    → (d.ratio + e.ratio) / d.ratio ≤ power
    → (x y : Delegation) × (match_delegation a delegate (d ∷ e ∷ []) ≡ ok (some x))
      × (match_delegation b delegate (d ∷ e ∷ []) ≡ ok (some y))
      × (power < power / x.ratio + power / y.ratio)
match_delegation_over_counts a b delegate d e power fa fb pos less fits enough =
    let fits' : ratio_sum (d ∷ e ∷ []) < modulus = omega arith in
    (
      record { delegate = delegate; ratio = (d.ratio + (e.ratio + 0)) / d.ratio },
      record { delegate = delegate; ratio = (d.ratio + (e.ratio + 0)) / e.ratio },
      match_delegation-found a delegate d (e ∷ []) d fa pos fits',
      match_delegation-found b delegate d (e ∷ []) e fb (omega arith) fits',
      rw (larger_once d.ratio e.ratio less, div-one)
          (omega (arith, some_left d.ratio e.ratio power pos enough)),
    )
