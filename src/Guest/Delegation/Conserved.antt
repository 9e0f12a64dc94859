-- ===== src/Guest/Delegation/Conserved.antt =====
-- When the shares of a delegate's power do not exceed it (split_delegation.rs).
use native.Mathlib.Nat.{le-div_iff_mul-le, div-mul-le_self, mul-div_cancel, add-mul, mul-add}
use aragon_zk_governance.Common.{ℕ, ◌+◌, ◌*◌, ◌/◌, ◌<◌, ◌≤◌, ◌≡◌, some, List, [], ◌∷◌, All, arith}
use aragon_zk_governance.Outcome.{ok}
use aragon_zk_governance.U256.{modulus}
use aragon_zk_governance.Config.{Address, Delegation}
use aragon_zk_governance.Steel.{RegistryDelegation}
use aragon_zk_governance.Guest.Delegation.{find_delegation, match_delegation}
use aragon_zk_governance.Guest.Delegation.Find.{account_of}
use aragon_zk_governance.Guest.Delegation.Shares.{ratio_sum, share_exact, match_delegation-found}

-- The entry is the one found for its account, and its ratio, not 0, divides the sum.
abbrev pub IsExact : List RegistryDelegation → RegistryDelegation → Type 0
IsExact entries d =
    (find_delegation (account_of d) entries ≡ some d)
    × (0 < d.ratio)
    × (k : ℕ) × (ratio_sum entries ≡ k * d.ratio)

-- What each of the accounts that are named is granted by all the entries.
abbrev pub AreGranted :
    Address → List RegistryDelegation → List RegistryDelegation → List Delegation → Type 0
AreGranted delegate entries [] [] = Unit {0}
AreGranted delegate entries [] (x ∷ xs) = ⊥
AreGranted delegate entries (d ∷ ds) [] = ⊥
AreGranted delegate entries (d ∷ ds) (x ∷ xs) =
    (match_delegation (account_of d) delegate entries ≡ ok (some x))
    × AreGranted delegate entries ds xs

abbrev pub share_sum : ℕ → List Delegation → ℕ
share_sum power [] = 0
share_sum power (x ∷ xs) = power / x.ratio + share_sum power xs

div-add-le : (a b t : ℕ) → 0 < t → a / t + b / t ≤ (a + b) / t
div-add-le a b t h =
    (le-div_iff_mul-le h).1 (rw add-mul (omega (arith, div-mul-le_self a t, div-mul-le_self b t)))

module _ (delegate : Address) (power : ℕ) (e : RegistryDelegation) (es : List RegistryDelegation)
    (fits : ratio_sum (e ∷ es) < modulus) (positive : 0 < ratio_sum (e ∷ es)) where
  shares_le :
      (ds : List RegistryDelegation)
      → All (IsExact (e ∷ es)) ds
      → (xs : List Delegation) × AreGranted delegate (e ∷ es) ds xs
        × (share_sum power xs ≤ power * ratio_sum ds / ratio_sum (e ∷ es))
  shares_le [] h = ([], tt, omega arith)
  shares_le (d ∷ ds) ((found, not_zero, k, divides), h) =
      let sum = ratio_sum (e ∷ es) in
      let (xs, granted, less) = shares_le ds h in
      (
        record { delegate = delegate; ratio = sum / d.ratio } ∷ xs,
        (match_delegation-found (account_of d) delegate e es d found not_zero fits, granted),
        rw (share_exact power sum d.ratio k not_zero divides, mul-add)
            (omega (arith, less, div-add-le (power * d.ratio) (power * ratio_sum ds) sum positive)),
      )

-- If each of a delegate's entries is the one found for its account and has a ratio above 0 that
-- divides the sum of the ratios, and the sum is below 2 ^ 256, then every account that is named gets
-- a share, and the shares together are at most the delegate's power.
pub match_delegation_conserved :
    (delegate : Address) (power : ℕ) (e : RegistryDelegation) (es : List RegistryDelegation)
    → ratio_sum (e ∷ es) < modulus
    → All (IsExact (e ∷ es)) (e ∷ es)
    → (xs : List Delegation) × AreGranted delegate (e ∷ es) (e ∷ es) xs
      × (share_sum power xs ≤ power)
match_delegation_conserved delegate power e es fits h =
    let ((found, positive_ratio, k, divides), rest) = h in
    let sum = ratio_sum (e ∷ es) in
    let positive : 0 < sum = omega (arith, positive_ratio) in
    let (xs, granted, less) = shares_le delegate power e es fits positive (e ∷ es) h in
    (xs, granted, rw (mul-div_cancel power positive) at less)
