-- ===== src/Token/Supply.antt =====
-- The supply beside the balances.
use aragon_zk_governance.Common.{
  ℕ, ◌+◌, ◌-◌, ◌^◌, ◌≤◌, ◌<◌, ◌≡◌, refl, sym, ap, ◌∙◌, List, [], ◌∷◌, Bool, true, false, ◌||◌,
  bytes_eq, bytes_eq_iff, Bool-cases, inl, inr, arith,
}
use aragon_zk_governance.Config.{Address}
use aragon_zk_governance.Plugin.{done, ◌>>=◌, add, sub}
use aragon_zk_governance.Plugin.Reverts.{>>=-eq-done, add-eq-done, sub-eq-done, done-injective}
use aragon_zk_governance.Token.{
  Token, set, debit, credit, transfer, approve, transfer_from, mint, burn, Step, transferred,
  approved, transferred_from, minted, burned, IsReached, deployed, next,
}

abbrev pub contains : Address → List Address → Bool
contains a [] = false
contains a (b ∷ bs) = bytes_eq a b || contains a bs

abbrev pub AreDistinct : List Address → Type 0
AreDistinct [] = Unit {0}
AreDistinct (a ∷ xs) = (contains a xs ≡ false) × AreDistinct xs

abbrev pub sum : (Address → ℕ) → List Address → ℕ
sum f [] = 0
sum f (a ∷ xs) = f a + sum f xs

-- Some accounts, each listed once, have the balances that add up to the total; the others have none.
pub record HasSum (f : Address → ℕ) (total : ℕ) : Type 0 where
  pub holders : List Address
  pub distinct : AreDistinct holders
  pub adds_up : sum f holders ≡ total
  pub others : (a : Address) → contains a holders ≡ false → f a ≡ 0

sum-set_other :
    (f : Address → ℕ) (a : Address) (n : ℕ) (xs : List Address)
    → contains a xs ≡ false
    → sum (set f a n) xs ≡ sum f xs
sum-set_other f a n [] h = refl
sum-set_other f a n (b ∷ bs) h = elim (Bool-cases (bytes_eq b a)) [
  | inl same ↦ let e = (bytes_eq_iff b a).0 same in ground (arith, bytes_eq_iff a b, e)
  | inr apart ↦ rw apart (omega (arith, sum-set_other f a n bs (ground (arith, h))))
]

sum-set :
    (f : Address → ℕ) (a : Address) (n : ℕ) (xs : List Address)
    → AreDistinct xs
    → contains a xs ≡ true
    → sum (set f a n) xs + f a ≡ sum f xs + n
sum-set f a n [] d h = cc
sum-set f a n (b ∷ bs) (first, rest) h = elim (Bool-cases (bytes_eq b a)) [
  | inl same ↦
      let e = (bytes_eq_iff b a).0 same in
      rw same (omega (arith, ap f e, sum-set_other f a n bs (rw e at first)))
  | inr apart ↦
      let later : contains a bs ≡ true = ground (arith, bytes_eq_iff a b, bytes_eq_iff b a, h) in
      rw apart (omega (arith, sum-set f a n bs rest later))
]

-- One balance is set, and the total changes as much.
pub set-HasSum :
    (f : Address → ℕ) (total : ℕ) (a : Address) (n total' : ℕ)
    → HasSum f total
    → total' + f a ≡ total + n
    → HasSum (set f a n) total'
set-HasSum f total a n total' s h = elim (Bool-cases (contains a s.holders)) [
  | inl listed ↦ record {
    holders = s.holders;
    distinct = s.distinct;
    adds_up = omega (arith, sum-set f a n s.holders s.distinct listed, s.adds_up, h);
    others = λ b apart. elim (Bool-cases (bytes_eq b a)) [
      | inl same ↦
          let listed_too = rw (← (bytes_eq_iff b a).0 same) at listed in cc (listed_too, apart)
      | inr other ↦ rw other (s.others b apart)
    ];
  }
  | inr new ↦ record {
    holders = a ∷ s.holders;
    distinct = (new, s.distinct);
    adds_up =
        rw ((bytes_eq_iff a a).1 refl)
          (omega (arith, sum-set_other f a n s.holders new, s.others a new, s.adds_up, h));
    others = λ b apart. ground (arith, apart, s.others b);
  }
]

balance-le : (f : Address → ℕ) (total : ℕ) (a : Address) → HasSum f total → f a ≤ total
balance-le f total a s = elim (Bool-cases (contains a s.holders)) [
  | inl listed ↦ omega (arith, sum-set f a 0 s.holders s.distinct listed, s.adds_up)
  | inr new ↦ omega (arith, s.others a new)
]

-- The balances of different accounts are at most the total.
pub sum-le :
    (f : Address → ℕ) (total : ℕ) (xs : List Address)
    → HasSum f total
    → AreDistinct xs
    → sum f xs ≤ total
sum-le f total [] s d = omega arith
sum-le f total (a ∷ xs) s (first, rest) =
    let least = balance-le f total a s in
    let without = set-HasSum f total a 0 (total - f a) s (omega (arith, least)) in
    omega
      (arith, least, sum-set_other f a 0 xs first, sum-le (set f a 0) (total - f a) xs without rest)

debit-HasSum :
    (a : Address) (amount total : ℕ) (t : Token) {t' : Token}
    → debit a amount t ≡ done t'
    → HasSum t.balance_of total
    → (amount ≤ total) × HasSum t'.balance_of (total - amount) × (t'.total_supply ≡ t.total_supply)
debit-HasSum a amount total t h s =
    let (n, e, h) = >>=-eq-done (sub (t.balance_of a) amount) _ h in
    let exact = sub-eq-done (t.balance_of a) amount e in
    let least = balance-le t.balance_of total a s in
    rw (← done-injective h) (
      omega (arith, exact, least),
      set-HasSum t.balance_of total a n (total - amount) s (omega (arith, exact, least)),
      refl,
    )

credit-HasSum :
    (a : Address) (amount total : ℕ) (t : Token) {t' : Token}
    → credit a amount t ≡ done t'
    → HasSum t.balance_of total
    → HasSum t'.balance_of (total + amount) × (t'.total_supply ≡ t.total_supply)
credit-HasSum a amount total t h s =
    let (n, e, h) = >>=-eq-done (add 256 (t.balance_of a) amount) _ h in
    let (exact, _) = add-eq-done 256 (t.balance_of a) amount e in
    rw (← done-injective h)
      (set-HasSum t.balance_of total a n (total + amount) s (omega (arith, exact)), refl)

-- A debit and a credit of one amount.
moved-HasSum :
    (sender recipient : Address) (amount total : ℕ) (t : Token) {between t' : Token}
    → debit sender amount t ≡ done between
    → credit recipient amount between ≡ done t'
    → HasSum t.balance_of total
    → HasSum t'.balance_of total × (t'.total_supply ≡ t.total_supply)
moved-HasSum sender recipient amount total t {between} {t'} taken given s =
    let (least, s, same) = debit-HasSum sender amount total t taken s in
    let (s, same') = credit-HasSum recipient amount (total - amount) between given s in
    let whole : (total - amount) + amount ≡ total = omega (arith, least) in
    (rw whole at s, same' ∙ same)

abbrev pub IsSolvent : Token → Type 0
IsSolvent t = HasSum t.balance_of t.total_supply × (t.total_supply < 2 ^ 256)

step-IsSolvent : {t t' : Token} → Step t t' → IsSolvent t → IsSolvent t'
unfolding transfer approve transfer_from mint burn
step-IsSolvent {t} (transferred sender recipient amount h) (s, small) =
    let (between, taken, given) = >>=-eq-done (debit sender amount t) _ h in
    let (s, same) = moved-HasSum sender recipient amount t.total_supply t taken given s in
    rw same (s, small)
step-IsSolvent (approved sender spender amount h) s = rw (← done-injective h) s
step-IsSolvent {t} (transferred_from spender sender recipient amount h) (s, small) =
    let (n, _, h) = >>=-eq-done (sub (t.allowance sender spender) amount) _ h in
    let (allowed, approves, h) =
      >>=-eq-done (approve sender spender n t)
        (λ (x : Token). debit sender amount x >>= credit recipient amount) h in
    let (between, taken, given) = >>=-eq-done (debit sender amount allowed) _ h in
    let kept : allowed.total_supply ≡ t.total_supply =
      ap (λ (x : Token). x.total_supply) (sym (done-injective approves)) in
    let kept_sum : HasSum allowed.balance_of t.total_supply = rw (← done-injective approves) s in
    let (s, same) =
      moved-HasSum sender recipient amount t.total_supply allowed taken given kept_sum in
    rw (same ∙ kept) (s, small)
step-IsSolvent {t} (minted to amount h) (s, small) =
    let (between, given, h) = >>=-eq-done (credit to amount t) _ h in
    let (s, same) = credit-HasSum to amount t.total_supply t given s in
    let (n, e, h) = >>=-eq-done (add 256 between.total_supply amount) _ h in
    let (exact, bound) = add-eq-done 256 between.total_supply amount e in
    let total : t.total_supply + amount ≡ n = omega (arith, exact, same) in
    rw (← done-injective h) (rw total at s, bound)
step-IsSolvent {t} (burned from amount h) (s, small) =
    let (between, taken, h) = >>=-eq-done (debit from amount t) _ h in
    let (least, s, same) = debit-HasSum from amount t.total_supply t taken s in
    let (n, e, h) = >>=-eq-done (sub between.total_supply amount) _ h in
    let exact = sub-eq-done between.total_supply amount e in
    let total : t.total_supply - amount ≡ n = omega (arith, exact, same) in
    rw (← done-injective h) (rw total at s, omega (arith, exact, same, small))

-- Whatever is done with the token, its supply is below 2 ^ 256 and is the sum of the balances: those
-- of some accounts, each counted once, add up to it, and every other account has none.
pub IsReached-IsSolvent : (t : Token) → IsReached t → IsSolvent t
IsReached-IsSolvent t deployed =
    (record { holders = []; distinct = tt; adds_up = refl; others = λ a h. refl }, omega arith)
IsReached-IsSolvent t (next {t = before} reached step) =
    step-IsSolvent step (IsReached-IsSolvent before reached)
