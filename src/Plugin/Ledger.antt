-- ===== src/Plugin/Ledger.antt =====
-- The recount of a poll: one ballot for each voter, the latest.
use aragon_zk_governance.Common.{
  ℕ, ◌+◌, ◌≡◌, ◌≢◌, refl, sym, List, [], ◌∷◌, All, arith, bytes_eq, bytes_eq_iff, Bool-cases, inl,
  inr, if◌then◌else◌,
}
use aragon_zk_governance.Config.{Address}
use aragon_zk_governance.Plugin.{VoteOption, vote_none, vote_abstain, vote_yes, vote_no}
use aragon_zk_governance.Plugin.Vote.Counts.{weight}

abbrev pub Ledger : Type 0
Ledger = List (Address × VoteOption)

-- A ballot takes the place of the voter's earlier one.
abbrev pub recast : Address → VoteOption → Ledger → Ledger
recast a v [] = (a, v) ∷ []
recast a v ((b, w) ∷ l) = if bytes_eq a b then (b, v) ∷ l else (b, w) ∷ recast a v l

abbrev pub option_of : Ledger → Address → VoteOption
option_of [] a = vote_none
option_of ((b, w) ∷ l) a = if bytes_eq a b then w else option_of l a

-- The powers of those whose ballot is for the option, added up.
abbrev pub recount : VoteOption → (Address → ℕ) → Ledger → ℕ
recount o power [] = 0
recount o power ((b, w) ∷ l) = weight o w (power b) + recount o power l

-- No voter has two ballots.
abbrev pub HasDistinct : Ledger → Type 0
HasDistinct [] = Unit {0}
HasDistinct ((b, w) ∷ l) = All (λ (c : Address × VoteOption). b ≢ c.0) l × HasDistinct l

pub option_of-recast :
    (a b : Address) (v : VoteOption) (l : Ledger)
    → option_of (recast a v l) b ≡ (if bytes_eq b a then v else option_of l b)
option_of-recast a b v [] = refl
option_of-recast a b v ((c, w) ∷ l) =
    ground (arith, bytes_eq_iff a c, bytes_eq_iff b c, bytes_eq_iff b a, option_of-recast a b v l)

pub weight-none : (o : VoteOption) (n : ℕ) → weight o vote_none n ≡ 0
weight-none vote_none n = refl
weight-none vote_abstain n = refl
weight-none vote_yes n = refl
weight-none vote_no n = refl

pub recount-recast :
    (o : VoteOption) (power : Address → ℕ) (a : Address) (v : VoteOption) (l : Ledger)
    → recount o power (recast a v l) + weight o (option_of l a) (power a)
      ≡ recount o power l + weight o v (power a)
recount-recast o power a v [] = omega (arith, weight-none o (power a))
recount-recast o power a v ((b, w) ∷ l) = elim (Bool-cases (bytes_eq a b)) [
  | inl same ↦ rw (same, (bytes_eq_iff a b).0 same) (omega arith)
  | inr other ↦ rw other (omega (arith, recount-recast o power a v l))
]

All-recast :
    (b a : Address) (v : VoteOption) (l : Ledger)
    → b ≢ a
    → All (λ (c : Address × VoteOption). b ≢ c.0) l
    → All (λ (c : Address × VoteOption). b ≢ c.0) (recast a v l)
All-recast b a v [] ne h = (ne, tt)
All-recast b a v ((c, w) ∷ l) ne (first, rest) = elim (Bool-cases (bytes_eq a c)) [
  | inl same ↦ rw same (first, rest)
  | inr other ↦ rw other (first, All-recast b a v l ne rest)
]

pub recast-HasDistinct :
    (a : Address) (v : VoteOption) (l : Ledger) → HasDistinct l → HasDistinct (recast a v l)
recast-HasDistinct a v [] h = (tt, tt)
recast-HasDistinct a v ((b, w) ∷ l) (first, rest) = elim (Bool-cases (bytes_eq a b)) [
  | inl same ↦ rw same (first, rest)
  | inr other ↦
      let ne : b ≢ a = λ e. cc ((bytes_eq_iff a b).1 (sym e)) in
      rw other (All-recast b a v l ne first, recast-HasDistinct a v l rest)
]
