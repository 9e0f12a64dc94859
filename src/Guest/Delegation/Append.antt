-- ===== src/Guest/Delegation/Append.antt =====
-- `SplitDelegation` on two pieces of delegation data, one after the other.
use mathlib.Core.Path.{ap₂}
use mathlib.Core.Option.{some-injective}
use aragon_zk_governance.Common.{
  ◌%◌, ◌≡◌, refl, sym, ap, ◌∙◌, Option, none, some, List, [], ◌∷◌, ◌++◌, arith, ◌==◌, ==_iff,
  length, length-append, All, Bool-cases, Option-cases, inl, inr, append_assoc,
}
use aragon_zk_governance.Outcome.{ok, >>=-eq-ok, ok-injective}
use aragon_zk_governance.Config.{Address, Bytes, Asset, Delegation}
use aragon_zk_governance.Steel.{Env}
use aragon_zk_governance.Crates.{Crates}
use aragon_zk_governance.Guest.Delegation.{
  addresses, all_valid, valid_or_bail, check_delegate, check_delegates, split_process,
}
use aragon_zk_governance.Guest.Delegation.Addresses.{
  join, IsAddress, join-addresses, addresses-join,
}

join-append : (as' bs : List Address) → join (as' ++ bs) ≡ join as' ++ join bs
join-append [] bs = refl
join-append (a ∷ as') bs = rw (join-append as' bs) (sym (append_assoc a (join as') (join bs)))

All-append :
    (as' bs : List Address) → All IsAddress as' → All IsAddress bs → All IsAddress (as' ++ bs)
All-append [] bs ha hb = hb
All-append (a ∷ as') bs ha hb = (ha.0, All-append as' bs ha.1 hb)

-- Data of whole addresses is cut into the addresses of its parts.
addresses-append :
    (xs ys : Bytes)
    → length xs % 20 ≡ 0
    → length ys % 20 ≡ 0
    → addresses (xs ++ ys) ≡ addresses xs ++ addresses ys
addresses-append xs ys hx hy =
    let (jx, ax) = join-addresses xs hx in
    let (jy, ay) = join-addresses ys hy in
    sym (ap₂ (λ (u v : Bytes). addresses (u ++ v)) jx jy)
    ∙ ap addresses (sym (join-append (addresses xs) (addresses ys)))
    ∙ addresses-join (addresses xs ++ addresses ys) (All-append (addresses xs) (addresses ys) ax ay)

-- A valid first entry is the head of the valid list.
pub all_valid-cons :
    (d : Delegation) (xs : List (Option Delegation)) {us : List Delegation}
    → all_valid (some d ∷ xs) ≡ some us
    → (vs : List Delegation) × (all_valid xs ≡ some vs) × (us ≡ d ∷ vs)
unfolding all_valid
all_valid-cons d xs h = elim (Option-cases (all_valid xs)) [
  | inl fails ↦ ground (arith, fails)
  | inr (vs, e) ↦ (vs, e, ground (arith, e))
]

all_valid-append :
    (xs ys : List (Option Delegation)) {us vs : List Delegation}
    → all_valid xs ≡ some us
    → all_valid ys ≡ some vs
    → all_valid (xs ++ ys) ≡ some (us ++ vs)
unfolding all_valid
all_valid-append [] ys hx hy = rw (← some-injective _ _ hx) hy
all_valid-append (none ∷ xs) ys hx hy = cc
all_valid-append (some d ∷ xs) ys hx hy =
    let (us', e, same) = all_valid-cons d xs hx in rw (all_valid-append xs ys e hy, same)

valid_or_bail-eq-ok :
    (xs : List (Option Delegation)) {us : List Delegation}
    → valid_or_bail xs ≡ ok us
    → all_valid xs ≡ some us
unfolding valid_or_bail
valid_or_bail-eq-ok xs h = ground arith

pub all_valid-valid_or_bail :
    (xs : List (Option Delegation)) {us : List Delegation}
    → all_valid xs ≡ some us
    → valid_or_bail xs ≡ ok us
unfolding valid_or_bail
all_valid-valid_or_bail xs h = ground arith

module _ (ext : Crates) (env : Env) (account : Address) (asset : Asset) where
  check_delegates-append :
      (as' bs : List Address) {xs ys : List (Option Delegation)}
      → check_delegates ext env account asset as' ≡ ok xs
      → check_delegates ext env account asset bs ≡ ok ys
      → check_delegates ext env account asset (as' ++ bs) ≡ ok (xs ++ ys)
  unfolding check_delegates
  check_delegates-append [] bs hx hy = rw (← ok-injective hx) hy
  check_delegates-append (a ∷ as') bs hx hy =
      let (d, hd, hx) = >>=-eq-ok (check_delegate ext env account asset a) _ hx in
      let (ds, hds, hx) = >>=-eq-ok (check_delegates ext env account asset as') _ hx in
      rw (hd, check_delegates-append as' bs hds hy, ← ok-injective hx)

  -- A success shows whole addresses and valid delegates.
  pub split_process-eq-ok :
      (xs : Bytes) {us : List Delegation}
      → split_process ext env account asset xs ≡ ok us
      → (length xs % 20 ≡ 0)
        × (ds : List (Option Delegation)) × (check_delegates ext env account asset (addresses xs)
            ≡ ok ds)
        × (all_valid ds ≡ some us)
  unfolding split_process
  split_process-eq-ok xs h = elim (Bool-cases (length xs % 20 == 0)) [
    | inl whole ↦
        let (ds, hd, hv) =
          >>=-eq-ok (check_delegates ext env account asset (addresses xs)) _ (rw whole at h) in
        ((==_iff _ 0).0 whole, ds, hd, valid_or_bail-eq-ok ds hv)
    | inr broken ↦ cc (rw broken at h)
  ]

  -- The delegations for two pieces of data together are those of each.
  pub split_process-append :
      (xs ys : Bytes) {us vs : List Delegation}
      → split_process ext env account asset xs ≡ ok us
      → split_process ext env account asset ys ≡ ok vs
      → split_process ext env account asset (xs ++ ys) ≡ ok (us ++ vs)
  unfolding split_process
  split_process-append xs ys hx hy =
      let (wx, dx, cx, vx) = split_process-eq-ok xs hx in
      let (wy, dy, cy, vy) = split_process-eq-ok ys hy in
      let whole : length (xs ++ ys) % 20 ≡ 0 = omega (arith, length-append xs ys) in
      rw
        (
          whole,
          addresses-append xs ys wx wy,
          check_delegates-append (addresses xs) (addresses ys) cx cy,
        )
        (all_valid-valid_or_bail (dx ++ dy) (all_valid-append dx dy vx vy))
