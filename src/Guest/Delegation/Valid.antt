-- ===== src/Guest/Delegation/Valid.antt =====
-- Which delegations `SplitDelegation` of strategies/src returns: the specification by the registry.
use mathlib.Core.Option.{some-injective}
use aragon_zk_governance.Common.{
  ℕ, ◌%◌, ◌/◌, ◌<◌, ◌≡◌, ◌↔◌, inl, inr, refl, sym, ap, ◌∙◌, Option, none, some, List, [], ◌∷◌, map,
  length, All, Option-cases,
}
use aragon_zk_governance.Outcome.{ok, >>=-eq-ok, ok-injective}
use aragon_zk_governance.U256.{divide, divide_iff}
use aragon_zk_governance.Config.{Address, Bytes, Asset, Delegation}
use aragon_zk_governance.Steel.{
  Env, DelegationReturn, RegistryDelegation, get_delegation, call, call_iff,
}
use aragon_zk_governance.Crates.{Crates}
use aragon_zk_governance.Guest.Delegation.{
  addresses, total_ratios, find_delegation, match_delegation, all_valid, check_delegate,
  check_delegates, split_process,
}
use aragon_zk_governance.Guest.Delegation.Append.{
  all_valid-cons, all_valid-valid_or_bail, split_process-eq-ok,
}

-- What the registry's entries for a delegate give the account: ratio 1 where there are none, and
-- else, by the first entry that names the account, the sum of the ratios by that entry's, not 0.
abbrev pub Grants : Address → List RegistryDelegation → ℕ → Type 0
Grants account [] ratio = ratio ≡ 1
Grants account (d ∷ ds) ratio =
    (found : RegistryDelegation) × (find_delegation account (d ∷ ds) ≡ some found)
    × (0 < found.ratio)
    × (ratio ≡ total_ratios 0 (d ∷ ds) / found.ratio)

match_delegation-Grants :
    (account delegate : Address) (ds : List RegistryDelegation) (x : Delegation)
    → match_delegation account delegate ds ≡ ok (some x)
    → (x.delegate ≡ delegate) × Grants account ds x.ratio
unfolding match_delegation
match_delegation-Grants account delegate [] x h =
    let e = some-injective _ _ (ok-injective h) in
    (sym (ap (λ (d : Delegation). d.delegate) e), sym (ap (λ (d : Delegation). d.ratio) e))
match_delegation-Grants account delegate (d ∷ ds) x h =
    elim (Option-cases (find_delegation account (d ∷ ds))) [
      | inl missing ↦ cc (rw (missing, match_delegation) at h)
      | inr (found, e) ↦
          let (ratio, divided, h1) =
            >>=-eq-ok (divide (total_ratios 0 (d ∷ ds)) found.ratio) _
              (rw (e, match_delegation) at h) in
          let (positive, quotient) = (divide_iff _ _ _).0 divided in
          let same = some-injective _ _ (ok-injective h1) in
          (
            sym (ap (λ (y : Delegation). y.delegate) same),
            (found, e, positive, sym (ap (λ (y : Delegation). y.ratio) same) ∙ quotient),
          )
    ]

Grants-match_delegation :
    (account : Address) (ds : List RegistryDelegation) (x : Delegation)
    → Grants account ds x.ratio
    → match_delegation account x.delegate ds ≡ ok (some x)
unfolding match_delegation
Grants-match_delegation account [] x h = rw (← h)
Grants-match_delegation account (d ∷ ds) x (found, e, positive, quotient) =
    rw (e, match_delegation)
      (rw ((divide_iff (total_ratios 0 (d ∷ ds)) found.ratio _).1 (positive, refl), ← quotient))

module _ (ext : Crates) (env : Env) (account : Address) (asset : Asset) where
  -- The delegate's entries in the registry grant the account this ratio.
  pub record IsGranted (x : Delegation) : Type 0 where
    pub answer : DelegationReturn
    pub answered :
        env.answer (
          get_delegation asset.delegation.contract
            (ext.address_to_string asset.contract)
            x.delegate)
        ≡ some answer
    pub grants : Grants account answer.delegations x.ratio

  check_delegate-IsGranted :
      (a : Address) (x : Delegation)
      → check_delegate ext env account asset a ≡ ok (some x)
      → (x.delegate ≡ a) × IsGranted x
  unfolding check_delegate
  check_delegate-IsGranted a x h =
      let c = get_delegation asset.delegation.contract (ext.address_to_string asset.contract) a in
      let (answer, called, h1) = >>=-eq-ok (call env c) _ h in
      let (same, grants) = match_delegation-Grants account a answer.delegations x h1 in
      (
        same,
        record {
          answer = answer;
          answered = rw same ((call_iff env c answer).0 called);
          grants = grants;
        },
      )

  IsGranted-check_delegate :
      (x : Delegation) → IsGranted x → check_delegate ext env account asset x.delegate ≡ ok (some x)
  unfolding check_delegate
  IsGranted-check_delegate x g =
      rw ((call_iff env _ g.answer).1 g.answered)
        (Grants-match_delegation account g.answer.delegations x g.grants)

  abbrev delegate_of : Delegation → Address
  delegate_of x = x.delegate

  IsGranted-cons :
      (a : Address) (as' : List Address) (o : Option Delegation) (os : List (Option Delegation))
      (us : List Delegation)
      → check_delegate ext env account asset a ≡ ok o
      → all_valid (o ∷ os) ≡ some us
      → ((vs : List Delegation)
          → all_valid os ≡ some vs
          → (map delegate_of vs ≡ as') × All IsGranted vs)
      → (map delegate_of us ≡ a ∷ as') × All IsGranted us
  unfolding all_valid
  IsGranted-cons a as' none os us ho v rest = cc
  IsGranted-cons a as' (some x) os us ho v rest =
      let (vs, hv, same) = all_valid-cons x os v in
      let (listed, granted) = rest vs hv in
      let (head, grant) = check_delegate-IsGranted a x ho in
      rw same (cc (head, listed), (grant, granted))

  check_delegates-IsGranted :
      (as' : List Address) (ds : List (Option Delegation)) (us : List Delegation)
      → check_delegates ext env account asset as' ≡ ok ds
      → all_valid ds ≡ some us
      → (map delegate_of us ≡ as') × All IsGranted us
  unfolding check_delegates all_valid
  check_delegates-IsGranted [] ds us h v =
      let nil : us ≡ [] = some-injective _ _ (sym (rw (← ok-injective h, all_valid) at v)) in
      rw nil (refl, tt)
  check_delegates-IsGranted (a ∷ as') ds us h v =
      let (o, ho, h1) = >>=-eq-ok (check_delegate ext env account asset a) _ h in
      let (os, hos, h2) = >>=-eq-ok (check_delegates ext env account asset as') _ h1 in
      IsGranted-cons a as' o os us ho (rw (← ok-injective h2) at v)
        (λ vs. check_delegates-IsGranted as' os vs hos)

  IsGranted-check_delegates :
      (us : List Delegation)
      → All IsGranted us
      → check_delegates ext env account asset (map delegate_of us) ≡ ok (map some us)
  unfolding check_delegates all_valid
  IsGranted-check_delegates [] h = refl
  IsGranted-check_delegates (x ∷ us) h =
      rw (IsGranted-check_delegate x h.0, IsGranted-check_delegates us h.1)

  all_valid-map-some : (us : List Delegation) → all_valid (map some us) ≡ some us
  unfolding all_valid
  all_valid-map-some [] = refl
  all_valid-map-some (x ∷ us) = rw (all_valid-map-some us)

  -- `SplitDelegation` succeeds exactly with one delegation for each address of the data, in order,
  -- each with the ratio that the registry grants the account; the data must be whole addresses.
  pub split_process_iff :
      (xs : Bytes) (us : List Delegation)
      → (split_process ext env account asset xs ≡ ok us)
        ↔ ((length xs % 20 ≡ 0) × (map delegate_of us ≡ addresses xs) × All IsGranted us)
  unfolding split_process
  split_process_iff xs us = (
    λ h.
        let (whole, ds, checked, valid) = split_process-eq-ok ext env account asset xs h in
        let (listed, granted) = check_delegates-IsGranted (addresses xs) ds us checked valid in
        (whole, listed, granted),
    λ (whole, listed, granted).
        rw (whole, ← listed, IsGranted-check_delegates us granted)
          (all_valid-valid_or_bail (map some us) (all_valid-map-some us)),
  )
