-- ===== src/Guest/Voting/Repeats.antt =====
-- Delegation data in two pieces, which may name one account more than once (voting_protocol.rs).
use mathlib.Core.Path.{fun_ext}
use aragon_zk_governance.Steel.{Env}
use aragon_zk_governance.Common.{
  ℕ, ◌<◌, String, ◌≡◌, refl, sym, ap, ◌∙◌, some, List, [], ◌∷◌, ◌++◌, arith,
}
use aragon_zk_governance.Outcome.{ok, ◌>>=◌, >>=-eq-ok, ok-injective, bind_assoc}
use aragon_zk_governance.U256.{◌⊕◌, modulus, divide, ⊕_comm, ⊕_assoc, ⊕-lt, zero-⊕}
use aragon_zk_governance.Config.{Address, Bytes, Asset, Delegation}
use aragon_zk_governance.Crates.{Crates}
use aragon_zk_governance.Guest.Context.{Context, default_context, process_voting_strategy}
use aragon_zk_governance.Guest.Context.Registry.{process_delegation_strategy_by_name}
use aragon_zk_governance.Guest.Delegation.Append.{split_process-append}
use aragon_zk_governance.Guest.Voting.Inversion.{split_of_process, asset_voting_power-eq-ok}
use aragon_zk_governance.Guest.Voting.{fold_delegations, delegations_or_panic, asset_voting_power}

module _ (c : Context) (asset : Asset) where
  -- The fold goes on over a second list.
  fold_delegations-append :
      (acc : ℕ) (ds es : List Delegation)
      → fold_delegations c asset acc (ds ++ es)
        ≡ (fold_delegations c asset acc ds >>= λ sum. fold_delegations c asset sum es)
  unfolding fold_delegations
  fold_delegations-append acc [] es = refl
  fold_delegations-append acc (d ∷ ds) es =
      simp (bind_assoc, fun_ext λ (share : ℕ). fold_delegations-append (share ⊕ acc) ds es)

  -- What the fold starts from is added to its result.
  fold_delegations-shift :
      (acc start : ℕ) (ds : List Delegation) {sum : ℕ}
      → fold_delegations c asset acc ds ≡ ok sum
      → fold_delegations c asset (acc ⊕ start) ds ≡ ok (sum ⊕ start)
  unfolding fold_delegations
  fold_delegations-shift acc start [] h = ap (λ (n : ℕ). ok (n ⊕ start)) (ok-injective h)
  fold_delegations-shift acc start (d ∷ ds) h =
      let (power, hp, h) =
        >>=-eq-ok (process_voting_strategy c asset.voting_power_strategy d.delegate asset) _ h in
      let (share, hs, h) = >>=-eq-ok (divide power d.ratio) _ h in
      rw (hp, hs, ← ⊕_assoc) (fold_delegations-shift (share ⊕ acc) start ds h)

  fold_delegations-lt :
      (acc : ℕ) (ds : List Delegation) {sum : ℕ}
      → acc < modulus
      → fold_delegations c asset acc ds ≡ ok sum
      → sum < modulus
  unfolding fold_delegations
  fold_delegations-lt acc [] small h = rw (← ok-injective h) small
  fold_delegations-lt acc (d ∷ ds) small h =
      let (power, hp, h) =
        >>=-eq-ok (process_voting_strategy c asset.voting_power_strategy d.delegate asset) _ h in
      let (share, hs, h) = >>=-eq-ok (divide power d.ratio) _ h in
      fold_delegations-lt (share ⊕ acc) ds (⊕-lt share acc) h

  -- The sum over two lists of delegations is the sum of the sums.
  fold_delegations-add :
      (ds es : List Delegation) {p q : ℕ}
      → fold_delegations c asset 0 ds ≡ ok p
      → fold_delegations c asset 0 es ≡ ok q
      → fold_delegations c asset 0 (ds ++ es) ≡ ok (p ⊕ q)
  fold_delegations-add ds es {p} {q} hd he =
      fold_delegations-append 0 ds es
      ∙ rw hd (
          ap (λ (n : ℕ). fold_delegations c asset n es)
            (sym (zero-⊕ p (fold_delegations-lt 0 ds (omega arith) hd)))
          ∙ fold_delegations-shift 0 p es he
          ∙ ap ok (⊕_comm q p))

module _ (ext : Crates) (env : Env) (voter : Address) (asset : Asset) where
  -- The powers that a voter is given for two pieces of delegation data add up when the pieces are
  -- given as one, whatever accounts they name: one that stands in both counts twice.
  pub asset_voting_power-append :
      (t u both : String) (xs ys : Bytes) {p q : ℕ}
      → ext.bytes_from_str t ≡ some xs
      → ext.bytes_from_str u ≡ some ys
      → ext.bytes_from_str both ≡ some (xs ++ ys)
      → asset_voting_power ext (default_context ext env) voter t asset ≡ ok p
      → asset_voting_power ext (default_context ext env) voter u asset ≡ ok q
      → asset_voting_power ext (default_context ext env) voter both asset ≡ ok (p ⊕ q)
  unfolding asset_voting_power delegations_or_panic
  asset_voting_power-append t u both xs ys et eu eb ht hu =
      let (us, hx, fx) = asset_voting_power-eq-ok ext env voter asset t et ht in
      let (vs, hy, fy) = asset_voting_power-eq-ok ext env voter asset u eu hu in
      let (split, sx) = split_of_process ext env voter asset xs hx in
      let (_, sy) = split_of_process ext env voter asset ys hy in
      rw
        (
          eb,
          process_delegation_strategy_by_name ext env voter asset (xs ++ ys),
          split,
          split_process-append ext env voter asset xs ys sx sy,
        )
        (fold_delegations-add (default_context ext env) asset us vs fx fy)
