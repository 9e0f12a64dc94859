-- ===== src/Guest/Voting/Counted.antt =====
-- The power that voting_protocol.rs counts, as a sum over what the registry grants.
use aragon_zk_governance.Common.{
  ℕ, ◌+◌, ◌/◌, ◌%◌, ◌<◌, String, ◌≡◌, ◌↔◌, sym, ap, ◌∙◌, some, List, [], ◌∷◌, map, arith, length,
  All, eq_iff,
}
use aragon_zk_governance.Outcome.{ok, >>=-eq-ok, unwrap, unwrap-eq-ok, ok-injective}
use aragon_zk_governance.U256.{◌⊕◌, modulus, divide, divide_iff}
use aragon_zk_governance.Config.{Address, Bytes, Asset, Delegation}
use aragon_zk_governance.Steel.{Env}
use aragon_zk_governance.Crates.{Crates}
use aragon_zk_governance.Guest.Context.{Context, default_context, process_voting_strategy}
use aragon_zk_governance.Guest.Context.Registry.{process_delegation_strategy_by_name}
use aragon_zk_governance.Guest.Delegation.{addresses}
use aragon_zk_governance.Guest.Delegation.Valid.{IsGranted, split_process_iff}
use aragon_zk_governance.Guest.Voting.{
  fold_delegations, delegations_or_panic, asset_voting_power, sum_voting_power,
}
use aragon_zk_governance.Guest.Voting.Inversion.{split_of_process, asset_voting_power-eq-ok}

abbrev pub total : List ℕ → ℕ
total [] = 0
total (n ∷ ns) = n + total ns

-- Each delegation with its share: the delegate's power by the ratio, which is not 0.
abbrev pub AreShares : Context → Asset → List Delegation → List ℕ → Type 0
AreShares c asset [] [] = Unit {0}
AreShares c asset [] (s ∷ ss) = ⊥
AreShares c asset (d ∷ ds) [] = ⊥
AreShares c asset (d ∷ ds) (s ∷ ss) =
    ((power : ℕ) × (process_voting_strategy c asset.voting_power_strategy d.delegate asset
        ≡ ok power)
      × (0 < d.ratio)
      × (s ≡ power / d.ratio))
    × AreShares c asset ds ss

module _ (c : Context) (asset : Asset) where
  fold_delegations-AreShares :
      (acc : ℕ) (ds : List Delegation) {sum : ℕ}
      → acc < modulus
      → fold_delegations c asset acc ds ≡ ok sum
      → (ss : List ℕ) × AreShares c asset ds ss × (sum ≡ (total ss + acc) % modulus)
  unfolding fold_delegations ◌⊕◌
  fold_delegations-AreShares acc [] small h = ([], tt, (sym (ok-injective h) ∙ omega arith))
  fold_delegations-AreShares acc (d ∷ ds) small h =
      let (power, hp, h) =
        >>=-eq-ok (process_voting_strategy c asset.voting_power_strategy d.delegate asset) _ h in
      let (share, hs, h) = >>=-eq-ok (divide power d.ratio) _ h in
      let (positive, quotient) = (divide_iff power d.ratio share).0 hs in
      let (ss, are, e) = fold_delegations-AreShares ((share + acc) % modulus) ds (omega arith) h in
      (share ∷ ss, ((power, hp, positive, quotient), are), omega arith)

  AreShares-fold_delegations :
      (acc : ℕ) (ds : List Delegation) (ss : List ℕ)
      → acc < modulus
      → AreShares c asset ds ss
      → fold_delegations c asset acc ds ≡ ok ((total ss + acc) % modulus)
  unfolding fold_delegations ◌⊕◌
  AreShares-fold_delegations acc [] [] small are = ap ok (omega arith)
  AreShares-fold_delegations acc [] (s ∷ ss) small are = elim are [ ]
  AreShares-fold_delegations acc (d ∷ ds) [] small are = elim are [ ]
  AreShares-fold_delegations acc (d ∷ ds) (s ∷ ss) small ((power, hp, positive, quotient), are) =
      rw (hp, (divide_iff power d.ratio s).1 (positive, quotient))
        (AreShares-fold_delegations ((s + acc) % modulus) ds ss (omega arith) are
          ∙ ap ok (omega arith))

module _ (ext : Crates) (env : Env) (voter : Address) (text : String) where
  -- The voter's power over one asset: the delegation data is a list of addresses, the registry
  -- grants the voter a ratio for each, and the power is the sum of the shares, modulo 2 ^ 256.
  pub record IsCounted (asset : Asset) (power : ℕ) : Type 0 where
    pub data_bytes : Bytes
    pub parsed : ext.bytes_from_str text ≡ some data_bytes
    pub strategy : asset.delegation.strategy ≡ "SplitDelegation"
    pub whole : length data_bytes % 20 ≡ 0
    pub delegations : List Delegation
    pub listed : map (λ (d : Delegation). d.delegate) delegations ≡ addresses data_bytes
    pub granted : All (IsGranted ext env voter asset) delegations
    pub shares : List ℕ
    pub divided : AreShares (default_context ext env) asset delegations shares
    pub sum : power ≡ total shares % modulus

  asset_voting_power-IsCounted :
      (asset : Asset) (power : ℕ)
      → asset_voting_power ext (default_context ext env) voter text asset ≡ ok power
      → IsCounted asset power
  unfolding asset_voting_power
  asset_voting_power-IsCounted asset power h =
      let (xs, hx, _) = >>=-eq-ok (unwrap (ext.bytes_from_str text) "Bytes::from_str") _ h in
      let parsed = unwrap-eq-ok (ext.bytes_from_str text) _ hx in
      let (us, hu, hf) = asset_voting_power-eq-ok ext env voter asset text parsed h in
      let (named, split) = split_of_process ext env voter asset xs hu in
      let (whole, listed, granted) = (split_process_iff ext env voter asset xs us).0 split in
      let (ss, are, e) =
        fold_delegations-AreShares (default_context ext env) asset 0 us (omega arith) hf in
      record {
        data_bytes = xs;
        parsed = parsed;
        strategy = sym ((eq_iff "SplitDelegation" asset.delegation.strategy).0 named);
        whole = whole;
        delegations = us;
        listed = listed;
        granted = granted;
        shares = ss;
        divided = are;
        sum = e ∙ omega arith;
      }

  IsCounted-asset_voting_power :
      (asset : Asset) (power : ℕ)
      → IsCounted asset power
      → asset_voting_power ext (default_context ext env) voter text asset ≡ ok power
  unfolding asset_voting_power delegations_or_panic
  IsCounted-asset_voting_power asset power k =
      rw
        (
          k.parsed,
          process_delegation_strategy_by_name ext env voter asset k.data_bytes,
          (eq_iff "SplitDelegation" asset.delegation.strategy).1 (sym k.strategy),
          (split_process_iff ext env voter asset k.data_bytes k.delegations).1
              (k.whole, k.listed, k.granted),
        )
        (AreShares-fold_delegations (default_context ext env) asset 0 k.delegations k.shares
            (omega arith) k.divided
          ∙ ap ok (omega (arith, k.sum)))

  -- Each asset with the power that is counted for it.
  abbrev pub AreCounted : List Asset → List ℕ → Type 0
  AreCounted [] [] = Unit {0}
  AreCounted [] (p ∷ ps) = ⊥
  AreCounted (asset ∷ assets) [] = ⊥
  AreCounted (asset ∷ assets) (p ∷ ps) = IsCounted asset p × AreCounted assets ps

  sum_voting_power-AreCounted :
      (acc : ℕ) (assets : List Asset) {sum : ℕ}
      → acc < modulus
      → sum_voting_power ext (default_context ext env) voter text acc assets ≡ ok sum
      → (ps : List ℕ) × AreCounted assets ps × (sum ≡ (acc + total ps) % modulus)
  unfolding sum_voting_power ◌⊕◌
  sum_voting_power-AreCounted acc [] small h = ([], tt, sym (ok-injective h) ∙ omega arith)
  sum_voting_power-AreCounted acc (asset ∷ assets) small h =
      let (power, hp, h) =
        >>=-eq-ok (asset_voting_power ext (default_context ext env) voter text asset) _ h in
      let (ps, are, e) =
        sum_voting_power-AreCounted ((acc + power) % modulus) assets (omega arith) h in
      (power ∷ ps, (asset_voting_power-IsCounted asset power hp, are), omega arith)

  AreCounted-sum_voting_power :
      (acc : ℕ) (assets : List Asset) (ps : List ℕ)
      → acc < modulus
      → AreCounted assets ps
      → sum_voting_power ext (default_context ext env) voter text acc assets
        ≡ ok ((acc + total ps) % modulus)
  unfolding sum_voting_power ◌⊕◌
  AreCounted-sum_voting_power acc [] [] small are = ap ok (omega arith)
  AreCounted-sum_voting_power acc [] (p ∷ ps) small are = elim are [ ]
  AreCounted-sum_voting_power acc (asset ∷ assets) [] small are = elim are [ ]
  AreCounted-sum_voting_power acc (asset ∷ assets) (p ∷ ps) small (counted, are) =
      rw (IsCounted-asset_voting_power asset p counted) (
        AreCounted-sum_voting_power ((acc + p) % modulus) assets ps (omega arith) are
        ∙ ap ok (omega arith))

  -- The voting program counts a power exactly if for each asset the delegation data is a list of
  -- addresses for each of which the registry grants the voter a ratio above 0, and the power is the
  -- sum over the assets of the sums of the delegates' powers divided by those ratios, modulo
  -- 2 ^ 256. The delegation strategy of each asset is then "SplitDelegation".
  pub sum_voting_power_iff :
      (assets : List Asset) (power : ℕ)
      → (sum_voting_power ext (default_context ext env) voter text 0 assets ≡ ok power)
        ↔ ((ps : List ℕ) × AreCounted assets ps × (power ≡ total ps % modulus))
  sum_voting_power_iff assets power = (
    λ h.
        let (ps, are, e) = sum_voting_power-AreCounted 0 assets (omega arith) h in
        (ps, are, e ∙ omega arith),
    λ (ps, are, e).
        AreCounted-sum_voting_power 0 assets ps (omega arith) are ∙ ap ok (omega (arith, e)),
  )
