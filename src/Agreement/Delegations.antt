-- ===== src/Agreement/Delegations.antt =====
-- `SplitDelegation`, host (apps/src) against guest (strategies/src).
use aragon_zk_governance.Common.{ℕ, ◌%◌, ◌≡◌, refl, some, List, [], ◌∷◌, ◌==◌, length}
use aragon_zk_governance.Outcome.{ok}
use aragon_zk_governance.U256.{◌⊕◌, divide}
use aragon_zk_governance.Config.{Address, Bytes, Asset}
use aragon_zk_governance.Steel.{Env, RegistryDelegation}
use aragon_zk_governance.Crates.{Crates}
use aragon_zk_governance.Agreement.{
  Mirrors, Mirrors-lift, Mirrors-preflight_call, Mirrors-bind, Mirrors-skip, Mirrors-if,
  Mirrors-option,
}
use aragon_zk_governance.Host.Preflight.{lift}
use aragon_zk_governance.Host.Delegation as Host
use aragon_zk_governance.Guest.Delegation as Guest

total_ratios-same :
    (acc : ℕ) (ds : List RegistryDelegation) → Host.total_ratios acc ds ≡ Guest.total_ratios acc ds
unfolding Host.total_ratios Guest.total_ratios
total_ratios-same acc [] = refl
total_ratios-same acc (d ∷ ds) = total_ratios-same (acc ⊕ d.ratio) ds

find_delegation-same :
    (account : Address) (ds : List RegistryDelegation)
    → Host.find_delegation account ds ≡ Guest.find_delegation account ds
unfolding Host.find_delegation Guest.find_delegation Guest.compare_bytes32_to_address
    Host.compare_bytes32_to_address
find_delegation-same account [] = refl
find_delegation-same account (d ∷ ds) = rw (find_delegation-same account ds)

module _ {h g : Env} where
  match_delegation-Mirrors :
      (account delegate : Address) (ds : List RegistryDelegation)
      → Mirrors h g
          (Host.match_delegation account delegate ds)
          (Guest.match_delegation account delegate ds)
  unfolding Host.match_delegation Guest.match_delegation
  match_delegation-Mirrors account delegate [] = Mirrors-lift _
  match_delegation-Mirrors account delegate (d ∷ ds) =
      rw (find_delegation-same account (d ∷ ds), Host.match_delegation)
        (Mirrors-option (Guest.find_delegation account (d ∷ ds)) _ _ (Mirrors-lift _) λ found.
          rw (total_ratios-same 0 (d ∷ ds)) (
            Mirrors-bind {m = lift (divide (Guest.total_ratios 0 (d ∷ ds)) found.ratio)}
              {f = λ ratio. ok (some (record { delegate = delegate; ratio = ratio }))}
              (Mirrors-lift _) λ ratio. Mirrors-lift _))

  process_delegate-Mirrors :
      (ext : Crates) (account : Address) (asset : Asset) (delegate : Address)
      → Mirrors h g
          (Host.process_delegate h asset.delegation.contract
            (ext.address_to_string asset.contract)
            delegate
            account)
          (Guest.check_delegate ext g account asset delegate)
  unfolding Host.process_delegate Guest.check_delegate
  process_delegate-Mirrors ext account asset delegate =
      Mirrors-bind (Mirrors-preflight_call _) λ answer.
        Mirrors-skip (Host.print_first answer.delegations)
          (match_delegation-Mirrors account delegate answer.delegations)

  process_delegates-Mirrors :
      (ext : Crates) (account : Address) (asset : Asset) (as' : List Address)
      → Mirrors h g
          (Host.process_delegates ext h account asset as')
          (Guest.check_delegates ext g account asset as')
  unfolding Host.process_delegates Guest.check_delegates
  process_delegates-Mirrors ext account asset [] = Mirrors-lift _
  process_delegates-Mirrors ext account asset (a ∷ as') =
      Mirrors-bind (process_delegate-Mirrors ext account asset a)
        λ d. Mirrors-bind (process_delegates-Mirrors ext account asset as') λ ds. Mirrors-lift _

  pub split_process-Mirrors :
      (ext : Crates) (account : Address) (asset : Asset) (bytes : Bytes)
      → Mirrors h g
          (Host.split_process ext h account asset bytes)
          (Guest.split_process ext g account asset bytes)
  unfolding Host.split_process Guest.split_process
  split_process-Mirrors ext account asset bytes =
      Mirrors-if (length bytes % 20 == 0)
        (Mirrors-bind (process_delegates-Mirrors ext account asset (Guest.addresses bytes))
          λ ds. Mirrors-lift _)
        (Mirrors-lift _)
