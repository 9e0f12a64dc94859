-- ===== src/Agreement/VotingPower.antt =====
-- The voting power strategies and the context's dispatch to them, host against guest. The two sides
-- ask `GetPastVotes` about different blocks, so an asset that uses it is left out.
use aragon_zk_governance.Common.{
  String, ◌≡◌, ◌≢◌, Bool, true, false, none, some, arith, str_eq, eq_iff, if◌then◌else◌,
}
use aragon_zk_governance.Common.Dict.{lookup, insert}
use aragon_zk_governance.Outcome.{Outcome}
use aragon_zk_governance.Config.{Address, Asset}
use aragon_zk_governance.Steel.{Env, balance_of, get_total_supply}
use aragon_zk_governance.Crates.{Crates}
use aragon_zk_governance.Agreement.{Mirrors, Mirrors-lift, Mirrors-err, Mirrors-preflight_call}
use aragon_zk_governance.Host.Preflight.{Preflight}
use aragon_zk_governance.Host.VotingPower as HostPower
use aragon_zk_governance.Host.Context as HostContext
use aragon_zk_governance.Guest.VotingPower as GuestPower
use aragon_zk_governance.Guest.Context as GuestContext

-- The strategy asks both sides about the same block.
abbrev pub IsComparable : Asset → Type 0
IsComparable asset = asset.voting_power_strategy ≢ "GetPastVotes"

not_past_votes : (name : String) → name ≢ "GetPastVotes" → str_eq "GetPastVotes" name ≡ false
not_past_votes name h = ground (arith, eq_iff "GetPastVotes" name)

-- Reading two maps of two entries, of which the second is not asked for.
two_names-Mirrors {ℓ κ μ} :
    {h g : Env} {V : Type ℓ} {W : Type κ} {A : Type μ} (p q : Bool) (u v : V) (x y : W)
    {missing : Preflight A} {missing' : Outcome A} (f : V → Preflight A) (k : W → Outcome A)
    → q ≡ false
    → Mirrors h g missing missing'
    → Mirrors h g (f u) (k x)
    → Mirrors h g
        (elim (if p then some u else if q then some v else none) [ none ↦ missing | some s ↦ f s ])
        (elim (if p then some x else if q then some y else none) [ none ↦ missing' | some s ↦ k s ])
two_names-Mirrors true q u v x y f k e absent present = present
two_names-Mirrors false true u v x y f k e absent present = cc
two_names-Mirrors false false u v x y f k e absent present = absent

module _ (ext : Crates) (h g : Env) (asset : Asset) (comparable : IsComparable asset) where
  pub process_voting_power-Mirrors :
      (account : Address)
      → Mirrors h g
          (HostContext.process_voting_power_strategy
            (HostContext.default_context ext h)
            asset.voting_power_strategy
            account
            asset)
          (GuestContext.process_voting_strategy
            (GuestContext.default_context ext g)
            asset.voting_power_strategy
            account
            asset)
  unfolding HostContext.process_voting_power_strategy HostContext.default_context
      GuestContext.process_voting_strategy GuestContext.default_context lookup insert
      HostPower.balance_of_process GuestPower.balance_of_process
  process_voting_power-Mirrors account =
      two_names-Mirrors (str_eq "BalanceOf" asset.voting_power_strategy)
        (str_eq "GetPastVotes" asset.voting_power_strategy) HostPower.balance_of_strategy
        HostPower.past_votes_strategy GuestPower.balance_of_strategy GuestPower.past_votes_strategy
        (λ s. s.process h account asset) (λ s. s.process g account asset)
        (not_past_votes asset.voting_power_strategy comparable) (Mirrors-lift _)
        (Mirrors-preflight_call (balance_of asset.contract account))

  pub process_total_supply-Mirrors :
      Mirrors h g
        (HostContext.process_total_supply (HostContext.default_context ext h) asset)
        (GuestContext.process_total_supply (GuestContext.default_context ext g) asset)
  unfolding HostContext.process_total_supply HostContext.default_context
      GuestContext.process_total_supply GuestContext.default_context lookup insert
      HostPower.balance_of_supply GuestPower.balance_of_supply
  process_total_supply-Mirrors =
      two_names-Mirrors (str_eq "BalanceOf" asset.voting_power_strategy)
        (str_eq "GetPastVotes" asset.voting_power_strategy) HostPower.balance_of_strategy
        HostPower.past_votes_strategy GuestPower.balance_of_strategy GuestPower.past_votes_strategy
        (λ s. s.get_supply h asset) (λ s. s.get_supply g asset)
        (not_past_votes asset.voting_power_strategy comparable) (Mirrors-err _ _)
        (Mirrors-preflight_call (get_total_supply asset.contract))
