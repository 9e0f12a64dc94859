-- ===== src/Agreement/Vote.antt =====
-- The counted voting power, host against guest, and what it gives for a whole vote: the preflight of
-- apps/src/bin/publisher.rs against the program of voting_protocol.rs.
use aragon_zk_governance.Common.{ℕ, String, ◌≡◌, refl, ap, ◌∙◌, List, [], ◌∷◌, str_eq, All}
use aragon_zk_governance.Common.Dict.{lookup, insert}
use aragon_zk_governance.Outcome.{Outcome, ok, err, panic}
use aragon_zk_governance.U256.{◌⊕◌, divide, ⊕_comm}
use aragon_zk_governance.Config.{Address, Bytes, Asset, Delegation}
use aragon_zk_governance.Steel.{Env, voting_protocol_config}
use aragon_zk_governance.Crates.{Crates}
use aragon_zk_governance.Agreement.{
  Mirrors, Mirrors-lift, Mirrors-panic, Mirrors-try_call, Mirrors-bind, one_name-Mirrors,
}
use aragon_zk_governance.Agreement.VotingPower.{IsComparable, process_voting_power-Mirrors}
use aragon_zk_governance.Agreement.Delegations.{split_process-Mirrors}
use aragon_zk_governance.Host.Preflight.{Preflight, settled, err_panics}
use aragon_zk_governance.Host.Context as HostContext
use aragon_zk_governance.Host.Delegation as HostDelegation
use aragon_zk_governance.Guest.Delegation as GuestDelegation
use aragon_zk_governance.Host.Publisher as Publisher
use aragon_zk_governance.Guest.Context as GuestContext
use aragon_zk_governance.Guest.Voting as Voting

err_panics-eq-ok :
    (o : Outcome (List Delegation)) {ds : List Delegation} → err_panics o ≡ ok ds → o ≡ ok ds
err_panics-eq-ok (ok ds) e = e
err_panics-eq-ok (err x) e = cc
err_panics-eq-ok (panic p) e = cc

module _ (ext : Crates) {h g : Env} where
  process_delegation-Mirrors :
      (account : Address) (asset : Asset) (bytes : Bytes)
      → Mirrors h g
          (HostContext.process_delegation_strategy
            (HostContext.default_context ext h)
            account
            asset
            bytes)
          (GuestContext.process_delegation_strategy
            (GuestContext.default_context ext g)
            account
            asset
            bytes)
  unfolding HostContext.process_delegation_strategy HostContext.default_context
      GuestContext.process_delegation_strategy GuestContext.default_context lookup insert
  process_delegation-Mirrors account asset bytes =
      one_name-Mirrors (str_eq "SplitDelegation" asset.delegation.strategy)
        (HostDelegation.split_delegation ext) (GuestDelegation.split_delegation ext)
        (λ s. s.process h account asset bytes) (λ s. s.process g account asset bytes)
        (Mirrors-panic _ _) (split_process-Mirrors ext account asset bytes)

  settled-Mirrors :
      (m : Preflight (List Delegation)) (o : Outcome (List Delegation))
      → Mirrors h g m o
      → Mirrors h g (settled m) (Voting.delegations_or_panic o)
  unfolding Voting.delegations_or_panic
  settled-Mirrors m o mm = record {
    keeps = mm.keeps;
    follows = λ log ds e agree.
        ap Voting.delegations_or_panic (mm.follows log ds (err_panics-eq-ok (m log).0 e) agree)
        ∙ refl;
  }

  sum_delegations-Mirrors :
      (asset : Asset) (acc : ℕ) (ds : List Delegation)
      → IsComparable asset
      → Mirrors h g
          (Publisher.sum_delegations (HostContext.default_context ext h) asset acc ds)
          (Voting.fold_delegations (GuestContext.default_context ext g) asset acc ds)
  unfolding Publisher.sum_delegations Voting.fold_delegations
  sum_delegations-Mirrors asset acc [] comparable = Mirrors-lift _
  sum_delegations-Mirrors asset acc (d ∷ ds) comparable =
      Mirrors-bind (process_voting_power-Mirrors ext h g asset comparable d.delegate) λ power.
        Mirrors-bind (Mirrors-lift (divide power d.ratio))
          λ share. rw (⊕_comm acc share) (sum_delegations-Mirrors asset (share ⊕ acc) ds comparable)

  asset_power-Mirrors :
      (voter : Address) (text : String) (asset : Asset)
      → IsComparable asset
      → Mirrors h g
          (Publisher.asset_power ext (HostContext.default_context ext h) voter text asset)
          (Voting.asset_voting_power ext (GuestContext.default_context ext g) voter text asset)
  unfolding Publisher.asset_power Voting.asset_voting_power
  asset_power-Mirrors voter text asset comparable = Mirrors-bind (Mirrors-lift _) λ bytes.
      Mirrors-bind (settled-Mirrors _ _ (process_delegation-Mirrors voter asset bytes))
        λ ds. sum_delegations-Mirrors asset 0 ds comparable

  -- The power that the publisher counts is the power that the guest counts, over the recorded calls.
  pub sum_assets-Mirrors :
      (voter : Address) (text : String) (acc : ℕ) (assets : List Asset)
      → All IsComparable assets
      → Mirrors h g
          (Publisher.sum_assets ext (HostContext.default_context ext h) voter text acc assets)
          (Voting.sum_voting_power ext (GuestContext.default_context ext g) voter text acc assets)
  unfolding Publisher.sum_assets Voting.sum_voting_power
  sum_assets-Mirrors voter text acc [] comparable = Mirrors-lift _
  sum_assets-Mirrors voter text acc (asset ∷ assets) comparable =
      Mirrors-bind (asset_power-Mirrors voter text asset comparable.0)
        λ power. sum_assets-Mirrors voter text (acc ⊕ power) assets comparable.1

  pub fetch_config-Mirrors :
      (contract : Address) (proposal_id : ℕ)
      → Mirrors h g
          (Publisher.fetch_config ext h contract proposal_id)
          (Voting.read_config ext g contract proposal_id)
  unfolding Publisher.fetch_config Voting.read_config
  fetch_config-Mirrors contract proposal_id =
      Mirrors-bind (Mirrors-try_call (voting_protocol_config contract proposal_id))
        λ text. Mirrors-lift _
