-- ===== src/Plugin/Reach/Frozen.antt =====
-- The parameters of a proposal after its creation.
use aragon_zk_governance.Common.{ℕ, ◌≡◌, ◌≢◌, refl, ap, ◌∙◌}
use aragon_zk_governance.Plugin.{Proposal, Plugin, set_proposal, Externals}
use aragon_zk_governance.Plugin.Writes.{set_proposal_cases, set_proposal_other}
use aragon_zk_governance.Plugin.Vote.Accepts.{vote_iff}
use aragon_zk_governance.Plugin.Vote.Counts.{cast_vote_lem}
use aragon_zk_governance.Plugin.Execute.Accepts.{execute_iff}
use aragon_zk_governance.Plugin.Settings.{initialize}
use aragon_zk_governance.Plugin.Settings.Accepts.{
  update_settings_iff, update_voting_settings_tx_lem, create_lem,
}
use aragon_zk_governance.Plugin.Reach.{
  voted, executed, created, updated, Runs, here, next, Reach, begun, no_parameters,
}

-- The number is not given to a proposal that is created.
abbrev pub IsUnused : (ext : Externals) → ℕ → {p q : Plugin} → Runs ext p q → Type 0
IsUnused ext id here = Unit {0}
IsUnused ext id (next runs (voted journal_data seal h)) = IsUnused ext id runs
IsUnused ext id (next runs (executed block journal_data seal h)) = IsUnused ext id runs
IsUnused ext id (next runs (created block r h)) = (id ≢ r.proposal_id) × IsUnused ext id runs
IsUnused ext id (next runs (updated sender s h)) = IsUnused ext id runs

-- The contract stays itself, and the proposal keeps its parameters.
abbrev pub IsFrozen : ℕ → Plugin → Plugin → Type 0
IsFrozen id p q = (q.this ≡ p.this) × ((q.proposals id).parameters ≡ (p.proposals id).parameters)

-- A proposal is written with the parameters that it had.
write-IsFrozen :
    (id : ℕ) (p : Plugin) (k : ℕ) (new : Proposal)
    → new.parameters ≡ (p.proposals k).parameters
    → IsFrozen id p (set_proposal p k new)
write-IsFrozen id p k new same = (
  refl,
  set_proposal_cases (λ (x : Proposal). x.parameters ≡ (p.proposals id).parameters) p k new id
      (λ here_id. same ∙ ap (λ (n : ℕ). (p.proposals n).parameters) here_id) refl,
)

IsFrozen-trans : (id : ℕ) (p q r : Plugin) → IsFrozen id p q → IsFrozen id q r → IsFrozen id p r
IsFrozen-trans id p q r (this, parameters) (this', parameters') =
    (this' ∙ this, parameters' ∙ parameters)

-- Whatever is done with the plugin, a proposal keeps its parameters, the configuration that the
-- programs read among them, unless its number is given again: votes and executions do not touch them,
-- and new settings are for later proposals.
pub Runs-IsFrozen :
    (ext : Externals) (id : ℕ) (p q : Plugin) (runs : Runs ext p q)
    → IsUnused ext id runs
    → IsFrozen id p q
Runs-IsFrozen ext id p q here unused = (refl, refl)
Runs-IsFrozen ext id p q (next {q = r} runs (voted journal_data seal h)) unused =
    let v = (vote_iff ext r journal_data seal q).0 h in
    let (_, recount) = cast_vote_lem (r.proposals v.journal.proposal_id) v.journal v.cast in
    let kept = ap (λ (x : Proposal). x.parameters) recount.same_but_voters in
    IsFrozen-trans id p r q (Runs-IsFrozen ext id p r runs unused)
      (rw v.stored (write-IsFrozen id r v.journal.proposal_id v.proposal kept))
Runs-IsFrozen ext id p q (next {q = r} runs (executed block journal_data seal h)) unused =
    let e = (execute_iff ext block r journal_data seal q).0 h in
    IsFrozen-trans id p r q (Runs-IsFrozen ext id p r runs unused)
      (rw e.stored (write-IsFrozen id r e.journal.proposal_id _ refl))
Runs-IsFrozen ext id p q (next {q = r} runs (created block request h)) (ne, unused) =
    let f = create_lem ext block request r h in
    IsFrozen-trans id p r q (Runs-IsFrozen ext id p r runs unused) (
      rw f.written (
        refl,
        ap (λ (x : Proposal). x.parameters) (set_proposal_other r request.proposal_id id _ ne),
      ))
Runs-IsFrozen ext id p q (next {q = r} runs (updated sender s h)) unused =
    let (_, same) =
      (update_settings_iff s r q).0 (update_voting_settings_tx_lem ext sender s r h) in
    rw same (Runs-IsFrozen ext id p r runs unused)

-- A number that was never given has a proposal with zeros for parameters.
pub Reach-no_parameters :
    (ext : Externals) (id : ℕ) (p : Plugin) (reach : Reach ext p)
    → IsUnused ext id reach.runs
    → (p.proposals id).parameters ≡ no_parameters
unfolding initialize
Reach-no_parameters ext id p reach unused =
    let (_, same) =
      (update_settings_iff reach.settings (begun reach.this reach.zeros) reach.first).0
        reach.initialized in
    (Runs-IsFrozen ext id reach.first p reach.runs unused).1 ∙ rw same refl
