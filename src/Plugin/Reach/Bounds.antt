-- ===== src/Plugin/Reach/Bounds.antt =====
-- The bounds of the settings and of the proposals.
use aragon_zk_governance.Common.{ℕ, ◌+◌, ◌≤◌, ◌≡◌, ◌⊎◌, inl, inr, refl, arith}
use aragon_zk_governance.Plugin.{VotingSettings, Proposal, ProposalParameters, Plugin, Externals}
use aragon_zk_governance.Plugin.Vote.Counts.{cast_vote_lem}
use aragon_zk_governance.Plugin.Settings.{initialize, stored}
use aragon_zk_governance.Plugin.Settings.Accepts.{IsAllowed, update_settings_iff}
use aragon_zk_governance.Plugin.Reach.{Runs, here, next, Reach, no_parameters, begun}
use aragon_zk_governance.Plugin.Reach.Steps.{
  Change, kept, ballot, marked, written, step-Change, step-IsAllowed,
}

-- The parameters were never written, or the proposal lasts at least an hour and its threshold is
-- below the whole.
abbrev pub HasBounds : ProposalParameters → Type 0
HasBounds x =
    (x ≡ no_parameters) ⊎ ((x.start_date + 3600 ≤ x.end_date) × (x.support_threshold ≤ 999999))

Change-HasBounds :
    {s : VotingSettings} {before after : Proposal}
    → Change s before after
    → IsAllowed s
    → HasBounds before.parameters
    → HasBounds after.parameters
unfolding stored
Change-HasBounds (kept same) a h = rw same h
Change-HasBounds {s} {before} (ballot j cast) a h =
    let (option, r) = cast_vote_lem before j cast in rw r.same_but_voters h
Change-HasBounds (marked same) a h = rw same h
Change-HasBounds (written block snapshot_block start end r lasting same) a h =
    rw same (inr (omega (arith, lasting, a.hour), a.threshold))

Runs-HasBounds :
    (ext : Externals) {p q : Plugin}
    → Runs ext p q
    → (IsAllowed p.settings × ((id : ℕ) → HasBounds (p.proposals id).parameters))
    → (IsAllowed q.settings × ((id : ℕ) → HasBounds (q.proposals id).parameters))
Runs-HasBounds ext here h = h
Runs-HasBounds ext (next runs step) h =
    let (allowed, bounds) = Runs-HasBounds ext runs h in
    (
      step-IsAllowed ext step allowed,
      λ id. Change-HasBounds (step-Change ext step id) allowed (bounds id),
    )

-- Whatever is done with an initialised plugin, its settings stay within their bounds, and each
-- proposal has zeros for parameters or lasts at least an hour and has a threshold below 10 ^ 6.
pub Reach-HasBounds :
    (ext : Externals) (p : Plugin)
    → Reach ext p
    → IsAllowed p.settings × ((id : ℕ) → HasBounds (p.proposals id).parameters)
unfolding initialize
Reach-HasBounds ext p reach =
    let (allowed, same) =
      (update_settings_iff reach.settings (begun reach.this reach.zeros) reach.first).0
        reach.initialized in
    Runs-HasBounds ext reach.runs (rw same (allowed, λ id. inl refl))
