-- ===== src/Plugin/Writes.antt =====
-- Reading a proposal after a write to the mapping.
use aragon_zk_governance.Common.{ℕ, ◌≡◌, ◌≢◌, refl, sym, ◌==◌, ==_iff, Bool-cases, inl, inr, arith}
use aragon_zk_governance.Plugin.{Proposal, Plugin, set_proposal}

pub set_proposal_here :
    (p : Plugin) (id : ℕ) (q : Proposal) → (set_proposal p id q).proposals id ≡ q
set_proposal_here p id q = rw ((==_iff id id).1 refl)

pub set_proposal_other :
    (p : Plugin) (id other : ℕ) (q : Proposal)
    → other ≢ id
    → (set_proposal p id q).proposals other ≡ p.proposals other
set_proposal_other p id other q ne = ground (arith, ==_iff other id)

-- The proposal that is written has the property, and so have the others, which are kept.
pub set_proposal_cases {ℓ} :
    (P : Proposal → Type ℓ) (p : Plugin) (written_id : ℕ) (q : Proposal) (id : ℕ)
    → (written_id ≡ id → P q)
    → P (p.proposals id)
    → P ((set_proposal p written_id q).proposals id)
set_proposal_cases P p written_id q id here other = elim (Bool-cases (id == written_id)) [
  | inl same ↦ rw same (here (sym ((==_iff id written_id).0 same)))
  | inr apart ↦ rw apart other
]
