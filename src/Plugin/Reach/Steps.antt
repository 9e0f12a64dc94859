-- ===== src/Plugin/Reach/Steps.antt =====
-- What a transaction does to one proposal.
use aragon_zk_governance.Common.{ℕ, ◌+◌, ◌≤◌, ◌≡◌, refl, ap, true}
use aragon_zk_governance.Guest.Voting.{Journal}
use aragon_zk_governance.Plugin.{done, VotingSettings, Proposal, Plugin, Block, Externals}
use aragon_zk_governance.Plugin.Writes.{set_proposal_cases}
use aragon_zk_governance.Plugin.Vote.{cast_vote}
use aragon_zk_governance.Plugin.Vote.Accepts.{vote_iff}
use aragon_zk_governance.Plugin.Execute.Accepts.{execute_iff}
use aragon_zk_governance.Plugin.Settings.{Request, stored}
use aragon_zk_governance.Plugin.Settings.Accepts.{
  IsAllowed, update_settings_iff, update_voting_settings_tx_lem, create_lem,
}
use aragon_zk_governance.Plugin.Reach.{Step, voted, executed, created, updated}

pub data Change (s : VotingSettings) (before after : Proposal) : Type 0 where
  kept : after ≡ before → Change s before after
  ballot : (j : Journal) → cast_vote before j ≡ done after → Change s before after
  marked : after ≡ record before { executed = true } → Change s before after
  written :
      (block : Block) (snapshot_block start end : ℕ) (r : Request)
      → start + s.min_duration ≤ end
      → after ≡ stored s block snapshot_block start end r before
      → Change s before after

-- Every transaction keeps, votes on, executes or creates each proposal.
pub step-Change :
    (ext : Externals) {p q : Plugin}
    → Step ext p q
    → (id : ℕ) → Change p.settings (p.proposals id) (q.proposals id)
step-Change ext {p} {q} (voted journal_data seal h) id =
    let v = (vote_iff ext p journal_data seal q).0 h in
    rw v.stored (
      set_proposal_cases (Change p.settings (p.proposals id)) p v.journal.proposal_id v.proposal id
        (λ same. ballot v.journal (rw same at v.cast)) (kept refl))
step-Change ext {p} {q} (executed block journal_data seal h) id =
    let e = (execute_iff ext block p journal_data seal q).0 h in
    rw e.stored (
      set_proposal_cases (Change p.settings (p.proposals id)) p e.journal.proposal_id
        (record (p.proposals e.journal.proposal_id) { executed = true }) id
        (λ same. rw same (marked refl)) (kept refl))
step-Change ext {p} {q} (created block r h) id =
    let c = create_lem ext block r p h in
    rw c.written (
      set_proposal_cases (Change p.settings (p.proposals id)) p r.proposal_id
        (stored p.settings block c.snapshot_block c.start c.end r (p.proposals r.proposal_id)) id
        (λ same. written block c.snapshot_block c.start c.end r c.lasting (
          ap (λ (k : ℕ). stored p.settings block c.snapshot_block c.start c.end r (p.proposals k))
            same))
        (kept refl))
step-Change ext {p} {q} (updated sender s h) id =
    let (_, same) =
      (update_settings_iff s p q).0 (update_voting_settings_tx_lem ext sender s p h) in
    kept (ap (λ (x : Plugin). x.proposals id) same)

-- What the settings of the storage satisfy if those that are taken do.
pub step-IsAllowed :
    (ext : Externals) {p q : Plugin} → Step ext p q → IsAllowed p.settings → IsAllowed q.settings
step-IsAllowed ext {p} {q} (voted journal_data seal h) a =
    rw ((vote_iff ext p journal_data seal q).0 h).stored a
step-IsAllowed ext {p} {q} (executed block journal_data seal h) a =
    rw ((execute_iff ext block p journal_data seal q).0 h).stored a
step-IsAllowed ext {p} {q} (created block r h) a = rw (create_lem ext block r p h).written a
step-IsAllowed ext {p} {q} (updated sender s h) a =
    let (allowed, same) =
      (update_settings_iff s p q).0 (update_voting_settings_tx_lem ext sender s p h) in
    rw same allowed
