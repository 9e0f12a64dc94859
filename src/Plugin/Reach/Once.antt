-- ===== src/Plugin/Reach/Once.antt =====
-- Executions of one proposal in a run.
use aragon_zk_governance.Common.{ℕ, ◌≡◌, ◌≢◌, refl, ap, true, some, arith}
use aragon_zk_governance.Config.{Bytes}
use aragon_zk_governance.Guest.Voting.{Journal}
use aragon_zk_governance.Plugin.{done, VotingSettings, Proposal, Plugin, Block, Externals}
use aragon_zk_governance.Plugin.Vote.Counts.{cast_vote_lem}
use aragon_zk_governance.Plugin.Execute.{can_execute, execute}
use aragon_zk_governance.Plugin.Execute.Accepts.{execute_iff}
use aragon_zk_governance.Plugin.Settings.{stored}
use aragon_zk_governance.Plugin.Reach.{Runs, here, next}
use aragon_zk_governance.Plugin.Writes.{set_proposal_here}
use aragon_zk_governance.Plugin.Reach.Steps.{Change, kept, ballot, marked, written, step-Change}

Change-executed :
    {s : VotingSettings} {before after : Proposal}
    → Change s before after
    → before.executed ≡ true
    → after.executed ≡ true
unfolding stored
Change-executed (kept same) h = rw same h
Change-executed {s} {before} (ballot j cast) h =
    let (option, r) = cast_vote_lem before j cast in rw r.same_but_voters h
Change-executed (marked same) h = rw same refl
Change-executed (written block snapshot_block start end r lasting same) h = rw same h

Runs-executed :
    (ext : Externals) {p q : Plugin}
    → Runs ext p q
    → (id : ℕ) → (p.proposals id).executed ≡ true
    → (q.proposals id).executed ≡ true
Runs-executed ext here id h = h
Runs-executed ext (next runs step) id h =
    Change-executed (step-Change ext step id) (Runs-executed ext runs id h)

can_execute-executed :
    (block : Block) (p : Plugin) (id : ℕ)
    → (p.proposals id).executed ≡ true
    → can_execute block p id ≢ done true
unfolding can_execute
can_execute-executed block p id h = ground (arith, h)

-- After a successful `execute` for a proposal, no later one for it succeeds: whatever transactions
-- lie between the two, and whatever the two journals, seals and times.
pub execute-once :
    (ext : Externals) (block block' : Block) (p q q' after : Plugin)
    (journal_data seal journal_data' seal' : Bytes) (j j' : Journal)
    → ext.decode_execution_journal journal_data ≡ some j
    → ext.decode_execution_journal journal_data' ≡ some j'
    → j'.proposal_id ≡ j.proposal_id
    → execute ext block p journal_data seal ≡ done q
    → Runs ext q q'
    → execute ext block' q' journal_data' seal' ≢ done after
execute-once ext block block' p q q' after journal_data seal journal_data' seal' j j' d d' same h
      runs h' =
    let e = (execute_iff ext block p journal_data seal q).0 h in
    let e' = (execute_iff ext block' q' journal_data' seal' after).0 h' in
    let first : e.journal ≡ j = cc in
    let second : e'.journal ≡ j' = cc in
    let id = e.journal.proposal_id in
    let marked : (q.proposals id).executed ≡ true =
      rw e.stored (ap (λ (x : Proposal). x.executed) (set_proposal_here p id _)) in
    let again : e'.journal.proposal_id ≡ id = cc in
    can_execute-executed block' q' id (Runs-executed ext runs id marked) (rw again at e'.allowed)
