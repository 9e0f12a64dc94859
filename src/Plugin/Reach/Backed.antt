-- ===== src/Plugin/Reach/Backed.antt =====
-- The runs of voting_protocol.rs behind the entries of the voters.
use aragon_zk_governance.Common.{
  ℕ, ◌≡◌, ◌≢◌, refl, sym, ap, ◌∙◌, bytes_eq, bytes_eq_iff, ◌==◌, ==_iff, Bool-cases, inl, inr,
  arith,
}
use aragon_zk_governance.Config.{Address, Bytes}
use aragon_zk_governance.Crates.{Crates}
use aragon_zk_governance.Stdin.{Wire}
use aragon_zk_governance.Guest.Voting.{Journal, VotingInput}
use aragon_zk_governance.Guest.Voting.Accepts.{IsAccepted}
use aragon_zk_governance.Plugin.{
  done, VoteOption, vote_none, Proposal, Plugin, set_proposal, set_voter, Block, Externals,
}
use aragon_zk_governance.Plugin.Writes.{set_proposal_cases}
use aragon_zk_governance.Plugin.Execute.{execute}
use aragon_zk_governance.Plugin.Execute.Accepts.{execute_iff}
use aragon_zk_governance.Plugin.Settings.{Request, initialize, stored, create}
use aragon_zk_governance.Plugin.Settings.Accepts.{
  update_settings_iff, update_voting_settings_tx_lem, create_lem,
}
use aragon_zk_governance.Plugin.Vote.Counts.{option_code}
use aragon_zk_governance.Plugin.Vote.Backed.{IsVotingVerifier, IsBacked, vote-IsBacked}
use aragon_zk_governance.Plugin.Reach.{
  voted, executed, created, updated, Runs, here, next, Reach, begun,
}

module _ (crates : Crates) (wire : Wire) (ext : Externals) where
  -- At each accepted vote, the verifiers accept only journals of runs of the voting program.
  abbrev pub VotesAreSound : {p q : Plugin} → Runs ext p q → Type 0
  VotesAreSound here = Unit {0}
  VotesAreSound (next {q} runs (voted journal_data seal h)) =
      ((id : ℕ)
        → IsVotingVerifier crates wire ext (q.proposals id).parameters.verifier
            (q.proposals id).parameters.voting_protocol_image_id)
      × VotesAreSound runs
  VotesAreSound (next runs (executed block journal_data seal h)) = VotesAreSound runs
  VotesAreSound (next runs (created block r h)) = VotesAreSound runs
  VotesAreSound (next runs (updated sender s h)) = VotesAreSound runs

  -- An input that the voting program accepts, for this vote.
  pub record IsRun (id : ℕ) (this a : Address) (option : VoteOption) : Type 0 where
    pub i : VotingInput wire.Input
    pub j : Journal
    pub accepted : IsAccepted crates wire i j
    pub contract : i.config_contract ≡ this
    pub proposal : i.proposal_id ≡ id
    pub voter : i.voter ≡ a
    pub direction : i.direction ≡ option_code option

  abbrev HaveRuns : Plugin → Type 0
  HaveRuns p =
      (id : ℕ) (a : Address)
      → (p.proposals id).voters a ≢ vote_none
      → IsRun id p.this a ((p.proposals id).voters a)

  -- A proposal is written with the entries that it had.
  written-HaveRuns :
      (p : Plugin) (id : ℕ) (new : Proposal)
      → new.voters ≡ (p.proposals id).voters
      → HaveRuns p
      → HaveRuns (set_proposal p id new)
  written-HaveRuns p id new same h k a =
      let voters : ((set_proposal p id new).proposals k).voters ≡ (p.proposals k).voters =
        set_proposal_cases (λ (x : Proposal). x.voters ≡ (p.proposals k).voters) p id new k
          (λ here_id. same ∙ ap (λ (n : ℕ). (p.proposals n).voters) here_id) refl in
      rw voters (h k a)

  voted-HaveRuns : (p q : Plugin) → IsBacked crates wire ext p q → HaveRuns p → HaveRuns q
  voted-HaveRuns p q b h id a = elim (Bool-cases (id == b.j.proposal_id)) [
    | inr apart ↦ rw (b.this, b.others id (λ e. ground (arith, ==_iff id b.j.proposal_id))) (h id a)
    | inl same ↦
        let here_id : b.j.proposal_id ≡ id = sym ((==_iff id b.j.proposal_id).0 same) in
        let after : (q.proposals id).voters ≡ set_voter (p.proposals id).voters b.j.voter b.option =
          rw here_id at (ap (λ (x : Proposal). x.voters) b.recounted.same_but_voters) in
        elim (Bool-cases (bytes_eq a b.j.voter)) [
          | inl mine ↦
              rw (b.this, after, mine)
                (λ real. record {
                  i = b.i;
                  j = b.j;
                  accepted = b.accepted;
                  contract = b.contract;
                  proposal = sym (ap (λ (x : Journal). x.proposal_id) b.accepted.journal) ∙ here_id;
                  voter =
                      sym (ap (λ (x : Journal). x.voter) b.accepted.journal)
                      ∙ sym ((bytes_eq_iff a b.j.voter).0 mine);
                  direction =
                      sym (ap (λ (x : Journal). x.direction) b.accepted.journal)
                      ∙ b.recounted.chosen;
                })
          | inr other ↦ rw (b.this, after, other) (h id a)
        ]
  ]

  execute-HaveRuns :
      (block : Block) (p : Plugin) (journal_data seal : Bytes) (q : Plugin)
      → execute ext block p journal_data seal ≡ done q
      → HaveRuns p
      → HaveRuns q
  execute-HaveRuns block p journal_data seal q h before =
      let e = (execute_iff ext block p journal_data seal q).0 h in
      rw e.stored (written-HaveRuns p e.journal.proposal_id _ refl before)

  create-HaveRuns :
      (block : Block) (r : Request) (p q : Plugin)
      → create ext block r p ≡ done q
      → HaveRuns p
      → HaveRuns q
  unfolding stored
  create-HaveRuns block r p q h before =
      let f = create_lem ext block r p h in
      let new =
        stored p.settings block f.snapshot_block f.start f.end r (p.proposals r.proposal_id) in
      rw f.written (written-HaveRuns p r.proposal_id new refl before)

  Runs-HaveRuns :
      {p q : Plugin} (runs : Runs ext p q) → VotesAreSound runs → HaveRuns p → HaveRuns q
  Runs-HaveRuns here sound h = h
  Runs-HaveRuns (next {q} {r} runs (voted journal_data seal accepted)) (sound, rest) h =
      voted-HaveRuns q r (vote-IsBacked crates wire ext q r journal_data seal sound accepted)
        (Runs-HaveRuns runs rest h)
  Runs-HaveRuns (next {q} {r} runs (executed block journal_data seal e)) sound h =
      execute-HaveRuns block q journal_data seal r e (Runs-HaveRuns runs sound h)
  Runs-HaveRuns (next {q} {r} runs (created block request e)) sound h =
      create-HaveRuns block request q r e (Runs-HaveRuns runs sound h)
  Runs-HaveRuns (next {q} {r} runs (updated sender s e)) sound h =
      let (_, same) =
        (update_settings_iff s q r).0 (update_voting_settings_tx_lem ext sender s q e) in
      rw same (Runs-HaveRuns runs sound h)

  -- Whatever is done with an initialised plugin: if the verifiers accept only journals of runs of the
  -- voting program, wherever a vote is accepted, then each voter's entry that is not none is backed.
  -- The voting program accepts some input for this plugin, proposal and voter with that direction.
  pub Reach-IsRun :
      (p : Plugin) (reach : Reach ext p) (id : ℕ) (a : Address)
      → VotesAreSound reach.runs
      → (p.proposals id).voters a ≢ vote_none
      → IsRun id p.this a ((p.proposals id).voters a)
  unfolding initialize
  Reach-IsRun p reach id a sound =
      let (_, same) =
        (update_settings_iff reach.settings (begun reach.this reach.zeros) reach.first).0
          reach.initialized in
      Runs-HaveRuns reach.runs sound (rw same (λ id a voted_for. absurd (voted_for refl))) id a
