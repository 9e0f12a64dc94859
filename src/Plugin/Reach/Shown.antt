-- ===== src/Plugin/Reach/Shown.antt =====
-- What `getProposal` shows of a proposal after its creation.
use aragon_zk_governance.Common.{◌+◌, ◌-◌, ◌%◌, ◌^◌, ◌≤◌, ◌≡◌, refl, sym, ap, ◌∙◌}
use aragon_zk_governance.Plugin.{
  done, Proposal, ProposalParameters, VotingSettings, Plugin, Block, Externals,
}
use aragon_zk_governance.Plugin.Writes.{set_proposal_here}
use aragon_zk_governance.Plugin.Reverts.{>>=-eq-done, done-injective}
use aragon_zk_governance.Plugin.Getters.{ProposalView, get_proposal, proposal_config}
use aragon_zk_governance.Plugin.Vote.{is_proposal_open}
use aragon_zk_governance.Plugin.Settings.{Request, create, stored}
use aragon_zk_governance.Plugin.Settings.Accepts.{create_lem}
use aragon_zk_governance.Plugin.Reach.{Runs}
use aragon_zk_governance.Plugin.Reach.Frozen.{IsUnused, Runs-IsFrozen}

-- The parameters are those of the settings and the block of the creation.
pub record IsSetBy (s : VotingSettings) (block : Block) (x : ProposalParameters) : Type 0 where
  pub voting_mode : x.voting_mode ≡ s.voting_mode
  pub support_threshold : x.support_threshold ≡ s.support_threshold
  pub voting_protocol_config : x.voting_protocol_config ≡ s.voting_protocol_config
  pub verifier : x.verifier ≡ s.verifier
  pub voting_protocol_image_id : x.voting_protocol_image_id ≡ s.voting_protocol_image_id
  pub execution_protocol_image_id : x.execution_protocol_image_id ≡ s.execution_protocol_image_id
  pub snapshot_block_hash :
      x.snapshot_block_hash ≡ block.block_hash ((block.number + 2 ^ 256 - 1) % 2 ^ 256)
  pub snapshot_block : x.snapshot_block ≡ (block.number + 2 ^ 256 - 1) % 2 ^ 256
  pub lasting : x.start_date + s.min_duration ≤ x.end_date
  pub not_past : block.timestamp ≤ x.start_date

pub create-IsSetBy :
    (ext : Externals) (block : Block) (r : Request) (p q : Plugin)
    → create ext block r p ≡ done q
    → IsSetBy p.settings block (q.proposals r.proposal_id).parameters
unfolding stored
create-IsSetBy ext block r p q h =
    let f = create_lem ext block r p h in
    let written =
      ap (λ (x : Plugin). (x.proposals r.proposal_id).parameters) f.written
      ∙ ap (λ (x : Proposal). x.parameters) (set_proposal_here p r.proposal_id _) in
    rw written (record {
      voting_mode = refl;
      support_threshold = refl;
      voting_protocol_config = refl;
      verifier = refl;
      voting_protocol_image_id = refl;
      execution_protocol_image_id = refl;
      snapshot_block_hash = refl;
      snapshot_block = f.latest;
      lasting = f.lasting;
      not_past = f.not_past;
    })

-- Whatever is done after a proposal's creation, as long as its number is not given again,
-- `getProposal` and the configuration's getter show the settings and the block that it was created
-- with, also after the settings have changed.
pub create-get_proposal :
    (ext : Externals) (block block' : Block) (r : Request) (p q q' : Plugin) (view : ProposalView)
    (runs : Runs ext q q')
    → create ext block r p ≡ done q
    → IsUnused ext r.proposal_id runs
    → get_proposal block' q' r.proposal_id ≡ done view
    → IsSetBy p.settings block view.parameters
      × (proposal_config q' r.proposal_id ≡ p.settings.voting_protocol_config)
unfolding get_proposal proposal_config
create-get_proposal ext block block' r p q q' view runs h unused shown =
    let set = create-IsSetBy ext block r p q h in
    let (_, kept) = Runs-IsFrozen ext r.proposal_id q q' runs unused in
    let (_, _, shown) =
      >>=-eq-done (is_proposal_open block' (q'.proposals r.proposal_id)) _ shown in
    let viewed = ap (λ (x : ProposalView). x.parameters) (done-injective shown) in
    (
      rw (sym viewed ∙ kept) set,
      ap (λ (x : ProposalParameters). x.voting_protocol_config) kept ∙ set.voting_protocol_config,
    )
