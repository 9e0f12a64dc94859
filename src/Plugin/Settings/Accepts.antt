-- ===== src/Plugin/Settings/Accepts.antt =====
-- Which settings the plugin takes, and what a proposal is created with.
use aragon_zk_governance.Common.{
  ℕ, ◌+◌, ◌-◌, ◌%◌, ◌^◌, ◌≤◌, ◌≡◌, ◌↔◌, sym, true, leb, ltb, not, arith,
}
use aragon_zk_governance.Config.{Address}
use aragon_zk_governance.Plugin.{
  done, add, to_u64, VotingSettings, Plugin, set_proposal, Block, Externals, create_proposal,
  update_voting_settings,
}
use aragon_zk_governance.Plugin.Reverts.{
  >>=-eq-done, require_passed, done-injective, to_u64-eq-done,
}
use aragon_zk_governance.Plugin.Settings.{
  update_settings, update_voting_settings_tx, start_date_of, end_date_of, validate_proposal_dates,
  Request, stored, create,
}

-- The threshold is below the whole, the participation at most the whole, and the duration from an
-- hour to a year.
pub record IsAllowed (s : VotingSettings) : Type 0 where
  pub threshold : s.support_threshold ≤ 999999
  pub participation : s.min_participation ≤ 1000000
  pub hour : 3600 ≤ s.min_duration
  pub year : s.min_duration ≤ 31536000

-- Settings are taken exactly if they are within the bounds, and nothing else changes.
pub update_settings_iff :
    (s : VotingSettings) (p after : Plugin)
    → (update_settings s p ≡ done after) ↔ (IsAllowed s × (after ≡ record p { settings = s }))
unfolding update_settings
update_settings_iff s p after = (
  λ h.
      let (threshold, h) = require_passed (leb s.support_threshold _) _ _ h in
      let (participation, h) = require_passed (leb s.min_participation _) _ _ h in
      let (hour, h) = require_passed (not (ltb s.min_duration _)) _ _ h in
      let (year, h) = require_passed (leb s.min_duration _) _ _ h in
      (
        record {
          threshold = ground arith;
          participation = ground arith;
          hour = ground arith;
          year = ground arith;
        },
        sym (done-injective h),
      ),
  λ (a, same). ground (arith, a.threshold, a.participation, a.hour, a.year, same),
)

pub update_voting_settings_tx_lem :
    (ext : Externals) (sender : Address) (s : VotingSettings) (p : Plugin) {after : Plugin}
    → update_voting_settings_tx ext sender s p ≡ done after
    → update_settings s p ≡ done after
unfolding update_voting_settings_tx
update_voting_settings_tx_lem ext sender s p h =
    (require_passed (ext.has_permission sender update_voting_settings) _ _ h).1

validate_proposal_dates_lem :
    (settings : VotingSettings) (block : Block) (start end : ℕ) {a b : ℕ}
    → validate_proposal_dates settings block start end ≡ done (a, b)
    → (block.timestamp ≤ a) × (a + settings.min_duration ≤ b)
unfolding validate_proposal_dates start_date_of end_date_of add to_u64
validate_proposal_dates_lem settings block start end h = ground arith

-- The facts that a created proposal rests on, and the storage after it.
pub record IsCreated (ext : Externals) (block : Block) (r : Request) (p after : Plugin)
    : Type 0 where
  pub permitted : ext.has_permission r.sender create_proposal ≡ true
  pub start : ℕ
  pub end : ℕ
  pub snapshot_block : ℕ
  pub not_past : block.timestamp ≤ start
  pub lasting : start + p.settings.min_duration ≤ end
  pub latest : snapshot_block ≡ (block.number + 2 ^ 256 - 1) % 2 ^ 256
  pub written :
      after
      ≡ set_proposal p r.proposal_id
          (stored p.settings block snapshot_block start end r (p.proposals r.proposal_id))

pub create_lem :
    (ext : Externals) (block : Block) (r : Request) (p : Plugin) {after : Plugin}
    → create ext block r p ≡ done after
    → IsCreated ext block r p after
unfolding create
create_lem ext block r p h =
    let (permitted, h) = require_passed (ext.has_permission r.sender create_proposal) _ _ h in
    let (dates, valid, h) =
      >>=-eq-done (validate_proposal_dates p.settings block r.start_date r.end_date) _ h in
    let (snapshot_block, cast, h) =
      >>=-eq-done (to_u64 ((block.number + 2 ^ 256 - 1) % 2 ^ 256)) _ h in
    let (not_past, lasting) =
      validate_proposal_dates_lem p.settings block r.start_date r.end_date valid in
    record {
      permitted = permitted;
      start = dates.0;
      end = dates.1;
      snapshot_block = snapshot_block;
      not_past = not_past;
      lasting = lasting;
      latest = to_u64-eq-done ((block.number + 2 ^ 256 - 1) % 2 ^ 256) cast;
      written = sym (done-injective h);
    }
