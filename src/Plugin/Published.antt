-- ===== src/Plugin/Published.antt =====
-- A vote of publisher.rs at the plugin.
use aragon_zk_governance.Common.{ℕ, ◌+◌, ◌<◌, ◌≡◌, ◌≢◌, sym, ap, ◌∙◌, some, List, ◌∷◌, arith}
use aragon_zk_governance.Config.{Bytes}
use aragon_zk_governance.Crates.{Crates}
use aragon_zk_governance.Stdin.{Wire, IsLawfulWire}
use aragon_zk_governance.Guest.Voting.{Journal}
use aragon_zk_governance.Host.Node as HostNode
use aragon_zk_governance.Host.Node.{Node, Transaction}
use aragon_zk_governance.Host.Publisher.{Args, main}
use aragon_zk_governance.Host.Publisher.Sent.{IsSoundProver, main-sent}
use aragon_zk_governance.Plugin.{done, VoteOption, vote_none, Proposal, Plugin, Externals}
use aragon_zk_governance.Plugin.Vote.{vote, get_vote_option}
use aragon_zk_governance.Plugin.Vote.Accepts.{vote_iff}
use aragon_zk_governance.Plugin.Vote.Counts.{
  option_code, votes_for, weight, cast_vote_lem, set_voter_self,
}
use aragon_zk_governance.Plugin.Writes.{set_proposal_here}

-- What the arguments of the publisher have become of in the plugin.
pub record IsCounted (args : Args) (p after : Plugin) : Type 0 where
  pub option : VoteOption
  pub contract : args.config_contract ≡ p.this
  pub chosen : args.direction ≡ option_code option
  pub real : option ≢ vote_none
  pub not_empty : 0 < args.balance
  pub entry : get_vote_option after args.proposal_id args.voter ≡ option
  pub counts :
      (o : VoteOption)
      → votes_for o (after.proposals args.proposal_id).tally
          + weight o (get_vote_option p args.proposal_id args.voter) args.balance
        ≡ votes_for o (p.proposals args.proposal_id).tally + weight o option args.balance

-- If the word format is lawful, receipts show what was run, and the plugin decodes a journal as the
-- publisher does: where the plugin accepts the vote that the publisher has sent, it stands in the
-- storage as the arguments say. Their contract is the plugin; their direction is an option other
-- than none, and it is now the voter's; their balance, which is not 0, is added to that option's count
-- and taken from the count of the option that the voter had before.
pub main-IsCounted :
    (ext : Crates) (wire : Wire) (node : Node wire) (args : Args) (chain : Externals)
    (p after : Plugin) (contract : Bytes) (journal_data seal : Bytes) {rest : List Transaction}
    → IsLawfulWire wire
    → IsSoundProver ext wire node
    → chain.decode_voting_journal journal_data ≡ node.decode_voting_journal journal_data
    → (main ext wire node args).1 ≡ HostNode.vote contract journal_data seal ∷ rest
    → vote chain p journal_data seal ≡ done after
    → IsCounted args p after
unfolding get_vote_option
main-IsCounted ext wire node args chain p after contract journal_data seal lawful sound same sent
      h =
    let (_, _, _, s) =
      main-sent ext wire node args lawful sound (HostNode.vote contract journal_data seal) sent in
    let v = (vote_iff chain p journal_data seal after).0 h in
    let j = v.journal in
    let bytes : journal_data ≡ s.bytes = cc (s.call) in
    let one : some j ≡ some s.journal =
      sym v.decoded ∙ same ∙ ap (λ (b : Bytes). node.decode_voting_journal b) bytes ∙ s.decodes in
    let one : j ≡ s.journal = cc in
    let id : j.proposal_id ≡ args.proposal_id =
      ap (λ (x : Journal). x.proposal_id) one ∙ s.proposal in
    let voter : j.voter ≡ args.voter = ap (λ (x : Journal). x.voter) one ∙ s.voter in
    let direction : j.direction ≡ args.direction =
      ap (λ (x : Journal). x.direction) one ∙ s.direction in
    let balance : j.balance ≡ args.balance = ap (λ (x : Journal). x.balance) one ∙ s.balance in
    let (option, r) = cast_vote_lem (p.proposals j.proposal_id) j v.cast in
    let now : after.proposals args.proposal_id ≡ v.proposal =
      ap (λ (k : ℕ). after.proposals k) (sym id)
      ∙ ap (λ (x : Plugin). x.proposals j.proposal_id) v.stored
      ∙ set_proposal_here p j.proposal_id v.proposal in
    record {
      option = option;
      contract = sym s.contract ∙ ap (λ (x : Journal). x.config_contract) (sym one) ∙ v.contract;
      chosen = sym direction ∙ r.chosen;
      real = λ none. omega (
        arith,
        s.direction_from,
        sym direction ∙ r.chosen ∙ ap (λ (x : VoteOption). option_code x) none,
      );
      not_empty = s.not_empty;
      entry =
          ap (λ (x : Proposal). x.voters args.voter) (now ∙ r.same_but_voters)
          ∙ rw (← voter) (set_voter_self (p.proposals j.proposal_id).voters j.voter option);
      counts = λ o. rw (now, ← id, ← voter, ← balance) (r.counts o);
    }
