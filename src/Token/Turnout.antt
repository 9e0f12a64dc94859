-- ===== src/Token/Turnout.antt =====
-- The counts of the plugin beside the supply of the token that is voted with.
use aragon_zk_governance.Common.{
  ℕ, ◌+◌, ◌^◌, ◌≤◌, ◌<◌, ◌≡◌, some, ◌≢◌, refl, sym, ◌∙◌, List, [], ◌∷◌, All, false, bytes_eq,
  bytes_eq_iff, arith,
}
use aragon_zk_governance.Outcome.{ok, ok-injective}
use aragon_zk_governance.Config.{Address, Bytes, Asset}
use aragon_zk_governance.Steel.{Env}
use aragon_zk_governance.Guest.VotingPower.{balance_of_process}
use aragon_zk_governance.Plugin.{
  done, VoteOption, vote_none, vote_abstain, vote_yes, vote_no, Plugin, Externals,
}
use aragon_zk_governance.Guest.Voting.{Journal}
use aragon_zk_governance.Plugin.Vote.{vote}
use aragon_zk_governance.Plugin.Vote.Accepts.{IsProved}
use aragon_zk_governance.Plugin.Vote.Counts.{option_code, weight}
use aragon_zk_governance.Plugin.Ledger.{Ledger, recast, recount, HasDistinct, recast-HasDistinct}
use aragon_zk_governance.Plugin.Reach.{Reach}
use aragon_zk_governance.Plugin.Reach.Poll.{ballots, VotesHave, IsCount}
use aragon_zk_governance.Plugin.Reach.Poll.Recount.{Reach-IsCount}
use aragon_zk_governance.Plugin.Reach.Poll.Accepted.{vote-IsCount}
use aragon_zk_governance.Token.{Token, IsReached}
use aragon_zk_governance.Token.Supply.{contains, AreDistinct, sum, sum-le, IsReached-IsSolvent}
use aragon_zk_governance.Token.View.{IsTokenAt, balance_of_process-token}

abbrev voters_of : Ledger → List Address
voters_of [] = []
voters_of ((a, v) ∷ l) = a ∷ voters_of l

voters_of-apart :
    (a : Address) (l : Ledger)
    → All (λ (c : Address × VoteOption). a ≢ c.0) l
    → contains a (voters_of l) ≡ false
voters_of-apart a [] h = refl
voters_of-apart a ((b, v) ∷ l) (ne, h) =
    let apart : bytes_eq a b ≡ false = ground (arith, bytes_eq_iff a b, ne) in
    rw apart (voters_of-apart a l h)

voters_of-AreDistinct : (l : Ledger) → HasDistinct l → AreDistinct (voters_of l)
voters_of-AreDistinct [] h = tt
voters_of-AreDistinct ((a, v) ∷ l) (first, rest) =
    (voters_of-apart a l first, voters_of-AreDistinct l rest)

-- No ballot is counted for two options.
recount-le-sum :
    (f : Address → ℕ) (l : Ledger)
    → recount vote_abstain f l + recount vote_yes f l + recount vote_no f l ≤ sum f (voters_of l)
recount-le-sum f [] = omega arith
recount-le-sum f ((a, vote_none) ∷ l) = omega (arith, recount-le-sum f l)
recount-le-sum f ((a, vote_abstain) ∷ l) = omega (arith, recount-le-sum f l)
recount-le-sum f ((a, vote_yes) ∷ l) = omega (arith, recount-le-sum f l)
recount-le-sum f ((a, vote_no) ∷ l) = omega (arith, recount-le-sum f l)

sum-same :
    (f g : Address → ℕ) → ((a : Address) → f a ≡ g a) → (xs : List Address) → sum f xs ≡ sum g xs
sum-same f g same [] = refl
sum-same f g same (a ∷ xs) = omega (arith, same a, sum-same f g same xs)

none_weight : (v : VoteOption) (n : ℕ) → weight vote_none v n ≡ 0
none_weight vote_none n = refl
none_weight vote_abstain n = refl
none_weight vote_yes n = refl
none_weight vote_no n = refl

recount_none : (f : Address → ℕ) (l : Ledger) → recount vote_none f l ≡ 0
recount_none f [] = refl
recount_none f ((a, v) ∷ l) = omega (arith, none_weight v (f a), recount_none f l)

-- One option's powers are part of them.
recount-le-sum_of :
    (o : VoteOption) (f : Address → ℕ) (l : Ledger) → recount o f l ≤ sum f (voters_of l)
recount-le-sum_of vote_none f l = omega (arith, recount_none f l)
recount-le-sum_of vote_abstain f l = omega (arith, recount-le-sum f l)
recount-le-sum_of vote_yes f l = omega (arith, recount-le-sum f l)
recount-le-sum_of vote_no f l = omega (arith, recount-le-sum f l)

-- An environment in which an asset is the token, as `BalanceOf` counts it.
pub record IsCountedBy (env : Env) (asset : Asset) (t : Token) (power : Address → ℕ) : Type 0 where
  pub reached : IsReached t
  pub stands : IsTokenAt env asset.contract t
  pub powers : (a : Address) → balance_of_process env a asset ≡ ok (power a)

-- The powers of the voters of a ledger are at most the supply.
ledger-le-supply :
    (env : Env) (asset : Asset) (t : Token) (power : Address → ℕ) (l : Ledger)
    → IsCountedBy env asset t power
    → HasDistinct l
    → (sum power (voters_of l) ≤ t.total_supply) × (t.total_supply < 2 ^ 256)
ledger-le-supply env asset t power l c distinct =
    let (solvent, small) = IsReached-IsSolvent t c.reached in
    let same = λ (a : Address).
      ok-injective (sym (c.powers a) ∙ balance_of_process-token env asset t a c.stands) in
    let supply =
      sum-le t.balance_of t.total_supply (voters_of l) solvent (voters_of-AreDistinct l distinct) in
    (omega (arith, sum-same power t.balance_of same (voters_of l), supply), small)

-- The turnout is at most the supply. Whatever is done with the plugin and with the token: if each
-- accepted vote for a proposal carries the power that `BalanceOf` gives its voter, in an environment
-- where the asset is the token, the proposal's three counts add up to at most the token's supply.
pub Reach-turnout :
    (ext : Externals) (p : Plugin) (reach : Reach ext p) (id : ℕ) (env : Env) (asset : Asset)
    (t : Token) (power : Address → ℕ)
    → IsCountedBy env asset t power
    → VotesHave ext id power reach.runs
    → (p.proposals id).tally.abstain_votes
        + (p.proposals id).tally.yes_votes
        + (p.proposals id).tally.no_votes
      ≤ t.total_supply
Reach-turnout ext p reach id env asset t power c has =
    let count = Reach-IsCount ext power id p reach has in
    let l = ballots ext id reach.runs in
    omega (
      arith,
      count.counts vote_abstain,
      count.counts vote_yes,
      count.counts vote_no,
      recount-le-sum power l,
      (ledger-le-supply env asset t power l c count.distinct).0,
    )

-- Over the token no count overflows. After any transactions with the plugin and the token, a proved
-- vote is accepted: if the accepted votes for its proposal and the vote itself carry the powers that
-- `BalanceOf` gives the voters where the asset is the token, and its direction stands for an option.
-- The proposal then agrees with the ballots in which the voter's is the new one. (The journal names
-- the plugin and its commitment is the snapshot's.)
pub vote-turnout :
    (ext : Externals) (p : Plugin) (reach : Reach ext p) (env : Env) (asset : Asset) (t : Token)
    (power : Address → ℕ) (journal_data seal : Bytes) (j : Journal) (option : VoteOption)
    → IsCountedBy env asset t power
    → VotesHave ext j.proposal_id power reach.runs
    → ext.decode_voting_journal journal_data ≡ some j
    → j.config_contract ≡ p.this
    → IsProved ext
        (p.proposals j.proposal_id).parameters
        (p.proposals j.proposal_id).parameters.voting_protocol_image_id
        j
        journal_data
        seal
    → balance_of_process env j.voter asset ≡ ok j.balance
    → j.direction ≡ option_code option
    → (after : Plugin) × (vote ext p journal_data seal ≡ done after)
      × IsCount power
          (recast j.voter option (ballots ext j.proposal_id reach.runs))
          (after.proposals j.proposal_id)
vote-turnout ext p reach env asset t power journal_data seal j option c has decoded contract proved
      counted chosen =
    let count = Reach-IsCount ext power j.proposal_id p reach has in
    let l = ballots ext j.proposal_id reach.runs in
    let cast = recast j.voter option l in
    let (supply, small) =
      ledger-le-supply env asset t power cast c
        (recast-HasDistinct j.voter option l count.distinct) in
    vote-IsCount ext power p reach journal_data seal j option has decoded contract proved
      (ok-injective (sym counted ∙ c.powers j.voter)) chosen
      (omega (arith, recount-le-sum_of option power cast, supply, small))
