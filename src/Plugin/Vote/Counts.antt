-- ===== src/Plugin/Vote/Counts.antt =====
-- What a cast vote does to the counts.
use aragon_zk_governance.Common.{ℕ, ◌+◌, ◌≡◌, ◌↔◌, refl, sym, ap, ◌∙◌, arith, bytes_eq_iff}
use aragon_zk_governance.Config.{Address}
use aragon_zk_governance.Guest.Voting.{Journal}
use aragon_zk_governance.Plugin.{
  done, add, sub, VoteOption, vote_none, vote_abstain, vote_yes, vote_no, Tally, Proposal,
  set_voter,
}
use aragon_zk_governance.Plugin.Reverts.{>>=-eq-done, done-injective}
use aragon_zk_governance.Plugin.Vote.{vote_option, withdraw, deposit, cast_vote}

abbrev pub option_code : VoteOption → ℕ
option_code vote_none = 0
option_code vote_abstain = 1
option_code vote_yes = 2
option_code vote_no = 3

-- The option is the one that the number stands for.
pub vote_option_iff : (d : ℕ) (o : VoteOption) → (vote_option d ≡ done o) ↔ (d ≡ option_code o)
unfolding vote_option
vote_option_iff d vote_none = ground arith
vote_option_iff d vote_abstain = ground arith
vote_option_iff d vote_yes = ground arith
vote_option_iff d vote_no = ground arith

-- Having no vote is not counted.
abbrev pub votes_for : VoteOption → Tally → ℕ
votes_for vote_none t = 0
votes_for vote_abstain t = t.abstain_votes
votes_for vote_yes t = t.yes_votes
votes_for vote_no t = t.no_votes

-- What a vote for the second option adds to the count of the first.
abbrev pub weight : VoteOption → VoteOption → ℕ → ℕ
weight vote_abstain vote_abstain power = power
weight vote_yes vote_yes power = power
weight vote_no vote_no power = power
weight _ _ power = 0

pub withdraw_lem :
    (v : VoteOption) (power : ℕ) (t : Tally) {t' : Tally} (o : VoteOption)
    → withdraw v power t ≡ done t'
    → votes_for o t' + weight o v power ≡ votes_for o t
unfolding withdraw sub
withdraw_lem v power t o h = ground arith

deposit_lem :
    (v : VoteOption) (power : ℕ) (t : Tally) {t' : Tally} (o : VoteOption)
    → deposit v power t ≡ done t'
    → votes_for o t' ≡ votes_for o t + weight o v power
unfolding deposit add
deposit_lem v power t o h = ground arith

-- What a cast vote changes, and what it leaves.
pub record IsRecount (before after : Proposal) (j : Journal) (option : VoteOption) : Type 0 where
  pub chosen : j.direction ≡ option_code option
  pub counts :
      (o : VoteOption)
      → votes_for o after.tally + weight o (before.voters j.voter) j.balance
        ≡ votes_for o before.tally + weight o option j.balance
  pub same_but_voters :
      after ≡ record before { tally = after.tally; voters = set_voter before.voters j.voter option }

-- A cast vote is for one of the four options, by its number in the journal. Each count loses the
-- journal's balance if the voter had voted for it before, and gains it if it is the one voted for.
-- The voter's entry becomes the new option, and nothing else of the proposal changes.
pub cast_vote_lem :
    (before : Proposal) (j : Journal) {after : Proposal}
    → cast_vote before j ≡ done after
    → (option : VoteOption) × IsRecount before after j option
unfolding cast_vote
cast_vote_lem before j {after} h =
    let (taken, hw, h) =
      >>=-eq-done (withdraw (before.voters j.voter) j.balance before.tally) _ h in
    let (option, ho, h) = >>=-eq-done (vote_option j.direction) _ h in
    let (tally, hd, h) = >>=-eq-done (deposit option j.balance taken) _ h in
    let same = done-injective h in
    let tallied : tally ≡ after.tally = ap (λ (q : Proposal). q.tally) same in
    (
      option,
      record {
        chosen = (vote_option_iff j.direction option).0 ho;
        counts = λ o. rw (← tallied) (
            omega (
              arith,
              withdraw_lem (before.voters j.voter) j.balance before.tally o hw,
              deposit_lem option j.balance taken o hd,
            ));
        same_but_voters =
            sym same
            ∙ ap
                (λ (x : Tally). record before {
                  tally = x;
                  voters = set_voter before.voters j.voter option;
                })
                tallied;
      },
    )

option_code-injective : (a b : VoteOption) → option_code a ≡ option_code b → a ≡ b
option_code-injective vote_none b h = ground arith
option_code-injective vote_abstain b h = ground arith
option_code-injective vote_yes b h = ground arith
option_code-injective vote_no b h = ground arith

-- The same where the two options are known.
pub cast_vote-counts :
    (before : Proposal) (j : Journal) (old new : VoteOption) {after : Proposal}
    → before.voters j.voter ≡ old
    → j.direction ≡ option_code new
    → cast_vote before j ≡ done after
    → ((o : VoteOption)
        → votes_for o after.tally + weight o old j.balance
          ≡ votes_for o before.tally + weight o new j.balance)
      × (after.voters ≡ set_voter before.voters j.voter new)
cast_vote-counts before j old new was is h =
    let (option, r) = cast_vote_lem before j h in
    let same = option_code-injective option new (sym r.chosen ∙ is) in
    (
      λ o. rw (was, same) at (r.counts o),
      rw same at (ap (λ (q : Proposal). q.voters) r.same_but_voters),
    )

pub set_voter_self :
    (voters : Address → VoteOption) (a : Address) (v : VoteOption) → set_voter voters a v a ≡ v
set_voter_self voters a v = rw ((bytes_eq_iff a a).1 refl)

-- A voter who votes yes with one balance and then no with another is counted at no with the second;
-- of the yes votes only the second balance is taken off again. (The voter had not voted before.)
pub cast_vote-other_balance :
    (q0 q1 q2 : Proposal) (first second : Journal)
    → q0.voters first.voter ≡ vote_none
    → second.voter ≡ first.voter
    → first.direction ≡ 2
    → second.direction ≡ 3
    → cast_vote q0 first ≡ done q1
    → cast_vote q1 second ≡ done q2
    → (q2.tally.yes_votes + second.balance ≡ q0.tally.yes_votes + first.balance)
      × (q2.tally.no_votes ≡ q0.tally.no_votes + second.balance)
cast_vote-other_balance q0 q1 q2 first second new same to_yes to_no h1 h2 =
    let (counts1, voters1) = cast_vote-counts q0 first vote_none vote_yes new to_yes h1 in
    let voted : q1.voters second.voter ≡ vote_yes =
      rw (voters1, same) (set_voter_self q0.voters first.voter vote_yes) in
    let (counts2, _) = cast_vote-counts q1 second vote_yes vote_no voted to_no h2 in
    let yes1 : q1.tally.yes_votes + 0 ≡ q0.tally.yes_votes + first.balance = counts1 vote_yes in
    let no1 : q1.tally.no_votes + 0 ≡ q0.tally.no_votes + 0 = counts1 vote_no in
    let yes2 : q2.tally.yes_votes + second.balance ≡ q1.tally.yes_votes + 0 = counts2 vote_yes in
    let no2 : q2.tally.no_votes + 0 ≡ q1.tally.no_votes + second.balance = counts2 vote_no in
    (omega (arith, yes1, yes2), omega (arith, no1, no2))
