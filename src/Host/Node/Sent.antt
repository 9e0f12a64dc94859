-- ===== src/Host/Node/Sent.antt =====
-- Which transactions a run of a binary can have sent.
use aragon_zk_governance.Common.{String, ◌≡◌, ◌≢◌, refl, Option, none, some, List, [], ◌∷◌}
use aragon_zk_governance.Outcome.{Outcome, ok, err, panic, or_err}
use aragon_zk_governance.Config.{Bytes}
use aragon_zk_governance.Stdin.{Wire}
use aragon_zk_governance.Guest.Voting.{Journal}
use aragon_zk_governance.Host.Node.{Node, Run, then_run, Transaction, Program, submit, publish}

pub or_err-eq-ok {ℓ} :
    {A : Type ℓ} (o : Option A) (what : String) {a : A} → or_err o what ≡ ok a → o ≡ some a
or_err-eq-ok none what h = cc
or_err-eq-ok (some a) what h = cc

pub then_run-sent {ℓ} :
    {A : Type ℓ} (o : Outcome A) (k : A → Run) {tx : Transaction} {rest : List Transaction}
    → (then_run o k).1 ≡ tx ∷ rest
    → (a : A) × (o ≡ ok a) × ((k a).1 ≡ tx ∷ rest)
then_run-sent (ok a) k h = (a, refl, h)
then_run-sent (err e) k h = cc
then_run-sent (panic p) k h = cc

module _ (wire : Wire) (node : Node wire) where
  submit-sent :
      (tx sent : Transaction) {rest : List Transaction}
      → (submit wire node tx).1 ≡ sent ∷ rest
      → (sent ≡ tx) × (rest ≡ [])
  unfolding submit
  submit-sent tx sent h =
      let (hash, e, k) = then_run-sent (or_err (node.send tx) "send") _ h in (cc k, cc k)

  -- What is published carries the journal of a receipt of the program on that input.
  pub publish-sent :
      (program : Program) (stdin : List wire.Word) (f : Bytes → Bytes → Transaction)
      (sent : Transaction) {rest : List Transaction}
      → (publish wire node program stdin f).1 ≡ sent ∷ rest
      → (r : node.Receipt) × (seal : Bytes) × (node.prove program stdin ≡ some r)
        × (sent ≡ f (node.journal_bytes r) seal)
        × (rest ≡ [])
        × ((j : Journal) × (node.decode_voting_journal (node.journal_bytes r) ≡ some j))
  unfolding publish
  publish-sent program stdin f sent h =
      let (r, er, h1) = then_run-sent (or_err (node.prove program stdin) _) _ h in
      let (j, ej, h2) =
        then_run-sent (or_err (node.decode_voting_journal (node.journal_bytes r)) _) _ h1 in
      let (seal, es, h3) = then_run-sent (or_err (node.encode_seal r) _) _ h2 in
      let (same, last) = submit-sent (f (node.journal_bytes r) seal) sent h3 in
      (
        r,
        seal,
        or_err-eq-ok (node.prove program stdin) _ er,
        same,
        last,
        (j, or_err-eq-ok (node.decode_voting_journal (node.journal_bytes r)) _ ej),
      )

-- A run that does not get past its first step.
pub then_run-fails :
    (o : Outcome (Unit {0})) (k : Unit {0} → Run)
    → o ≢ ok tt
    → ((then_run o k).0 ≢ ok tt) × ((then_run o k).1 ≡ [])
then_run-fails (ok tt) k h = absurd (h refl)
then_run-fails (err e) k h = ((λ same. cc same), refl)
then_run-fails (panic p) k h = ((λ same. cc same), refl)
