-- ===== src/Host/ExecutionPublisher/Order.antt =====
-- The order in which execution_publisher.rs writes its words, against the order in which
-- execution_protocol.rs reads them: the contract's address and the tally are exchanged.
use aragon_zk_governance.Common.{
  ◌≡◌, ◌≢◌, refl, ap, ◌∙◌, some, List, [], ◌∷◌, ◌++◌, append-nil, length, length-append, arith,
}
use aragon_zk_governance.Outcome.{ok, >>=-eq-ok, unwrap-eq-ok, ok-injective}
use aragon_zk_governance.Config.{Tally}
use aragon_zk_governance.Crates.{Crates}
use aragon_zk_governance.Stdin.{Wire, IsLawfulWire, IsCanonical, env_read}
use aragon_zk_governance.Host.Node.{Node}
use aragon_zk_governance.Host.ExecutionPublisher.{Args, write_input}
use aragon_zk_governance.Guest.Execution.{ExecutionInput, read_execution_input}
use aragon_zk_governance.Agreement.Execution.{execution_input}

nil-of-length : {W : Type 0} (ws : List W) → length ws ≡ 0 → ws ≡ []
nil-of-length [] e = refl
nil-of-length (w ∷ ws) e = absurd (omega arith)

-- If nothing else can follow, the two parts stand in either order.
exchanged :
    {W : Type 0} (xs ys rest left : List W)
    → xs ++ ys ≡ ys ++ rest
    → rest ≡ xs ++ left
    → xs ++ ys ≡ ys ++ xs
exchanged {W} xs ys rest left e f =
    let count : length (xs ++ ys) ≡ length (ys ++ rest) = ap length e in
    let count' : length rest ≡ length (xs ++ left) = ap length f in
    let none_left =
      nil-of-length left
        (omega (arith, length-append xs ys, length-append ys rest, length-append xs left)) in
    e ∙ rw (f, none_left, append-nil)

module _ (ext : Crates) (wire : Wire) (node : Node wire) (args : Args) (tally : Tally)
    (view : wire.Input) where
  abbrev contract_words : List wire.Word
  contract_words = wire.address.write args.config_contract

  abbrev tally_words : List wire.Word
  tally_words = wire.tally.write tally

  -- The guest's last two reads, on what the publisher wrote last.
  read_tail :
      IsLawfulWire wire
      → (i : ExecutionInput wire.Input)
      → read_execution_input ext wire (write_input ext wire node args tally view) ≡ ok i
      → (rest left : List wire.Word) × (wire.tally.read (contract_words ++ tally_words)
          ≡ some (i.tally, rest))
        × (wire.address.read rest ≡ some (i.config_contract, left))
  unfolding read_execution_input write_input
  read_tail l i h =
      let h1 =
        rw
          (
            l.input.read-write view,
            l.address.read-write args.dao_address,
            l.u256.read-write args.proposal_id,
          )
          at h in
      let ((t, rest), e1, h2) =
        >>=-eq-ok (env_read wire.tally (contract_words ++ tally_words)) _ h1 in
      let ((a, left), e2, h3) = >>=-eq-ok (env_read wire.address rest) _ h2 in
      let same = ok-injective h3 in
      (
        rest,
        left,
        unwrap-eq-ok (wire.tally.read (contract_words ++ tally_words)) _ e1
            ∙ ap (λ (x : ExecutionInput wire.Input). some (x.tally, rest)) same,
        unwrap-eq-ok (wire.address.read rest) _ e2
            ∙ ap (λ (x : ExecutionInput wire.Input). some (x.config_contract, left)) same,
      )

  -- Where the words of the contract's address and those of the tally differ in the two orders, the
  -- execution program does not read the publisher's arguments. The format gives back what was
  -- written, and reads words as a tally or an address only if they are what that is written as.
  pub read_execution_input-misordered :
      IsLawfulWire wire
      → IsCanonical wire.tally
      → IsCanonical wire.address
      → contract_words ++ tally_words ≢ tally_words ++ contract_words
      → read_execution_input ext wire (write_input ext wire node args tally view)
        ≢ ok (execution_input args tally view)
  read_execution_input-misordered l ct ca differ h =
      let (rest, left, e1, e2) = read_tail l (execution_input args tally view) h in
      differ (
        exchanged contract_words tally_words rest left
          (ct.write-read (contract_words ++ tally_words) tally rest e1)
          (ca.write-read rest args.config_contract left e2))
