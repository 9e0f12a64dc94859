-- ===== src/Abi.antt =====
-- The two journals in the words of the contract ABI: a value of a static type is its words one after
-- the other; a value of a dynamic one, here a struct with an array, comes after a word with its
-- offset. The structs are those of methods/guest/src/bin.
use aragon_zk_governance.Common.{ℕ, ◌*◌, ◌≡◌, List, [], ◌∷◌, ◌++◌, arith, length, length-append}
use aragon_zk_governance.Config.{Bytes}
use aragon_zk_governance.Bytes.{to_be_bytes, from_be_bytes}
use aragon_zk_governance.Bytes.Laws.{length-to_be_bytes}
use aragon_zk_governance.Guest.Voting.{Journal}
use aragon_zk_governance.Guest.Execution.{ExecutionJournal}

abbrev pub word : ℕ → Bytes
word n = to_be_bytes 32 n

-- An address or a `bytes32` as a word.
abbrev pub number : Bytes → ℕ
number bytes = from_be_bytes 0 bytes

abbrev pub words : List ℕ → Bytes
words [] = []
words (n ∷ ns) = word n ++ words ns

-- `VotingJournal` has only static fields.
abbrev pub voting_words : Journal → List ℕ
voting_words j =
    j.commitment.id
    ∷ number j.commitment.digest
    ∷ number j.commitment.config_id
    ∷ number j.config_contract
    ∷ j.proposal_id
    ∷ number j.voter
    ∷ j.balance
    ∷ j.direction
    ∷ []

-- The offset of the struct, its six words, of which the last is the offset of the array, and the
-- array's length and elements.
abbrev pub execution_words : ExecutionJournal → List ℕ
execution_words j =
    32
    ∷ j.commitment.id
    ∷ number j.commitment.digest
    ∷ number j.commitment.config_id
    ∷ number j.config_contract
    ∷ j.proposal_id
    ∷ 192
    ∷ 3
    ∷ j.tally.yes_votes
    ∷ j.tally.no_votes
    ∷ j.tally.abstain_votes
    ∷ []

pub length-words : (ns : List ℕ) → length (words ns) ≡ 32 * length ns
length-words [] = omega arith
length-words (n ∷ ns) =
    omega (arith, length-append (word n) (words ns), length-to_be_bytes 32 n, length-words ns)
