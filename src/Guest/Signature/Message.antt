-- ===== src/Guest/Signature/Message.antt =====
-- What a voter signs, and the recovery byte of a signature.
use aragon_zk_governance.Common.{
  ℕ, ◌+◌, ◌*◌, ◌^◌, ◌<◌, ◌≡◌, refl, sym, ap, ◌∙◌, none, some, [], ◌∷◌, ◌++◌, arith, length, take,
  drop, take-append, drop-append, length-append,
}
use aragon_zk_governance.Config.{Address, Bytes}
use aragon_zk_governance.Bytes.{to_be_bytes}
use aragon_zk_governance.Bytes.Laws.{length-to_be_bytes, to_be_bytes-injective}
use aragon_zk_governance.Guest.Signature.{recovery_byte, vote_message}

-- Two concatenations whose first parts have one length agree part by part.
append-injective :
    {xs xs' ys ys' : Bytes}
    → length xs ≡ length xs'
    → xs ++ ys ≡ xs' ++ ys'
    → (xs ≡ xs') × (ys ≡ ys')
append-injective {xs} {xs'} {ys} {ys'} l e = (
  sym (take-append xs ys) ∙ ap (take (length xs)) e ∙ rw l (take-append xs' ys'),
  sym (drop-append xs ys) ∙ ap (drop (length xs)) e ∙ rw l (drop-append xs' ys'),
)

-- The fields of a vote, in the ranges of their Rust types.
pub record Fields : Type 0 where
  pub chain_id : ℕ
  pub dao : Address
  pub proposal_id : ℕ
  pub direction : ℕ
  pub balance : ℕ

pub record InRange (f : Fields) : Type 0 where
  pub chain_id : f.chain_id < 2 ^ 64
  pub dao : length f.dao ≡ 20
  pub proposal_id : f.proposal_id < 2 ^ 256
  pub direction : f.direction < 2 ^ 8
  pub balance : f.balance < 2 ^ 256

abbrev pub message : Fields → Bytes
message f = vote_message f.chain_id f.dao f.proposal_id f.direction f.balance

-- What follows the first, the second and the third field.
abbrev tail_3 : Fields → Bytes
tail_3 f = f.direction ∷ to_be_bytes 32 f.balance

abbrev tail_2 : Fields → Bytes
tail_2 f = to_be_bytes 32 f.proposal_id ++ tail_3 f

abbrev tail_1 : Fields → Bytes
tail_1 f = f.dao ++ tail_2 f

-- Numbers of one width.
same_width : (n x y : ℕ) → length (to_be_bytes n x) ≡ length (to_be_bytes n y)
same_width n x y = length-to_be_bytes n x ∙ sym (length-to_be_bytes n y)

-- A signed message is 93 bytes long.
pub length-message : (f : Fields) → InRange f → length (message f) ≡ 93
unfolding vote_message
length-message f h = omega (
  arith,
  length-append (to_be_bytes 8 f.chain_id) (tail_1 f),
  length-append f.dao (tail_2 f),
  length-append (to_be_bytes 32 f.proposal_id) (tail_3 f),
  length-to_be_bytes 8 f.chain_id,
  length-to_be_bytes 32 f.proposal_id,
  length-to_be_bytes 32 f.balance,
)

-- Two votes whose fields are in the ranges of their Rust types and whose messages are one are one
-- vote.
pub message-injective : (f g : Fields) → InRange f → InRange g → message f ≡ message g → f ≡ g
unfolding vote_message
message-injective f g hf hg e =
    let (chain, r) = append-injective (same_width 8 f.chain_id g.chain_id) e in
    let (dao, r) = append-injective (hf.dao ∙ sym hg.dao) r in
    let (proposal, r) = append-injective (same_width 32 f.proposal_id g.proposal_id) r in
    let (direction, balance) =
      append-injective {xs = f.direction ∷ []} {xs' = g.direction ∷ []} refl r in
    cc (
      dao,
      direction,
      to_be_bytes-injective 8 f.chain_id g.chain_id hf.chain_id hg.chain_id chain,
      to_be_bytes-injective 32 f.proposal_id g.proposal_id hf.proposal_id hg.proposal_id proposal,
      to_be_bytes-injective 32 f.balance g.balance hf.balance hg.balance balance,
    )

-- The recovery byte exists exactly for the values of Ethereum's conventions, and is then 0 or 1:
-- the parity itself, the parity plus 27, or, from 35 on, that of EIP-155.
pub recovery_byte_lem :
    (parity : ℕ)
    → parity < 2
    → (recovery_byte parity ≡ some parity)
      × (recovery_byte (27 + parity) ≡ some parity)
      × ((chain_id : ℕ) → recovery_byte (35 + 2 * chain_id + parity) ≡ some parity)
      × ((v : ℕ) → 1 < v → v < 27 → recovery_byte v ≡ none)
      × ((v : ℕ) → 28 < v → v < 35 → recovery_byte v ≡ none)
unfolding recovery_byte
recovery_byte_lem parity h = (
  ground arith,
  ground arith,
  λ chain_id. ground arith,
  λ v a b. ground arith,
  λ v a b. ground arith,
)
