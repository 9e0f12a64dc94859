-- ===== src/Signing/Recovered.antt =====
-- A vote signed by the helper, at the voting program.
use aragon_zk_governance.Common.{
  ℕ, ◌+◌, ◌<◌, ◌≡◌, ◌⊎◌, inl, inr, refl, ap, ◌∙◌, Option, some, [], ◌∷◌, ◌++◌, arith, length, take,
  drop, get_elem?, take-append, length-drop, append-nil, true, ◌==◌, ==_iff,
}
use aragon_zk_governance.Outcome.{ok, or_err, >>=-eq-ok, ok-injective}
use aragon_zk_governance.Config.{Address, Bytes}
use aragon_zk_governance.Bytes.{to_be_bytes}
use aragon_zk_governance.Crates.{Crates}
use aragon_zk_governance.Guest.Signature as Guest
use aragon_zk_governance.Guest.Signature.{
  prefix, vote_message, recovery_byte, into_recovery_id, skip_tag, last_20, ecrecover,
}
use aragon_zk_governance.Guest.Signature.Message.{recovery_byte_lem}
use aragon_zk_governance.Host.Node.Sent.{or_err-eq-ok}
use aragon_zk_governance.Guest.Voting.{VotingInput, check_signature}
use aragon_zk_governance.Signing.{Signer, hash_vote, get_user_vote_signature}

-- A signer with an Ethereum address: what it signs has 64 bytes and the parity, or the parity plus
-- 27, and the curve recovers from it the key whose hash ends in the address. A hash has 32 bytes.
pub record IsSigner (ext : Crates) (signer : Signer) (address : Address) : Type 0 where
  pub hash_size : (bytes : Bytes) → length (ext.keccak bytes) ≡ 32
  pub rs : signer.Signature → Bytes
  pub parity : signer.Signature → ℕ
  pub small : (s : signer.Signature) → parity s < 2
  pub size : (s : signer.Signature) → length (rs s) ≡ 64
  pub written :
      (s : signer.Signature)
      → (signer.as_bytes s ≡ rs s ++ (parity s ∷ []))
        ⊎ (signer.as_bytes s ≡ rs s ++ ((27 + parity s) ∷ []))
  pub recovers :
      (chain_id : Option ℕ) (hash : Bytes) (s : signer.Signature)
      → signer.sign_hash chain_id hash ≡ some s
      → (id : ext.RecoveryId) × (sig : ext.Signature) × (key : ext.PublicKey) × (tag : ℕ)
        × (point : Bytes) × (ext.recovery_id_from_byte (parity s) ≡ some id)
        × (ext.signature_from_slice (rs s) ≡ some sig)
        × (ext.recover_from_prehash hash sig id ≡ some key)
        × (ext.to_encoded_point key ≡ tag ∷ point)
        × (drop 12 (ext.keccak point) ≡ address)

-- The helper hashes what the voting program hashes.
hash_vote-same :
    (ext : Crates) (chain_id : ℕ) (dao : Address) (proposal_id direction balance : ℕ)
    → hash_vote ext chain_id dao proposal_id direction balance
      ≡ Guest.hash_vote ext chain_id dao proposal_id direction balance
unfolding hash_vote Guest.hash_vote vote_message
hash_vote-same ext chain_id dao proposal_id direction balance =
    let front = λ (r : Bytes).
      to_be_bytes 8 chain_id ++ (dao ++ (to_be_bytes 32 proposal_id ++ (direction ∷ r))) in
    let e = to_be_bytes 32 balance in
    ap (λ (r : Bytes). ext.keccak (prefix ++ r)) (append-nil (ext.keccak (front (e ++ []))))
    ∙ ap (λ (r : Bytes). ext.keccak (prefix ++ ext.keccak (front r))) (append-nil e)

get_elem?-last : (rs : Bytes) (v : ℕ) → get_elem? (rs ++ (v ∷ [])) (length rs) ≡ some v
get_elem?-last [] v = refl
get_elem?-last (r ∷ rs) v = get_elem?-last rs v

module _ (ext : Crates) (signer : Signer) (address : Address)
    (h : IsSigner ext signer address) where
  ecrecover-signed :
      (v : ℕ) (chain_id : Option ℕ) (hash : Bytes) (s : signer.Signature)
      → recovery_byte v ≡ some (h.parity s)
      → signer.sign_hash chain_id hash ≡ some s
      → ecrecover ext v (h.rs s) hash ≡ ok address
  unfolding ecrecover into_recovery_id skip_tag last_20
  ecrecover-signed v chain_id hash s is signed =
      let (id, sig, key, tag, point, from_byte, from_slice, recovered, encoded, last) =
        h.recovers chain_id hash s signed in
      let size : (length (drop 12 (ext.keccak point)) == 20) ≡ true =
        (==_iff (length (drop 12 (ext.keccak point))) 20).1
          (omega (arith, length-drop 12 (ext.keccak point), h.hash_size point)) in
      rw (into_recovery_id, is, from_byte, from_slice, recovered, encoded, size, last) refl

  -- The last byte of the signature, in one of its two forms.
  last_byte :
      (s : signer.Signature)
      → (v : ℕ) × (signer.as_bytes s ≡ h.rs s ++ (v ∷ [])) × (recovery_byte v ≡ some (h.parity s))
  last_byte s = elim (h.written s) [
    | inl plain ↦ (h.parity s, plain, (recovery_byte_lem (h.parity s) (h.small s)).0)
    | inr shifted ↦ (27 + h.parity s, shifted, (recovery_byte_lem (h.parity s) (h.small s)).1)
  ]

  -- A vote that the helper has signed for the program's chain id recovers to the signer: the voting
  -- program's check of the signature, given in hexadecimal with the vote's fields, gives just the
  -- signer's address. (The signer is one of Ethereum's.)
  pub check_signature-get_user_vote_signature :
      {Input : Type 0} (i : VotingInput Input) (s : signer.Signature)
      → get_user_vote_signature ext signer ext.sepolia_chain_id i.dao i.proposal_id i.direction
          i.balance
        ≡ ok s
      → ext.vec_from_hex i.signature ≡ some (signer.as_bytes s)
      → check_signature ext i ≡ ok address
  unfolding check_signature get_user_vote_signature
  check_signature-get_user_vote_signature i s made hex =
      let hash = hash_vote ext ext.sepolia_chain_id i.dao i.proposal_id i.direction i.balance in
      let sign = signer.sign_hash (some ext.sepolia_chain_id) hash in
      let (s', signed, same) = >>=-eq-ok (or_err sign "sign_hash") _ made in
      let signed : sign ≡ some s = or_err-eq-ok sign _ signed ∙ ap some (ok-injective same) in
      let (v, bytes, byte) = last_byte s in
      let at_64 : get_elem? (h.rs s ++ (v ∷ [])) 64 ≡ some v =
        rw (h.size s) at (get_elem?-last (h.rs s) v) in
      let first_64 : take 64 (h.rs s ++ (v ∷ [])) ≡ h.rs s =
        rw (h.size s) at (take-append (h.rs s) (v ∷ [])) in
      let digest =
        hash_vote-same ext ext.sepolia_chain_id i.dao i.proposal_id i.direction i.balance in
      rw (hex, bytes, at_64, first_64, ← digest)
        (ecrecover-signed v (some ext.sepolia_chain_id) hash s byte signed)
