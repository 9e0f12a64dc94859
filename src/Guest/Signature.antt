-- ===== src/Guest/Signature.antt =====
-- The signature check of methods/guest/src/bin/voting_protocol.rs.
pub mod Message
use aragon_zk_governance.Common.{
  ℕ, ◌-◌, ◌%◌, Option, none, some, List, [], ◌∷◌, ◌++◌, leb, ◌==◌, if◌then◌else◌, length, drop,
  codes,
}
use aragon_zk_governance.Outcome.{Outcome, ok, panic, unwrapped, index_out_of_bounds, unwrap, ◌>>=◌}
use aragon_zk_governance.Config.{Address, Bytes}
use aragon_zk_governance.Bytes.{to_be_bytes}
use aragon_zk_governance.Crates.{Crates}

-- "\x19Ethereum Signed Message:\n32"
abbrev pub prefix : Bytes
prefix = 0x19 ∷ (codes "Ethereum Signed Message:" ++ 0x0a ∷ codes "32")

-- The byte that the `match` hands to `RecoveryId::from_byte`.
unfoldable pub recovery_byte : ℕ → Option ℕ
recovery_byte v =
    if v == 0
    then some 0
    else if v == 1
    then some 1
    else if v == 27
    then some 0
    else if v == 28
    then some 1
    else if leb 35 v
    then some ((v - 1) % 2)
    else none

-- The message that `hash_vote` hashes first.
unfoldable pub vote_message : ℕ → Address → ℕ → ℕ → ℕ → Bytes
vote_message chain_id dao proposal_id direction balance =
    to_be_bytes 8 chain_id
    ++ (dao ++ (to_be_bytes 32 proposal_id ++ (direction ∷ to_be_bytes 32 balance)))

module _ (ext : Crates) where
  unfoldable pub into_recovery_id : ℕ → Option ext.RecoveryId
  unfolding recovery_byte
  into_recovery_id v = elim (recovery_byte v) [ none ↦ none | some b ↦ ext.recovery_id_from_byte b ]

  -- `keccak256`, by the hasher of `tiny_keccak`.
  abbrev pub keccak256 : Bytes → Bytes
  keccak256 bytes = ext.keccak bytes

  -- `encoded[1..]`
  unfoldable pub skip_tag : Bytes → Outcome Bytes
  skip_tag [] = panic index_out_of_bounds
  skip_tag (tag ∷ rest) = ok rest

  -- `digest[12..].try_into().unwrap()`, for an array of 20 bytes.
  unfoldable pub last_20 : Bytes → Outcome Address
  last_20 digest =
      if length (drop 12 digest) == 20 then ok (drop 12 digest) else panic (unwrapped "try_into")

  unfoldable pub ecrecover : ℕ → Bytes → Bytes → Outcome Address
  ecrecover v rs digest = do
    recovery_id ← unwrap (into_recovery_id v) "value for v is invalid"
    signature ← unwrap (ext.signature_from_slice rs) "signature encoding is invalid"
    recovered_pk ←
        unwrap (ext.recover_from_prehash digest signature recovery_id) "signature is invalid"
    point ← skip_tag (ext.to_encoded_point recovered_pk)
    last_20 (keccak256 point)

  unfoldable pub hash_vote : ℕ → Address → ℕ → ℕ → ℕ → Bytes
  hash_vote chain_id dao proposal_id direction balance =
      let message_hash = keccak256 (vote_message chain_id dao proposal_id direction balance) in
      keccak256 (prefix ++ message_hash)
