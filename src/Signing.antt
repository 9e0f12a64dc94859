-- ===== src/Signing.antt =====
-- tests/src/lib.rs: signing a vote, as the integration tests do for the publisher.
pub mod Recovered
use aragon_zk_governance.Common.{ℕ, Option, List, [], ◌∷◌, ◌++◌}
use aragon_zk_governance.Outcome.{Outcome, ok, or_err, ◌>>=◌}
use aragon_zk_governance.Config.{Address, Bytes}
use aragon_zk_governance.Bytes.{to_be_bytes}
use aragon_zk_governance.Crates.{Crates}
use aragon_zk_governance.Guest.Signature.{prefix}

-- `[..].concat()`
abbrev pub concat : List Bytes → Bytes
concat [] = []
concat (part ∷ parts) = part ++ concat parts

-- `PrivateKeySigner` of alloy, a parameter: `with_chain_id` and then `sign_hash`, and the bytes of a
-- signature.
pub record Signer : Type 1 where
  pub Signature : Type 0
  pub sign_hash : Option ℕ → Bytes → Option Signature
  pub as_bytes : Signature → Bytes

-- alloy's `keccak256` is the function of `Crates.keccak`.
unfoldable pub hash_vote : Crates → ℕ → Address → ℕ → ℕ → ℕ → Bytes
hash_vote ext chain_id dao_address proposal_id direction balance =
    let concat_data = concat (
      to_be_bytes 8 chain_id
      ∷ dao_address
      ∷ to_be_bytes 32 proposal_id
      ∷ (direction ∷ [])
      ∷ to_be_bytes 32 balance
      ∷ []) in
    let hashed_data = ext.keccak concat_data in ext.keccak (concat (prefix ∷ hashed_data ∷ []))

unfoldable pub get_user_vote_signature :
    Crates → (signer : Signer) → ℕ → Address → ℕ → ℕ → ℕ → Outcome signer.Signature
get_user_vote_signature ext signer chain_id dao_address proposal_id direction balance = do
  let vote_hash = hash_vote ext chain_id dao_address proposal_id direction balance
  signature ← or_err (signer.sign_hash (Option.some chain_id) vote_hash) "sign_hash"
  ok signature
