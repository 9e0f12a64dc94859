-- ===== src/Crates.antt =====
-- The operations of third-party crates that the programs call, as a parameter of the model.
use aragon_zk_governance.Common.{ℕ, String, Option}
use aragon_zk_governance.Config.{Address, Bytes, RiscVotingProtocolConfig}

-- Pure functions: hashing and signatures (`tiny_keccak`, `k256`), hexadecimal (`hex`,
-- `alloy_primitives`), JSON (`serde_json`), and the chain id of risc0_steel's Sepolia constant.
pub record Crates : Type 1 where
  pub keccak : Bytes → Bytes
  pub RecoveryId : Type 0
  pub recovery_id_from_byte : ℕ → Option RecoveryId
  pub Signature : Type 0
  pub signature_from_slice : Bytes → Option Signature
  pub PublicKey : Type 0
  pub recover_from_prehash : Bytes → Signature → RecoveryId → Option PublicKey
  -- the uncompressed SEC1 encoding
  pub to_encoded_point : PublicKey → Bytes
  pub vec_from_hex : String → Option Bytes
  pub bytes_from_str : String → Option Bytes
  pub address_to_string : Address → String
  pub config_from_str : String → Option RiscVotingProtocolConfig
  pub sepolia_chain_id : ℕ
