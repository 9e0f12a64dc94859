-- ===== src/Tests/Signing.antt =====
-- A signer whose key is its signature, as the stand-ins for the curve have it.
use aragon_zk_governance.Common.{
  ◌≡◌, refl, some, [], ◌∷◌, ◌++◌, length, take, length-take, length-append, arith, inr,
}
use aragon_zk_governance.Outcome.{ok}
use aragon_zk_governance.Config.{Bytes}
use aragon_zk_governance.Bytes.Laws.{parse_hex, digit_value}
use aragon_zk_governance.Steel.{Env}
use aragon_zk_governance.Agreement.Accepted.{vote_input}
use aragon_zk_governance.Guest.Voting.{VotingInput, check_signature}
use aragon_zk_governance.Signing.{Signer, get_user_vote_signature}
use aragon_zk_governance.Signing.Recovered.{IsSigner, check_signature-get_user_vote_signature}
use aragon_zk_governance.Tests.World.{repeat, env, ext, hex_bytes}
use aragon_zk_governance.Tests.Publisher.{vote_args}

abbrev zero_signer : Signer
zero_signer = record {
  Signature = Bytes;
  sign_hash = λ chain_id hash. some (repeat 64 0);
  as_bytes = λ s. repeat 64 0 ++ (27 ∷ []);
}

hash_size : (bytes : Bytes) → length (take 32 (bytes ++ repeat 32 0)) ≡ 32
hash_size bytes =
    omega (arith, length-take 32 (bytes ++ repeat 32 0), length-append bytes (repeat 32 0))

zero_signer-IsSigner : IsSigner ext zero_signer (repeat 20 0)
zero_signer-IsSigner = record {
  hash_size = hash_size;
  rs = λ s. repeat 64 0;
  parity = λ s. 0;
  small = λ s. omega arith;
  size = λ s. refl;
  written = λ s. inr refl;
  recovers = λ chain_id hash s h.
      (0, repeat 64 0, repeat 64 0, 4, repeat 64 0, refl, refl, refl, refl, refl);
}

abbrev i : VotingInput Env
i = vote_input vote_args env

signs :
    get_user_vote_signature ext zero_signer 11155111 i.dao i.proposal_id i.direction i.balance
    ≡ ok (repeat 64 0)
unfolding get_user_vote_signature
signs = refl

reads : hex_bytes i.signature ≡ some (repeat 64 0 ++ (27 ∷ []))
unfolding parse_hex digit_value
reads = refl

check_signature-get_user_vote_signature_example : check_signature ext i ≡ ok (repeat 20 0)
check_signature-get_user_vote_signature_example =
    check_signature-get_user_vote_signature ext zero_signer (repeat 20 0) zero_signer-IsSigner i
      (repeat 64 0) signs reads
