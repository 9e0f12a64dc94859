-- ===== src/Steel.antt =====
-- What the programs use of `risc0_steel`: an EVM environment at one block, which answers view calls.
-- The calls are those of the `sol!` interfaces in the sources. How the chain answers is unknown, so
-- an environment is a function from calls to answers; `none` stands for a call that fails.
use aragon_zk_governance.Common.{ℕ, String, ◌≡◌, ◌↔◌, Option, List, [], ◌∷◌, ◌⊎◌}
use aragon_zk_governance.Config.{Address, Bytes}
use aragon_zk_governance.Outcome.{Outcome, panic, call_failed, ok}

-- `DelegateRegistry.Delegation`: a bytes32 and a uint256.
pub record RegistryDelegation : Type 0 where
  pub delegate : Bytes
  pub ratio : ℕ

-- What `getDelegation` returns.
pub record DelegationReturn : Type 0 where
  pub delegations : List RegistryDelegation
  pub expiration_timestamp : ℕ

-- A view call: the contract that is called, then the arguments.
pub data Call : Type 0 where
  balance_of : Address → Address → Call
  get_total_supply : Address → Call
  get_past_votes : Address → Address → ℕ → Call
  get_past_total_supply : Address → ℕ → Call
  get_delegation : Address → String → Address → Call
  voting_protocol_config : Address → ℕ → Call

abbrev pub Answer : Call → Type 0
Answer (balance_of _ _) = ℕ
Answer (get_total_supply _) = ℕ
Answer (get_past_votes _ _ _) = ℕ
Answer (get_past_total_supply _ _) = ℕ
Answer (get_delegation _ _ _) = DelegationReturn
Answer (voting_protocol_config _ _) = String

pub record Commitment : Type 0 where
  pub id : ℕ
  pub digest : Bytes
  pub config_id : Bytes

pub record Env : Type 0 where
  pub number : ℕ
  pub parent_number : ℕ
  pub commitment : Commitment
  pub answer : (c : Call) → Option (Answer c)

-- `Contract::new(contract, env).call_builder(&call).call()` in the guest: a failing call panics.
unfoldable pub call : Env → (c : Call) → Outcome (Answer c)
call env c = elim (env.answer c) [ Option.none ↦ panic call_failed | Option.some a ↦ ok a ]

-- The call is among those listed.
abbrev pub Recorded : Call → List Call → Type 0
Recorded c [] = ⊥
Recorded c (d ∷ ds) = (c ≡ d) ⊎ Recorded c ds

pub call_iff :
    (env : Env) (c : Call) (a : Answer c) → (call env c ≡ ok a) ↔ (env.answer c ≡ Option.some a)
unfolding call
call_iff env c a = answered (env.answer c)
  where
    answered :
        (o : Option (Answer c))
        → (elim o as (λ _. Outcome (Answer c)) [
          | Option.none ↦ panic call_failed
          | Option.some x ↦ ok x
        ]
            ≡ ok a)
          ↔ (o ≡ Option.some a)
    answered Option.none = (λ h. cc, λ h. cc)
    answered (Option.some x) = (λ h. cc, λ h. cc)
