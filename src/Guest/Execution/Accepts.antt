-- ===== src/Guest/Execution/Accepts.antt =====
-- Which executions `main` of methods/guest/src/bin/execution_protocol.rs accepts.
use aragon_zk_governance.Common.{
  ℕ, ◌+◌, ◌%◌, ◌<◌, String, ◌≡◌, ◌↔◌, sym, ap, ◌∙◌, Bool, Bool-cases, inl, inr, true, some, List,
  [], ◌∷◌, arith, str_eq, eq_iff,
}
use aragon_zk_governance.Outcome.{ok, unwrap, assert, >>=-eq-ok, unwrap-eq-ok, ok-injective}
use aragon_zk_governance.U256.{◌⊕◌, modulus}
use aragon_zk_governance.Config.{Asset, RiscVotingProtocolConfig, Tally}
use aragon_zk_governance.Steel.{Env}
use aragon_zk_governance.Crates.{Crates}
use aragon_zk_governance.Stdin.{Wire}
use aragon_zk_governance.Guest.Majority.{proof_execution}
use aragon_zk_governance.Guest.Context.{
  Context, default_context, process_total_supply, process_execution_strategy,
  block_commitment-default_context,
}
use aragon_zk_governance.Guest.Context.Registry.{process_execution_strategy_by_name}
use aragon_zk_governance.Guest.Voting.{read_config}
use aragon_zk_governance.Guest.Voting.Counted.{total}
use aragon_zk_governance.Guest.Execution.{
  ExecutionInput, ExecutionJournal, sum_total_supply, prove_execution,
}

-- Each asset with its supply.
abbrev pub AreSupplies : Context → List Asset → List ℕ → Type 0
AreSupplies c [] [] = Unit {0}
AreSupplies c [] (s ∷ ss) = ⊥
AreSupplies c (asset ∷ assets) [] = ⊥
AreSupplies c (asset ∷ assets) (s ∷ ss) =
    (process_total_supply c asset ≡ ok s) × AreSupplies c assets ss

module _ (c : Context) where
  sum_total_supply-AreSupplies :
      (acc : ℕ) (assets : List Asset) {sum : ℕ}
      → acc < modulus
      → sum_total_supply c acc assets ≡ ok sum
      → (ss : List ℕ) × AreSupplies c assets ss × (sum ≡ (acc + total ss) % modulus)
  unfolding sum_total_supply ◌⊕◌
  sum_total_supply-AreSupplies acc [] small h = ([], tt, sym (ok-injective h) ∙ omega arith)
  sum_total_supply-AreSupplies acc (asset ∷ assets) small h =
      let (supply, hs, h) = >>=-eq-ok (process_total_supply c asset) _ h in
      let (ss, are, e) =
        sum_total_supply-AreSupplies ((acc + supply) % modulus) assets (omega arith) h in
      (supply ∷ ss, (hs, are), omega arith)

  AreSupplies-sum_total_supply :
      (acc : ℕ) (assets : List Asset) (ss : List ℕ)
      → acc < modulus
      → AreSupplies c assets ss
      → sum_total_supply c acc assets ≡ ok ((acc + total ss) % modulus)
  unfolding sum_total_supply ◌⊕◌
  AreSupplies-sum_total_supply acc [] [] small are = ap ok (omega arith)
  AreSupplies-sum_total_supply acc [] (s ∷ ss) small are = elim are [ ]
  AreSupplies-sum_total_supply acc (asset ∷ assets) [] small are = elim are [ ]
  AreSupplies-sum_total_supply acc (asset ∷ assets) (s ∷ ss) small (hs, are) = rw hs (
      AreSupplies-sum_total_supply ((acc + s) % modulus) assets ss (omega arith) are
      ∙ ap ok (omega arith))

-- The only execution strategy is `MajorityVoting`.
process_execution_strategy-passes :
    (ext : Crates) (env : Env) (name : String) (supply : ℕ) (t : Tally) {passes : Bool}
    → process_execution_strategy (default_context ext env) name supply t ≡ ok passes
    → (name ≡ "MajorityVoting") × (proof_execution env supply t ≡ passes)
process_execution_strategy-passes ext env name supply t h =
    let h = sym (process_execution_strategy_by_name ext env name supply t) ∙ h in
    elim (Bool-cases (str_eq "MajorityVoting" name)) [
      | inl same ↦ (sym ((eq_iff "MajorityVoting" name).0 same), ok-injective (rw same at h))
      | inr other ↦ cc (rw other at h)
    ]

assert-eq-true : (b : Bool) (what : String) → assert b what ≡ ok tt → b ≡ true
assert-eq-true b what e = ground arith

module _ (ext : Crates) (wire : Wire) where
  -- The facts that an accepted execution rests on.
  pub record IsExecutable (i : ExecutionInput wire.Input) (j : ExecutionJournal) : Type 0 where
    pub env : Env
    pub config : RiscVotingProtocolConfig
    pub opens : wire.into_env i.input ≡ some env
    pub configured : read_config ext env i.config_contract i.proposal_id ≡ ok config
    pub supplies : List ℕ
    pub supplied : AreSupplies (default_context ext env) config.assets supplies
    pub strategy : config.execution_strategy ≡ "MajorityVoting"
    pub passes : proof_execution env (total supplies % modulus) i.tally ≡ true
    pub journal : j ≡ record {
      commitment = env.commitment;
      config_contract = i.config_contract;
      proposal_id = i.proposal_id;
      tally = i.tally;
    }

  prove_execution-IsExecutable :
      (i : ExecutionInput wire.Input) (j : ExecutionJournal)
      → prove_execution ext wire i ≡ ok j
      → IsExecutable i j
  unfolding prove_execution
  prove_execution-IsExecutable i j h =
      let (env, opens, h) = >>=-eq-ok (unwrap (wire.into_env i.input) "into_env") _ h in
      let (config, configured, h) =
        >>=-eq-ok (read_config ext env i.config_contract i.proposal_id) _ h in
      let (supply, summed, h) =
        >>=-eq-ok (sum_total_supply (default_context ext env) 0 config.assets) _ h in
      let (passes, decided, h) =
        >>=-eq-ok
          (process_execution_strategy (default_context ext env) config.execution_strategy supply
            i.tally)
          _ h in
      let (_, asserted, h) = >>=-eq-ok (assert passes "process_execution_strategy") _ h in
      let (ss, are, e) =
        sum_total_supply-AreSupplies (default_context ext env) 0 config.assets (omega arith)
          summed in
      let (named, passed) =
        process_execution_strategy-passes ext env config.execution_strategy supply i.tally
          decided in
      let plain : supply ≡ total ss % modulus = omega (arith, e) in
      record {
        env = env;
        config = config;
        opens = unwrap-eq-ok (wire.into_env i.input) _ opens;
        configured = configured;
        supplies = ss;
        supplied = are;
        strategy = named;
        passes = rw (← plain) (passed ∙ assert-eq-true passes _ asserted);
        journal = rw (← block_commitment-default_context ext env) (sym (ok-injective h));
      }

  IsExecutable-prove_execution :
      (i : ExecutionInput wire.Input) (j : ExecutionJournal)
      → IsExecutable i j
      → prove_execution ext wire i ≡ ok j
  unfolding prove_execution
  IsExecutable-prove_execution i j a =
      let summed : sum_total_supply (default_context ext a.env) 0 a.config.assets
          ≡ ok (total a.supplies % modulus) =
        AreSupplies-sum_total_supply (default_context ext a.env) 0 a.config.assets a.supplies
          (omega arith) a.supplied
        ∙ ap ok (omega arith) in
      rw (
        a.opens,
        a.configured,
        summed,
        a.strategy,
        process_execution_strategy_by_name ext a.env "MajorityVoting" (total a.supplies % modulus)
            i.tally,
        a.passes,
        a.journal,
        block_commitment-default_context,
      )

  -- The execution program commits a journal exactly if the input opens as an environment, the
  -- contract gives a configuration whose execution strategy is "MajorityVoting", every asset has a
  -- supply, and `MajorityVoting` lets the tally pass with the sum of the supplies modulo 2 ^ 256;
  -- and the journal then holds the environment's commitment and the contract, proposal and tally as
  -- read.
  pub prove_execution_iff :
      (i : ExecutionInput wire.Input) (j : ExecutionJournal)
      → (prove_execution ext wire i ≡ ok j) ↔ IsExecutable i j
  prove_execution_iff i j = (prove_execution-IsExecutable i j, IsExecutable-prove_execution i j)
