-- ===== src/Token/View.antt =====
-- The token of contracts/ERC20.sol as the programs see it: what strategies/src/voting_strategies ask
-- of it at one block.
use aragon_zk_governance.Common.{ℕ, ◌≡◌, none, some}
use aragon_zk_governance.Outcome.{ok}
use aragon_zk_governance.Config.{Address, Asset}
use aragon_zk_governance.Steel.{
  Env, call, call_iff, balance_of, get_total_supply, get_past_votes, get_past_total_supply,
}
use aragon_zk_governance.Guest.VotingPower.{balance_of_process}
use aragon_zk_governance.Guest.Execution.Supplyless.{IsSupplyless}
use aragon_zk_governance.Token.{Token}

-- An address where the token stands. A call of a function that it does not have fails: it has
-- `balanceOf`, but neither `getTotalSupply` nor the functions of the votes' standard.
pub record IsTokenAt (env : Env) (token : Address) (t : Token) : Type 0 where
  pub balance : (a : Address) → env.answer (balance_of token a) ≡ some (t.balance_of a)
  pub total_supply : env.answer (get_total_supply token) ≡ none
  pub past_votes :
      (a : Address) (timepoint : ℕ) → env.answer (get_past_votes token a timepoint) ≡ none
  pub past_total_supply :
      (timepoint : ℕ) → env.answer (get_past_total_supply token timepoint) ≡ none

-- `BalanceOf` gives an account its balance.
pub balance_of_process-token :
    (env : Env) (asset : Asset) (t : Token) (a : Address)
    → IsTokenAt env asset.contract t
    → balance_of_process env a asset ≡ ok (t.balance_of a)
unfolding balance_of_process call
balance_of_process-token env asset t a is =
    (call_iff env (balance_of asset.contract a) (t.balance_of a)).1 (is.balance a)

-- None of its functions answers the program about a supply.
pub IsTokenAt-IsSupplyless :
    (env : Env) (token : Address) (t : Token) → IsTokenAt env token t → IsSupplyless env token
IsTokenAt-IsSupplyless env token t is = record {
  balances = is.total_supply;
  past = is.past_total_supply env.number;
}
