-- ===== src/Server.antt =====
-- server/src/main.rs: the votes that it stores and the process that it starts.
pub mod Rows
pub mod Table
pub mod Publisher
pub mod Started
pub mod Delivered
pub mod Unsent
use aragon_zk_governance.Common.{
  ℕ, String, Option, none, some, List, [], ◌∷◌, ltb, ◌==◌, if◌then◌else◌,
}
use aragon_zk_governance.Outcome.{
  Outcome, ok, err, panic, external, index_out_of_bounds, unwrap, or_err, ◌>>=◌, ◌>>◌,
}
pub use aragon_zk_governance.Server.Rows.{
  ℤ, pos, negsuc, VoteNew, Vote, Value, varchar, integer, Columns, Database,
}
unfoldable pub use aragon_zk_governance.Server.Rows.{from_row, fetch_one, fetch_all, bad_request}
use text.Mathlib.Text.{get?}
use Prim.Native.String as Text

pub record VotingParams : Type 0 where
  pub block_number : String
  pub voter_signature : String
  pub voter : String
  pub dao_address : String
  pub proposal_id : String
  pub direction : ℕ
  pub balance : String
  pub config_contract : String
  pub token_address : String
  pub additional_delegation_data : String

-- The process, with its variables beside those that it inherits.
pub record Command : Type 0 where
  pub program : String
  pub current_dir : String
  pub envs : List (String × String)
  pub args : List String

-- The output's texts are only printed.
pub record Output : Type 0 where
  pub status : ℕ

-- The environment's variables, and running a process: `none` if it does not start.
pub record Machine : Type 0 where
  pub var : String → Option String
  pub output : Command → Option Output

pub data Response : Type 0 where
  one_vote : Vote → Response
  many_votes : List Vote → Response
  no_content : Response

pub data Request : Type 0 where
  retrieve_all : Request
  retrieve : ℤ → Request
  add : VoteNew → Request
  delete : ℤ → Request
  prove : VotingParams → Request

-- `format!("{}", n)` of a `u8`
abbrev digit : ℕ → String
digit d =
    if d == 0
    then "0"
    else if d == 1
    then "1"
    else if d == 2
    then "2"
    else if d == 3
    then "3"
    else if d == 4
    then "4"
    else if d == 5
    then "5"
    else if d == 6
    then "6"
    else if d == 7
    then "7"
    else if d == 8
    then "8"
    else "9"

unfoldable pub format_u8 : ℕ → String
format_u8 n =
    if ltb n 10
    then digit n
    else if ltb n 100
    then Text.◌++◌ (digit (Prim.Native.Nat.◌/◌ n 10)) (digit (Prim.Native.Nat.◌%◌ n 10))
    else Text.◌++◌ (digit (Prim.Native.Nat.◌/◌ n 100)) (
        Text.◌++◌ (digit (Prim.Native.Nat.◌%◌ (Prim.Native.Nat.◌/◌ n 10) 10))
          (digit (Prim.Native.Nat.◌%◌ n 10)))

-- `format!("--name={}", value)`
abbrev pub flag : String × String → String
flag (name, value) = Text.◌++◌ "--" (Text.◌++◌ name (Text.◌++◌ "=" value))

abbrev pub unwrap_or : Option String → String → String
unwrap_or none default = default
unwrap_or (some text) default = text

-- `&text[2..]`, by bytes.
abbrev pub slice_from_2 : String → Outcome String
slice_from_2 text = elim (get? text 2 (Text.len text)) [
  | none ↦ panic index_out_of_bounds
  | some rest ↦ ok rest
]

module _ (machine : Machine) where
  -- The environment variables, in the order in which they are read.
  unfoldable pub publisher_command : VotingParams → Outcome Command
  publisher_command payload = do
    voter_signature ← slice_from_2 payload.voter_signature
    bonsai_api_key ← unwrap (machine.var "BONSAI_API_KEY") "BONSAI_API_KEY"
    bonsai_api_url ← unwrap (machine.var "BONSAI_API_URL") "BONSAI_API_URL"
    rpc_url ← unwrap (machine.var "RPC_URL") "RPC_URL"
    key ← unwrap (machine.var "ETH_WALLET_PRIVATE_KEY") "ETH_WALLET_PRIVATE_KEY"
    let chain_id = unwrap_or (machine.var "CHAIN_ID") "11155111"
    ok (record {
      program = "./publisher";
      current_dir = "./target/release/";
      envs =
          ("BONSAI_API_KEY", bonsai_api_key)
          ∷ ("BONSAI_API_URL", bonsai_api_url)
          ∷ ("RPC_URL", rpc_url)
          ∷ ("ETH_WALLET_PRIVATE_KEY", key)
          ∷ [];
      args =
          flag ("chain-id", chain_id)
          ∷ flag ("rpc-url", rpc_url)
          ∷ flag ("block-number", payload.block_number)
          ∷ flag ("voter-signature", voter_signature)
          ∷ flag ("voter", payload.voter)
          ∷ flag ("dao-address", payload.dao_address)
          ∷ flag ("proposal-id", payload.proposal_id)
          ∷ flag ("direction", format_u8 payload.direction)
          ∷ flag ("balance", payload.balance)
          ∷ flag ("config-contract", payload.config_contract)
          ∷ flag ("token", payload.token_address)
          ∷ flag ("additional-delegation-data", payload.additional_delegation_data)
          ∷ flag ("testing", format_u8 0)
          ∷ [];
    })

  -- The answer; the exit status is read and dropped.
  unfoldable pub proof_vote : VotingParams → Outcome (Unit {0})
  proof_vote payload = do
    command ← publisher_command payload
    output ← unwrap (machine.output command) "Failed to execute command"
    ok tt

module _ (db : Database) where
  -- A failed statement is the error "bad request".
  unfoldable pub retrieve_vote : ℤ → db.State → Outcome Vote × db.State
  retrieve_vote path state =
      let (rows, after) = db.query "SELECT * FROM votes WHERE id = $1" (integer path ∷ []) state in
      (bad_request (fetch_one rows), after)

  unfoldable pub retrieve_all_votes : db.State → Outcome (List Vote) × db.State
  retrieve_all_votes state =
      let (rows, after) = db.query "SELECT * FROM votes ORDER BY id DESC" [] state in
      (bad_request (fetch_all rows), after)

  unfoldable pub add_vote : VoteNew → db.State → Outcome Vote × db.State
  add_vote vote state =
      let (rows, after) =
        db.query
          "INSERT INTO votes(account, option, proposal_id, dao) VALUES ($1, $2, $3, $4) RETURNING id, account, option, proposal_id, dao"
          (varchar vote.account
            ∷ integer vote.option
            ∷ integer vote.proposal_id
            ∷ varchar vote.dao
            ∷ [])
          state in
      (bad_request (fetch_one rows), after)

  unfoldable pub delete_vote : ℤ → db.State → Outcome (Unit {0}) × db.State
  delete_vote path state =
      let (rows, after) = db.query "DELETE FROM votes WHERE id = $1" (integer path ∷ []) state in
      (unwrap rows "DELETE" >>= λ _. ok tt, after)

  -- The routes under `/votes`.
  unfoldable pub service : Machine → Request → db.State → Outcome Response × db.State
  service machine retrieve_all state =
      let (votes, after) = retrieve_all_votes state in (votes >>= λ l. ok (many_votes l), after)
  service machine (retrieve id) state =
      let (vote, after) = retrieve_vote id state in (vote >>= λ v. ok (one_vote v), after)
  service machine (add new) state =
      let (vote, after) = add_vote new state in (vote >>= λ v. ok (one_vote v), after)
  service machine (delete id) state =
      let (done, after) = delete_vote id state in (done >>= λ u. ok no_content, after)
  service machine (prove payload) state = (proof_vote machine payload >>= λ u. ok no_content, state)

  -- The migrations come before the first request.
  unfoldable pub main : db.State → Outcome db.State
  main pool = unwrap (db.migrate pool) "Failed to run migrations"
