-- ===== src/Server/Rows.antt =====
-- The database of server/src/main.rs, and what sqlx makes of its rows.
use aragon_zk_governance.Common.{
  ℕ, String, Option, none, some, List, [], ◌∷◌, str_eq, if◌then◌else◌,
}
use aragon_zk_governance.Outcome.{Outcome, ok, err, panic, external, or_err, ◌>>=◌}

-- `i16`, `i32` and `i64`: `negsuc n` is `-(n + 1)`.
pub data ℤ : Type 0 where
  pos negsuc : ℕ → ℤ

pub record VoteNew : Type 0 where
  pub account : String
  pub option : ℤ
  pub proposal_id : ℤ
  pub dao : String

pub record Vote : Type 0 where
  pub id : ℤ
  pub account : String
  pub option : ℤ
  pub proposal_id : ℤ
  pub dao : String

-- A parameter of a statement, and a value in a row.
pub data Value : Type 0 where
  varchar : String → Value
  integer : ℤ → Value

-- A row of a result: its values under the names of its columns.
abbrev pub Columns : Type 0
Columns = List (String × Value)

-- The database, a parameter: the rows that a statement has for its parameters, and the state after
-- it. A failure is `none`.
pub record Database : Type 1 where
  pub State : Type 0
  pub migrate : State → Option State
  pub query : String → List Value → State → Option (List Columns) × State

abbrev pub column : String → Columns → Option Value
column name [] = none
column name ((n, v) ∷ rest) = if str_eq n name then some v else column name rest

abbrev pub as_text : Option Value → Option String
as_text (some (varchar s)) = some s
as_text (some (integer n)) = none
as_text none = none

abbrev pub as_integer : Option Value → Option ℤ
as_integer (some (integer n)) = some n
as_integer (some (varchar s)) = none
as_integer none = none

-- `FromRow` of `Vote`: each field is the column of its name.
unfoldable pub from_row : Columns → Outcome Vote
from_row row = do
  id ← or_err (as_integer (column "id" row)) "id"
  account ← or_err (as_text (column "account" row)) "account"
  option ← or_err (as_integer (column "option" row)) "option"
  proposal_id ← or_err (as_integer (column "proposal_id" row)) "proposal_id"
  dao ← or_err (as_text (column "dao" row)) "dao"
  ok (record { id = id; account = account; option = option; proposal_id = proposal_id; dao = dao })

-- The first row.
unfoldable pub fetch_one : Option (List Columns) → Outcome Vote
fetch_one none = err (external "query")
fetch_one (some []) = err (external "RowNotFound")
fetch_one (some (row ∷ rows)) = from_row row

abbrev pub all_from_rows : List Columns → Outcome (List Vote)
all_from_rows [] = ok []
all_from_rows (row ∷ rows) = do vote ← from_row row; votes ← all_from_rows rows; ok (vote ∷ votes)

unfoldable pub fetch_all : Option (List Columns) → Outcome (List Vote)
fetch_all none = err (external "query")
fetch_all (some rows) = all_from_rows rows

-- `map_err(|e| error::ErrorBadRequest(e.to_string()))`
unfoldable pub bad_request {ℓ} : {A : Type ℓ} → Outcome A → Outcome A
bad_request (ok a) = ok a
bad_request (err e) = err (external "bad request")
bad_request (panic p) = panic p
