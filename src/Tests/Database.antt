-- ===== src/Tests/Database.antt =====
-- A table in memory, and that it does what the server relies on.
use mathlib.Core.Option.{some-injective}
use aragon_zk_governance.Common.{
  ℕ, suc, ◌+◌, ◌<◌, ◌≡◌, ◌≢◌, refl, sym, ap, ◌∙◌, Option, none, some, List, [], ◌∷◌, true, ◌==◌,
  ==_iff, if◌then◌else◌, arith, Bool-cases, inl, inr, str_eq,
}
use aragon_zk_governance.Server.{
  ℤ, pos, negsuc, VoteNew, Vote, Value, varchar, integer, Columns, Database,
}
use aragon_zk_governance.Server.Table.{columns, IsTable}

-- The numbers and columns, the last row first.
abbrev pub Rows : Type 0
Rows = List (ℕ × VoteNew)

abbrev pub row : ℕ → VoteNew → Vote
row k new = record {
  id = pos k;
  account = new.account;
  option = new.option;
  proposal_id = new.proposal_id;
  dao = new.dao;
}

abbrev pub find_row : ℕ → Rows → Option Vote
find_row k [] = none
find_row k ((i, new) ∷ rows) = if i == k then some (row k new) else find_row k rows

abbrev pub all_rows : Rows → List Columns
all_rows [] = []
all_rows ((i, new) ∷ rows) = columns (row i new) ∷ all_rows rows

-- A number above all that are used.
abbrev pub next_id : Rows → ℕ
next_id [] = 1
next_id ((i, new) ∷ rows) = suc (i + next_id rows)

abbrev pub remove : ℕ → Rows → Rows
remove k [] = []
remove k ((i, new) ∷ rows) = let rest = remove k rows in if i == k then rest else (i, new) ∷ rest

abbrev pub find_id : ℤ → Rows → Option Vote
find_id (pos k) rows = find_row k rows
find_id (negsuc k) rows = none

abbrev pub remove_id : ℤ → Rows → Rows
remove_id (pos k) rows = remove k rows
remove_id (negsuc k) rows = rows

abbrev pub found : Option Vote → List Columns
found none = []
found (some v) = columns v ∷ []

abbrev pub select : List Value → Rows → Option (List Columns) × Rows
select (integer id ∷ []) rows = (some (found (find_id id rows)), rows)
select _ rows = (none, rows)

abbrev pub insert_new : VoteNew → Rows → Option (List Columns) × Rows
insert_new new rows = (some (columns (row (next_id rows) new) ∷ []), (next_id rows, new) ∷ rows)

abbrev pub insert : List Value → Rows → Option (List Columns) × Rows
insert (varchar account ∷ integer option ∷ integer proposal_id ∷ varchar dao ∷ []) rows =
    insert_new (record { account = account; option = option; proposal_id = proposal_id; dao = dao })
      rows
insert _ rows = (none, rows)

abbrev pub delete_row : List Value → Rows → Option (List Columns) × Rows
delete_row (integer id ∷ []) rows = (some [], remove_id id rows)
delete_row _ rows = (none, rows)

abbrev pub db : Database
db = record {
  State = Rows;
  migrate = λ rows. some rows;
  query = λ sql values rows.
      if str_eq sql "SELECT * FROM votes WHERE id = $1"
      then select values rows
      else if str_eq sql "SELECT * FROM votes ORDER BY id DESC"
      then (some (all_rows rows), rows)
      else if str_eq sql
          "INSERT INTO votes(account, option, proposal_id, dao) VALUES ($1, $2, $3, $4) RETURNING id, account, option, proposal_id, dao"
      then insert values rows
      else if str_eq sql "DELETE FROM votes WHERE id = $1"
      then delete_row values rows
      else (none, rows);
}

find_row-next : (k : ℕ) (rows : Rows) {v : Vote} → find_row k rows ≡ some v → k < next_id rows
find_row-next k [] h = cc
find_row-next k ((i, new) ∷ rows) h = elim (Bool-cases (i == k)) [
  | inl same ↦ omega (arith, (==_iff i k).0 same)
  | inr other ↦ omega (arith, find_row-next k rows (rw other at h))
]

find_id-insert :
    (id : ℤ) (rows : Rows) (new : VoteNew) {v : Vote}
    → find_id id rows ≡ some v
    → find_id id ((next_id rows, new) ∷ rows) ≡ some v
find_id-insert (pos k) rows new h = elim (Bool-cases (next_id rows == k)) [
  | inl same ↦ absurd (omega (arith, (==_iff (next_id rows) k).0 same, find_row-next k rows h))
  | inr other ↦ rw other h
]
find_id-insert (negsuc k) rows new h = cc

find_row-remove : (k m : ℕ) (rows : Rows) → k ≢ m → find_row k (remove m rows) ≡ find_row k rows
find_row-remove k m [] ne = refl
find_row-remove k m ((i, new) ∷ rows) ne =
    ground (arith, find_row-remove k m rows ne, ==_iff i k, ==_iff i m)

find_id-remove :
    (id other : ℤ) (rows : Rows) → id ≢ other → find_id id (remove_id other rows) ≡ find_id id rows
find_id-remove (pos k) (pos m) rows ne =
    find_row-remove k m rows (λ e. ne (ap (λ (n : ℕ). pos n) e))
find_id-remove (pos k) (negsuc m) rows ne = refl
find_id-remove (negsuc k) other rows ne = refl

insert_keeps :
    (values : List Value) (rows : Rows) (w : Vote)
    → find_id w.id rows ≡ some w
    → find_id w.id (insert values rows).1 ≡ some w
insert_keeps (varchar account ∷ integer option ∷ integer proposal_id ∷ varchar dao ∷ []) rows w h =
    find_id-insert w.id rows
      (record { account = account; option = option; proposal_id = proposal_id; dao = dao }) h
insert_keeps _ rows w h = h

pub db-IsTable : IsTable db
db-IsTable = record {
  Row = λ rows v. find_id v.id rows ≡ some v;
  up = λ rows. true;
  selects = λ rows v up hv. rw hv refl;
  inserts = λ rows account option proposal_id dao found h. (
    pos (next_id rows),
    sym (some-injective _ _ h),
    rw ((==_iff (next_id rows) (next_id rows)).1 refl) refl,
  );
  select_keeps = λ rows id w hw. hw;
  select_all_keeps = λ rows w hw. hw;
  insert_keeps = λ rows values w hw. insert_keeps values rows w hw;
  delete_keeps = λ rows id w ne hw. find_id-remove w.id id rows ne ∙ hw;
}

pub db_is_up : (rows : Rows) → db-IsTable.up rows ≡ true
unfolding db-IsTable
db_is_up rows = refl
