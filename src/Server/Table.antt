-- ===== src/Server/Table.antt =====
-- The votes that the server stores, over any sequence of requests.
use mathlib.Core.Path.{subst}
use aragon_zk_governance.Common.{
  ◌≡◌, ◌≢◌, refl, String, Option, none, some, List, [], ◌∷◌, Bool, true,
}
use aragon_zk_governance.Outcome.{ok, ok-injective}
use aragon_zk_governance.Server.{
  ℤ, VoteNew, Vote, Value, varchar, integer, Columns, Database, from_row, fetch_one, bad_request,
  Machine, Request, retrieve_all, retrieve, add, prove, retrieve_vote, retrieve_all_votes, add_vote,
  delete_vote, service,
}

-- A row of the table of migrations/0001_init.sql, all columns in order.
abbrev pub columns : Vote → Columns
columns v =
    ("id", integer v.id)
    ∷ ("account", varchar v.account)
    ∷ ("option", integer v.option)
    ∷ ("proposal_id", integer v.proposal_id)
    ∷ ("dao", varchar v.dao)
    ∷ []

abbrev pub vote_row : ℤ → String → ℤ → ℤ → String → Vote
vote_row id account option proposal_id dao = record {
  id = id;
  account = account;
  option = option;
  proposal_id = proposal_id;
  dao = dao;
}

-- What the server relies on, of PostgreSQL and the table `votes` with the primary key `id`. An
-- insertion puts its parameters $1 to $4 in the columns that it lists, in their order, beside a new
-- id, and returns all columns; a selection by id finds the one row with that id while the database is
-- up; a selection changes nothing, an insertion keeps the rows, a deletion by id keeps the rows with
-- other ids, and where a statement fails nothing is changed.
pub record IsTable (db : Database) : Type 1 where
  pub Row : db.State → Vote → Type 0
  pub up : db.State → Bool
  pub selects :
      (s : db.State) (v : Vote)
      → up s ≡ true
      → Row s v
      → (db.query "SELECT * FROM votes WHERE id = $1" (integer v.id ∷ []) s).0
        ≡ some (columns v ∷ [])
  pub inserts :
      (s : db.State) (account : String) (option proposal_id : ℤ) (dao : String)
      (rows : List Columns)
      → (db.query
          "INSERT INTO votes(account, option, proposal_id, dao) VALUES ($1, $2, $3, $4) RETURNING id, account, option, proposal_id, dao"
          (varchar account ∷ integer option ∷ integer proposal_id ∷ varchar dao ∷ [])
          s).0
        ≡ some rows
      → (id : ℤ) × (rows ≡ columns (vote_row id account option proposal_id dao) ∷ [])
        × Row
            (db.query
              "INSERT INTO votes(account, option, proposal_id, dao) VALUES ($1, $2, $3, $4) RETURNING id, account, option, proposal_id, dao"
              (varchar account ∷ integer option ∷ integer proposal_id ∷ varchar dao ∷ [])
              s).1
            (vote_row id account option proposal_id dao)
  pub select_keeps :
      (s : db.State) (id : ℤ) (w : Vote)
      → Row s w
      → Row (db.query "SELECT * FROM votes WHERE id = $1" (integer id ∷ []) s).1 w
  pub select_all_keeps :
      (s : db.State) (w : Vote)
      → Row s w
      → Row (db.query "SELECT * FROM votes ORDER BY id DESC" [] s).1 w
  pub insert_keeps :
      (s : db.State) (values : List Value) (w : Vote)
      → Row s w
      → Row
          (db.query
            "INSERT INTO votes(account, option, proposal_id, dao) VALUES ($1, $2, $3, $4) RETURNING id, account, option, proposal_id, dao"
            values s).1
          w
  pub delete_keeps :
      (s : db.State) (id : ℤ) (w : Vote)
      → w.id ≢ id
      → Row s w
      → Row (db.query "DELETE FROM votes WHERE id = $1" (integer id ∷ []) s).1 w

-- A request that may come after a vote and leaves it.
abbrev pub Keeps : ℤ → Request → Type 0
Keeps id retrieve_all = Unit
Keeps id (retrieve other) = Unit
Keeps id (add new) = Unit
Keeps id (Request.delete other) = id ≢ other
Keeps id (prove payload) = Unit

abbrev pub AllKeep : ℤ → List Request → Type 0
AllKeep id [] = Unit
AllKeep id (r ∷ rs) = Keeps id r × AllKeep id rs

module _ (db : Database) (table : IsTable db) (machine : Machine) where
  -- The state after the requests, the first one first.
  abbrev pub serve : List Request → db.State → db.State
  serve [] state = state
  serve (r ∷ rs) state = serve rs (service db machine r state).1

  service-Row :
      (r : Request) (state : db.State) (v : Vote)
      → Keeps v.id r
      → table.Row state v
      → table.Row (service db machine r state).1 v
  unfolding service retrieve_vote retrieve_all_votes add_vote delete_vote
  service-Row retrieve_all state v keeps row = table.select_all_keeps state v row
  service-Row (retrieve id) state v keeps row = table.select_keeps state id v row
  service-Row (add new) state v keeps row = table.insert_keeps state _ v row
  service-Row (Request.delete id) state v keeps row = table.delete_keeps state id v keeps row
  service-Row (prove payload) state v keeps row = row

  serve-Row :
      (rs : List Request) (state : db.State) (v : Vote)
      → AllKeep v.id rs
      → table.Row state v
      → table.Row (serve rs state) v
  serve-Row [] state v keeps row = row
  serve-Row (r ∷ rs) state v (first, rest) row =
      serve-Row rs (service db machine r state).1 v rest (service-Row r state v first row)

  fetched-rows :
      (o : Option (List Columns)) {v : Vote}
      → bad_request (fetch_one o) ≡ ok v
      → (rows : List Columns) × (o ≡ some rows)
  unfolding fetch_one bad_request
  fetched-rows none h = cc
  fetched-rows (some rows) h = (rows, refl)

  -- A vote that was added is retrieved under the id that the answer gave, with the account, option,
  -- proposal and DAO that were posted, whatever requests have come in between, if none of them
  -- deletes that id and the database is up.
  pub retrieve_vote-add_vote :
      (new : VoteNew) (state : db.State) (v : Vote) (rs : List Request)
      → (add_vote db new state).0 ≡ ok v
      → AllKeep v.id rs
      → table.up (serve rs (add_vote db new state).1) ≡ true
      → ((retrieve_vote db v.id (serve rs (add_vote db new state).1)).0 ≡ ok v)
        × (v ≡ record {
          id = v.id;
          account = new.account;
          option = new.option;
          proposal_id = new.proposal_id;
          dao = new.dao;
        })
  unfolding add_vote retrieve_vote bad_request fetch_one from_row
  retrieve_vote-add_vote new state v rs h keeps is_up =
      let (found, e) = fetched-rows _ h in
      let (id, same, row) =
        table.inserts state new.account new.option new.proposal_id new.dao found e in
      let stored : vote_row id new.account new.option new.proposal_id new.dao ≡ v =
        ok-injective (rw (e, same) at h) in
      let after = (add_vote db new state).1 in
      let row' : table.Row (serve rs after) v =
        serve-Row rs after v keeps (subst (λ w. table.Row after w) stored row) in
      let selected = table.selects (serve rs after) v is_up row' in
      (rw selected refl, rw (← stored) refl)
