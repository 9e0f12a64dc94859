-- ===== src/Tests/Server.antt =====
-- The server's theorems on a table in memory and a small machine.
use aragon_zk_governance.Common.{
  String, ◌≡◌, refl, arith, none, some, List, [], ◌∷◌, str_eq, if◌then◌else◌,
}
use aragon_zk_governance.Outcome.{ok}
use aragon_zk_governance.Server.{
  pos, VoteNew, Vote, Machine, Request, retrieve_all, add, retrieve_vote, add_vote, bad_request,
  fetch_one, from_row,
}
use aragon_zk_governance.Server.Table.{AllKeep, serve, retrieve_vote-add_vote}
use aragon_zk_governance.Tests.Database.{db, db-IsTable, db_is_up, row}

abbrev vote_of : String → VoteNew
vote_of account = record { account = account; option = pos 2; proposal_id = pos 1; dao = "dao" }

abbrev machine : Machine
machine = record {
  var = λ name. if str_eq name "CHAIN_ID" then none else some name;
  output = λ command. some (record { status = 1 });
}

abbrev stored : Vote
stored = row 1 (vote_of "alice")

abbrev requests : List Request
requests = add (vote_of "bob") ∷ Request.delete (pos 3) ∷ retrieve_all ∷ []

abbrev after_add : db.State
after_add = (1, vote_of "alice") ∷ []

left_alone : AllKeep (pos 1) requests
left_alone = (tt, ((λ same. ground arith), (tt, tt)))

retrieve_vote-add_vote_example :
    ((retrieve_vote db (pos 1) (serve db db-IsTable machine requests after_add)).0 ≡ ok stored)
    × (stored ≡ stored)
unfolding add_vote bad_request fetch_one from_row
retrieve_vote-add_vote_example =
    retrieve_vote-add_vote db db-IsTable machine (vote_of "alice") [] stored requests refl
      left_alone (db_is_up (serve db db-IsTable machine requests after_add))
