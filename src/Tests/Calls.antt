-- ===== src/Tests/Calls.antt =====
-- Calls of the stores over Postgres and Badger, which are empty at first.
use carbonable_leaderboard_b.Prelude.{true, false, List, [], ◌∷◌}
use carbonable_leaderboard_b.Indexer.Calls
use carbonable_leaderboard_b.Indexer.Calls.{Call, Answer, value, there, done}

abbrev calls : List Call
calls =
    Calls.has "BLOCK#1"
    ∷ Calls.get "BLOCK#1"
    ∷ Calls.set "BLOCK#1" (7 ∷ [])
    ∷ Calls.has "BLOCK#1"
    ∷ Calls.get "BLOCK#1"
    ∷ Calls.has "BLOCK#2"
    ∷ []

abbrev answers : List Answer
answers = there false ∷ value [] ∷ done true ∷ there true ∷ value (7 ∷ []) ∷ there false ∷ []
