-- ===== src/Indexer/Storage.antt =====
-- The interface `Storage` of internal/indexer/storage.go. A state of type `S` stands for what the
-- store holds; `nil` bytes are the empty list.
use carbonable_leaderboard_b.Prelude.{Bool, true, String, List, ◌≡◌, ◌==◌, if◌then◌else◌, ◌||◌}
use carbonable_leaderboard_b.Go.Gob.{Bytes}

pub record Storage (S : Type 0) : Type 0 where
  pub get : S → String → Bytes
  pub has : S → String → Bool
  -- the store after the call, and whether it returned nil for its error
  pub set : S → String → Bytes → S × Bool
  pub scan : S → String → List Bytes

-- A store that answers every call: what was set last under a key is there. What `has` says of a key that
-- was never set is left open here; Indexer/Calls compares it with what the database holds.
pub record IsReliable {S : Type 0} (storage : Storage S) : Type 0 where
  pub get-set :
      (s : S) (k j : String) (v : Bytes)
      → storage.get (storage.set s k v).0 j ≡ (if k == j then v else storage.get s j)
  pub has-set :
      (s : S) (k j : String) (v : Bytes)
      → storage.has (storage.set s k v).0 j ≡ (k == j || storage.has s j)
  pub set_succeeds : (s : S) (k : String) (v : Bytes) → (storage.set s k v).1 ≡ true
