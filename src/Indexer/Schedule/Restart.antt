-- ===== src/Indexer/Schedule/Restart.antt =====
-- What the indexer of a contract does when it is started again (`Run` of internal/indexer/indexer.go):
-- the blocks of its index are replayed, and the feed goes on from the latest block.
use carbonable_leaderboard_b.Prelude.{
  ℕ, ◌≤◌, ◌<◌, ◌≡◌, refl, sym, ap, subst, ◌∙◌, Bool, true, false, String, List, [], ◌∷◌, ◌++◌,
  Option, none, some, arith, inl, inr, Bool-cases, All, filter, map,
}
use carbonable_leaderboard_b.Starknet.Block.{GetBlockResponse}
use carbonable_leaderboard_b.Indexer.Storage.{Storage, IsReliable}
use carbonable_leaderboard_b.Indexer.ContractIndex.{ContractIndex, max_from, RoundTripsInto}
use carbonable_leaderboard_b.Indexer.EventIndexer.{Codecs, World, index_key}
use carbonable_leaderboard_b.Indexer.EventIndexer.IndexKept.{is_touched}
use carbonable_leaderboard_b.Indexer.EventIndexer.Published.{announce}
use carbonable_leaderboard_b.Indexer.Loop.{Gateway, Feed, fetch_block, replay_blocks, round, run}
use carbonable_leaderboard_b.Indexer.Loop.Feeding.{round_sends}
use carbonable_leaderboard_b.Indexer.Schedule.{Delivery, receive, blocks_of}
use carbonable_leaderboard_b.Indexer.Schedule.Apart.{
  index_after, or_new, indices_after, Reads, receive-Reads,
}
use carbonable_leaderboard_b.Indexer.Schedule.Replayed.{
  AllDifferent, number_of, list_of, deliveries_of, ids_in, list-indices_after, AreNew-nil,
  All-filter, ids_in-touched, published-receive, replay_blocks_lem, list-Reads, fetch_block-receive,
}

-- The block can be fetched from the store under its number.
abbrev pub CanFetch : {S : Type 0} → Storage S → Codecs → S → GetBlockResponse → Type 0
CanFetch storage codecs s b = fetch_block storage codecs s b.block_number ≡ some b

All-map :
    (P Q : GetBlockResponse → Type 0) (blocks : List GetBlockResponse)
    → ((b : GetBlockResponse) → P b → Q b)
    → All P blocks
    → All Q blocks
All-map P Q [] f h = tt
All-map P Q (b ∷ blocks) f h = (f b h.0, All-map P Q blocks f h.1)

All-last :
    (P : GetBlockResponse → Type 0) (before : List GetBlockResponse) (b : GetBlockResponse)
    → All P (before ++ b ∷ [])
    → P b
All-last P [] b h = h.0
All-last P (c ∷ before) b h = All-last P before b h.1

filter-snoc :
    (p : GetBlockResponse → Bool) (before : List GetBlockResponse) (b : GetBlockResponse)
    → p b ≡ true
    → filter p (before ++ b ∷ []) ≡ filter p before ++ b ∷ []
filter-snoc p [] b yes_b = rw yes_b
filter-snoc p (c ∷ before) b yes_b = elim (Bool-cases (p c)) [
  | inl kept ↦ rw (kept, filter-snoc p before b yes_b)
  | inr left ↦ rw (left, filter-snoc p before b yes_b)
]

indices_after-snoc :
    (address : String) (o : Option ContractIndex) (before : List GetBlockResponse)
    (b : GetBlockResponse)
    → indices_after address o (before ++ b ∷ [])
      ≡ some (index_after address (or_new (indices_after address o before) b.block_number) b)
indices_after-snoc address o [] b = refl
indices_after-snoc address o (c ∷ before) b =
    indices_after-snoc address (some (index_after address (or_new o c.block_number) c)) before b

max_from_top : (n : ℕ) (l : List ℕ) → All (λ m. m ≤ n) l → max_from n l ≡ n
max_from_top n [] h = refl
max_from_top n (m ∷ l) h = ground (arith, h, max_from_top n l h.1)

numbers_below :
    (p : GetBlockResponse → Bool) (n : ℕ) (blocks : List GetBlockResponse)
    → All (λ (c : GetBlockResponse). c.block_number ≤ n) blocks
    → All (λ m. m ≤ n) (map number_of (filter p blocks))
numbers_below p n [] h = tt
numbers_below p n (c ∷ blocks) h = elim (Bool-cases (p c)) [
  | inl kept ↦ rw kept (h.0, numbers_below p n blocks h.1)
  | inr left ↦ rw left (numbers_below p n blocks h.1)
]

module _ {S : Type 0} (storage : Storage S) (codecs : Codecs) (reliable : IsReliable storage)
    (indices : RoundTripsInto codecs.index) (address : String) where
  replay_lem :
      (deliveries : List Delivery) (w : World S) (start : ℕ)
      → storage.has w.store (index_key address) ≡ false
      → All (λ (d : Delivery). 0 < d.block.block_number) deliveries
      → All (CanFetch storage codecs w.store) (blocks_of address deliveries)
      → AllDifferent (blocks_of address deliveries)
      → (run storage codecs (receive storage codecs deliveries w).store address start).0
        ≡ filter (is_touched address) (blocks_of address deliveries)
  unfolding run
  replay_lem deliveries w start fresh positive stored different =
      let blocks = blocks_of address deliveries in
      let after = (receive storage codecs deliveries w).store in
      let touched = filter (is_touched address) blocks in
      let reads =
        receive-Reads storage codecs reliable indices address deliveries w none positive fresh in
      let listed =
        list-Reads storage codecs address after (indices_after address none blocks) start reads
        ∙ list-indices_after address none blocks (AreNew-nil blocks) different in
      ap (replay_blocks storage codecs after) listed
      ∙ replay_blocks_lem storage codecs address after touched (
          All-map _ _ touched
            (λ b found.
              fetch_block-receive storage codecs reliable deliveries w b.block_number ∙ found)
            (All-filter (CanFetch storage codecs w.store) (is_touched address) blocks stored))

  -- Over a store that keeps its contract and has no index of the contract at first: after the indexers
  -- of any contracts have indexed blocks in any order, the contract's own all different, with numbers
  -- other than 0, and stored under their numbers, an indexer of the contract that is started again
  -- replays exactly those of its blocks that touch the contract, in order, and its `Index` of these
  -- publishes the ids of all events of the contract in all of its blocks, each once and in order.
  pub restart_publishes_again :
      (deliveries : List Delivery) (w : World S) (start : ℕ)
      → storage.has w.store (index_key address) ≡ false
      → All (λ (d : Delivery). 0 < d.block.block_number) deliveries
      → All (CanFetch storage codecs w.store) (blocks_of address deliveries)
      → AllDifferent (blocks_of address deliveries)
      → let after = (receive storage codecs deliveries w).store in
        let replay = (run storage codecs after address start).0 in
        let again : World S = record { store = after; published = [] } in
        (replay ≡ filter (is_touched address) (blocks_of address deliveries))
        × ((receive storage codecs (deliveries_of address replay) again).published
            ≡ announce (ids_in address (blocks_of address deliveries)))
  restart_publishes_again deliveries w start none_yet positive stored different =
      let blocks = blocks_of address deliveries in
      let after = (receive storage codecs deliveries w).store in
      let replay = (run storage codecs after address start).0 in
      let same = replay_lem deliveries w start none_yet positive stored different in
      (
        same,
        published-receive storage codecs address replay (record { store = after; published = [] })
            ∙ ap (λ l. announce (ids_in address l)) same
            ∙ ap announce (ids_in-touched address blocks),
      )

  -- The feed of an indexer that is started again begins with the block that was indexed last.
  feed_lem :
      (deliveries : List Delivery) (w : World S) (start : ℕ) (before : List GetBlockResponse)
      (b : GetBlockResponse)
      → storage.has w.store (index_key address) ≡ false
      → All (λ (d : Delivery). 0 < d.block.block_number) deliveries
      → blocks_of address deliveries ≡ before ++ b ∷ []
      → AllDifferent (blocks_of address deliveries)
      → All (λ (c : GetBlockResponse). c.block_number ≤ b.block_number) (before ++ b ∷ [])
      → start ≤ b.block_number
      → (run storage codecs (receive storage codecs deliveries w).store address start).1 ≡ record {
        block = b.block_number;
        retries = 0;
        store = (receive storage codecs deliveries w).store;
        sent = [];
      }
  unfolding run
  feed_lem deliveries w start before b fresh positive last different highest early =
      let after = (receive storage codecs deliveries w).store in
      let o = indices_after address none before in
      let c = index_after address (or_new o b.block_number) b in
      let ends : indices_after address none (blocks_of address deliveries) ≡ some c =
        ap (indices_after address none) last ∙ indices_after-snoc address none before b in
      let reads : Reads storage codecs address after (some c) =
        subst (Reads storage codecs address after) ends (
          receive-Reads storage codecs reliable indices address deliveries w none positive fresh) in
      let listed : c.blocks ≡ map number_of (filter (is_touched address) (before ++ b ∷ [])) =
        ap list_of (sym ends)
        ∙ list-indices_after address none (blocks_of address deliveries)
            (AreNew-nil (blocks_of address deliveries)) different
        ∙ ap (λ l. map number_of (filter (is_touched address) l)) last in
      let top : c.latest_block ≡ b.block_number =
        ap (max_from b.block_number) listed
        ∙ max_from_top b.block_number _
            (numbers_below (is_touched address) b.block_number (before ++ b ∷ []) highest) in
      rw (reads.0 start, top) (ground arith)

  -- Over a store that keeps its contract and has no index of the contract at first: after the
  -- indexers of any contracts have indexed blocks in any order, the contract's own all different,
  -- with numbers other than 0, and stored under their numbers, where the block that the contract's
  -- indexer received last touches the contract, has the highest number of its blocks, and is not
  -- before the configured start: an indexer of the contract that is started again sends that block
  -- twice, as the last of the replay and as the first of the feed, whatever the gateway answers.
  pub latest_block_is_sent_twice :
      (deliveries : List Delivery) (w : World S) (start : ℕ) (before : List GetBlockResponse)
      (b : GetBlockResponse) (gateway : Gateway)
      → storage.has w.store (index_key address) ≡ false
      → All (λ (d : Delivery). 0 < d.block.block_number) deliveries
      → All (CanFetch storage codecs w.store) (blocks_of address deliveries)
      → AllDifferent (blocks_of address deliveries)
      → blocks_of address deliveries ≡ before ++ b ∷ []
      → All (λ (c : GetBlockResponse). c.block_number ≤ b.block_number) (before ++ b ∷ [])
      → is_touched address b ≡ true
      → start ≤ b.block_number
      → let after = (receive storage codecs deliveries w).store in
        let (replay, feed) = run storage codecs after address start in
        (replay ≡ filter (is_touched address) before ++ b ∷ [])
        × ((round storage codecs gateway feed).sent ≡ b ∷ [])
  latest_block_is_sent_twice deliveries w start before b gateway fresh positive stored different
        last highest touched early =
      let after = (receive storage codecs deliveries w).store in
      let feed = feed_lem deliveries w start before b fresh positive last different highest early in
      let found : fetch_block storage codecs after b.block_number ≡ some b =
        fetch_block-receive storage codecs reliable deliveries w b.block_number
        ∙ (All-last (CanFetch storage codecs w.store) before b
            (subst (All (CanFetch storage codecs w.store)) last stored)) in
      (
        replay_lem deliveries w start fresh positive stored different
            ∙ ap (filter (is_touched address)) last
            ∙ filter-snoc (is_touched address) before b touched,
        rw feed (
            ap (λ (f : Feed storage codecs). f.sent)
              (round_sends storage codecs gateway
                (record { block = b.block_number; retries = 0; store = after; sent = [] }) b
                found)),
      )
