-- ===== src/Indexer/Loop/Feeding.antt =====
-- How the loop of `EventIndexer.start` moves on (internal/indexer/indexer.go).
use text.Mathlib.TextPositions.{eq_refl}
use carbonable_leaderboard_b.Prelude.{
  ℕ, ◌+◌, ◌%◌, ◌^◌, ◌≤◌, ◌<◌, ◌≡◌, refl, ap, ◌∙◌, List, [], ◌∷◌, ◌++◌, none, some, arith, inl, inr,
  Option-cases, length, length-append,
}
use carbonable_leaderboard_b.Starknet.Block.{GetBlockResponse}
use carbonable_leaderboard_b.Indexer.Storage.{Storage, IsReliable}
use carbonable_leaderboard_b.Indexer.EventIndexer.{Codecs}
use carbonable_leaderboard_b.Indexer.Loop.{
  Gateway, Feed, block_key, fetch_block, sync_block, round, rounds,
}

module _ {S : Type 0} (storage : Storage S) (codecs : Codecs) where
  -- The counter of retries stays small, and the number to fetch is that of the start, raised by the
  -- number of the blocks sent.
  abbrev pub InStep : ℕ → Feed storage codecs → Type 0
  InStep start f = (f.retries ≤ 6) × (f.block ≡ (start + length f.sent) % 2 ^ 64)

  round-InStep :
      (start : ℕ) (g : Gateway) (f : Feed storage codecs)
      → InStep start f
      → InStep start (round storage codecs g f)
  unfolding round
  round-InStep start g f h = elim (Option-cases (fetch_block storage codecs f.store f.block)) [
    | inl failed ↦ rw (failed, round) (ground (arith, h))
    | inr (resp, found) ↦
        rw (found, round) (h.0, omega (arith, h.1, length-append f.sent (resp ∷ [])))
  ]

  -- Whatever the gateway answers, over the rounds of the loop the counter of retries never passes 6,
  -- and the number to fetch is that of the start, raised by the number of the blocks sent, modulo 2^64.
  pub rounds-InStep :
      (gateways : List Gateway) (start : ℕ) (f : Feed storage codecs)
      → InStep start f
      → InStep start (rounds storage codecs gateways f)
  unfolding rounds
  rounds-InStep [] start f h = h
  rounds-InStep (g ∷ gs) start f h =
      rounds-InStep gs start (round storage codecs g f) (round-InStep start g f h)

  round_waits :
      (g : Gateway) (f : Feed storage codecs)
      → fetch_block storage codecs f.store f.block ≡ none
      → f.retries ≤ 5
      → round storage codecs g f ≡ record f { retries = f.retries + 1 }
  unfolding round
  round_waits g f failed few = rw (failed, round) (ground arith)

  round_syncs :
      (g : Gateway) (f : Feed storage codecs)
      → fetch_block storage codecs f.store f.block ≡ none
      → 5 < f.retries
      → round storage codecs g f
        ≡ record f { store = sync_block storage codecs g f.block f.store; retries = 1 }
  unfolding round
  round_syncs g f failed many = rw (failed, round) (ground arith)

  rounds-append :
      (gs hs : List Gateway) (f : Feed storage codecs)
      → rounds storage codecs (gs ++ hs) f ≡ rounds storage codecs hs (rounds storage codecs gs f)
  unfolding rounds
  rounds-append [] hs f = refl
  rounds-append (g ∷ gs) hs f = rounds-append gs hs (round storage codecs g f)

  two_rounds :
      (g h : Gateway) (f : Feed storage codecs)
      → rounds storage codecs (g ∷ h ∷ []) f ≡ round storage codecs h (round storage codecs g f)
  unfolding rounds
  two_rounds g h f = refl

  rounds_wait :
      (gs : List Gateway) (f : Feed storage codecs)
      → fetch_block storage codecs f.store f.block ≡ none
      → f.retries + length gs ≤ 6
      → rounds storage codecs gs f ≡ record f { retries = f.retries + length gs }
  unfolding rounds
  rounds_wait [] f failed few = ap (λ r. record f { retries = r }) (omega arith)
  rounds_wait (g ∷ gs) f failed few =
      ap (rounds storage codecs gs) (round_waits g f failed (omega arith))
      ∙ rounds_wait gs (record f { retries = f.retries + 1 }) failed (omega arith)
      ∙ ap (λ r. record f { retries = r }) (omega arith)

  pub round_sends :
      (g : Gateway) (f : Feed storage codecs) (resp : GetBlockResponse)
      → fetch_block storage codecs f.store f.block ≡ some resp
      → round storage codecs g f
        ≡ record f { sent = f.sent ++ resp ∷ []; block = (f.block + 1) % 2 ^ 64 }
  unfolding round
  round_sends g f resp found = rw (found, round)

  sync_block_lem :
      (g : Gateway) (n : ℕ) (resp : GetBlockResponse) (s : S)
      → g n ≡ some resp
      → sync_block storage codecs g n s
        ≡ (storage.set s (block_key resp.block_number) (codecs.block.encode resp)).0
  unfolding sync_block
  sync_block_lem g n resp s answered = rw (answered, sync_block)

  fetch-set :
      (reliable : IsReliable storage) (n : ℕ) (resp : GetBlockResponse) (s : S)
      → codecs.block.decode (codecs.block.encode resp) ≡ some resp
      → fetch_block storage codecs (storage.set s (block_key n) (codecs.block.encode resp)).0 n
        ≡ some resp
  unfolding fetch_block
  fetch-set reliable n resp s kept =
      rw
        (
          reliable.has-set s (block_key n) (block_key n) _,
          reliable.get-set s (block_key n) (block_key n) _,
          eq_refl,
        )
        kept

  fetch-sync_block :
      (reliable : IsReliable storage) (g : Gateway) (n : ℕ) (resp : GetBlockResponse) (s : S)
      → g n ≡ some resp
      → resp.block_number ≡ n
      → codecs.block.decode (codecs.block.encode resp) ≡ some resp
      → fetch_block storage codecs (sync_block storage codecs g n s) n ≡ some resp
  fetch-sync_block reliable g n resp s answered numbered kept =
      ap (λ t. fetch_block storage codecs t n)
        (sync_block_lem g n resp s answered
          ∙ ap (λ m. (storage.set s (block_key m) (codecs.block.encode resp)).0) numbered)
      ∙ fetch-set reliable n resp s kept

  -- A block that the store does not have is fetched from the gateway after the retries, and sent: the
  -- gateway of the round in which the counter is 6 answers the block with its own number, gob reads it
  -- as it was written, and the next round sends it and goes on to the next number.
  pub missing_block_is_sent :
      (reliable : IsReliable storage) (waiting : List Gateway) (g h : Gateway)
      (f : Feed storage codecs) (resp : GetBlockResponse)
      → fetch_block storage codecs f.store f.block ≡ none
      → f.retries + length waiting ≡ 6
      → g f.block ≡ some resp
      → resp.block_number ≡ f.block
      → codecs.block.decode (codecs.block.encode resp) ≡ some resp
      → rounds storage codecs (waiting ++ g ∷ h ∷ []) f ≡ record {
        block = (f.block + 1) % 2 ^ 64;
        retries = 1;
        store = sync_block storage codecs g f.block f.store;
        sent = f.sent ++ resp ∷ [];
      }
  missing_block_is_sent reliable waiting g h f resp failed six answered numbered kept =
      let waited = record f { retries = f.retries + length waiting } in
      let synced = record f { store = sync_block storage codecs g f.block f.store; retries = 1 } in
      rounds-append waiting (g ∷ h ∷ []) f
      ∙ ap (rounds storage codecs (g ∷ h ∷ [])) (rounds_wait waiting f failed (omega arith))
      ∙ two_rounds g h waited
      ∙ ap (round storage codecs h) (round_syncs g waited failed (omega arith))
      ∙ round_sends h synced resp
          (fetch-sync_block reliable g f.block resp f.store answered numbered kept)
