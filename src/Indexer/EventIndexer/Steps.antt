-- ===== src/Indexer/EventIndexer/Steps.antt =====
-- Indexing a block, event by event (`indexEvent` of internal/indexer/indexer.go).
use carbonable_leaderboard_b.Prelude.{
  ℕ, ◌+◌, ◌≡◌, refl, ap, sym, ◌∙◌, not, String, List, [], ◌∷◌, ◌++◌, inl, inr, Bool-cases, ◌==◌,
  if◌then◌else◌, append_assoc, append-nil, true, false, All,
}
use carbonable_leaderboard_b.Starknet.Block.{Event, TransactionReceipt, GetBlockResponse}
use carbonable_leaderboard_b.Indexer.Storage.{Storage}
use carbonable_leaderboard_b.Indexer.EventIndexer.{
  Codecs, World, event_id_of, index_one_event, index_events_from, index_receipts,
}
use carbonable_leaderboard_b.Indexer.EventIndexer.IndexKept.{emitted_by}
use carbonable_leaderboard_b.Indexer.EventIndexer.Published.{announce}

-- The events of a transaction with their ids, from the index `i`, and those of receipts.
abbrev pub named_from : String → ℕ → List Event → List (String × Event)
named_from hash i [] = []
named_from hash i (event ∷ events) = (event_id_of hash i, event) ∷ named_from hash (i + 1) events

abbrev pub named_in : List TransactionReceipt → List (String × Event)
named_in [] = []
named_in (tx ∷ txs) = named_from tx.transaction_hash 0 tx.events ++ named_in txs

-- Those of a contract.
abbrev pub own : String → List (String × Event) → List (String × Event)
own address [] = []
own address ((id, event) ∷ named) =
    let rest = own address named in if emitted_by address event then (id, event) ∷ rest else rest

abbrev pub ids : List (String × Event) → List String
ids [] = []
ids ((id, event) ∷ named) = id ∷ ids named

-- No id comes twice.
abbrev pub NoTwice : List String → Type 0
NoTwice [] = Unit
NoTwice (id ∷ l) = All (λ j. (j == id) ≡ false) l × NoTwice l

module _ {S : Type 0} (storage : Storage S) (codecs : Codecs) (address : String)
    (block : GetBlockResponse) where
  -- Both loops of `indexEvent` in one.
  abbrev step : String → Event → World S → World S
  step id event w =
      if not (emitted_by address event)
      then w
      else index_one_event storage codecs address block id event w

  abbrev steps : List (String × Event) → World S → World S
  steps [] w = w
  steps ((id, event) ∷ named) w = steps named (step id event w)

  steps-append :
      (a b : List (String × Event)) (w : World S) → steps (a ++ b) w ≡ steps b (steps a w)
  steps-append [] b w = refl
  steps-append ((id, event) ∷ a) b w = steps-append a b (step id event w)

  index_events-steps :
      (hash : String) (i : ℕ) (events : List Event) (w : World S)
      → index_events_from storage codecs address block hash i events w
        ≡ steps (named_from hash i events) w
  unfolding index_events_from
  index_events-steps hash i [] w = refl
  index_events-steps hash i (event ∷ events) w =
      index_events-steps hash (i + 1) events (step (event_id_of hash i) event w)

  index_receipts-steps :
      (txs : List TransactionReceipt) (w : World S)
      → index_receipts storage codecs address block txs w ≡ steps (named_in txs) w
  unfolding index_receipts
  index_receipts-steps [] w = refl
  index_receipts-steps (tx ∷ txs) w =
      index_receipts-steps txs
        (index_events_from storage codecs address block tx.transaction_hash 0 tx.events w)
      ∙ ap (steps (named_in txs)) (index_events-steps tx.transaction_hash 0 tx.events w)
      ∙ sym (steps-append (named_from tx.transaction_hash 0 tx.events) (named_in txs) w)

  -- What is done to the contract's own events.
  abbrev pub index_own : List (String × Event) → World S → World S
  index_own [] w = w
  index_own ((id, event) ∷ events) w =
      index_own events (index_one_event storage codecs address block id event w)

  steps-own :
      (named : List (String × Event)) (w : World S)
      → steps named w ≡ index_own (own address named) w
  steps-own [] w = refl
  steps-own ((id, event) ∷ named) w = elim (Bool-cases (emitted_by address event)) [
    | inl ours ↦
        let w' = index_one_event storage codecs address block id event w in
        let done : step id event w ≡ w' = rw ours in
        let kept : own address ((id, event) ∷ named) ≡ (id, event) ∷ own address named = rw ours in
        ap (steps named) done ∙ steps-own named w' ∙ ap (λ l. index_own l w) (sym kept)
    | inr other ↦
        let passed : step id event w ≡ w = rw other in
        let left : own address ((id, event) ∷ named) ≡ own address named = rw other in
        ap (steps named) passed ∙ steps-own named w ∙ ap (λ l. index_own l w) (sym left)
  ]

  pub index_receipts-own :
      (txs : List TransactionReceipt) (w : World S)
      → index_receipts storage codecs address block txs w ≡ index_own (own address (named_in txs)) w
  index_receipts-own txs w = index_receipts-steps txs w ∙ steps-own (named_in txs) w

  -- The ids of the contract's own events are published.
  pub published-own :
      (events : List (String × Event)) (w : World S)
      → (index_own events w).published ≡ w.published ++ announce (ids events)
  published-own [] w = sym (append-nil w.published)
  published-own ((id, event) ∷ events) w =
      published-own events (index_one_event storage codecs address block id event w)
      ∙ (unfold index_one_event in append_assoc w.published _ _)

pub own-emitted :
    (address : String) (named : List (String × Event))
    → All (λ (p : String × Event). emitted_by address p.1 ≡ true) (own address named)
own-emitted address [] = tt
own-emitted address ((id, event) ∷ named) = elim (Bool-cases (emitted_by address event)) [
  | inl ours ↦ rw ours (ours, own-emitted address named)
  | inr other ↦ rw other (own-emitted address named)
]
