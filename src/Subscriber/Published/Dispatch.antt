-- ===== src/Subscriber/Published/Dispatch.antt =====
-- From the indexer to the subscribers: what becomes of an event that is indexed
-- (internal/indexer/indexer.go and internal/subscriber/subscriber.go).
use text.Mathlib.TextPositions.{eq_refl}
use carbonable_leaderboard_b.Prelude.{
  ℕ, ◌≡◌, ap, sym, ◌∙◌, String, List, [], ◌∷◌, ◌++◌, some, inl, inr, Bool-cases, ◌==◌,
  if◌then◌else◌, append_assoc, append-nil,
}
use carbonable_leaderboard_b.Go.Outcome.{ok}
use carbonable_leaderboard_b.Starknet.Block.{Event, GetBlockResponse}
use carbonable_leaderboard_b.Starknet.FeltText.{ensure_stark_felt}
use carbonable_leaderboard_b.Config.{Config, Contract, get_contract}
use carbonable_leaderboard_b.Indexer.Storage.{Storage, IsReliable}
use carbonable_leaderboard_b.Indexer.EventIndexer.{
  Codecs, World, Msg, index_key, event_key, contract_event_key, stamped, index_one_event,
  save_contract_index_interessting_block,
}
use carbonable_leaderboard_b.Indexer.Keys.{index_key-event}
use carbonable_leaderboard_b.Subscriber.Base.{Services, stored_event}
use carbonable_leaderboard_b.Subscriber.Published.{
  name_felt, publish_matching, publish_for, event_published,
}

module _ {S : Type 0} (sv : Services) (storage : Storage S) (codecs : Codecs)
    (reliable : IsReliable storage) where
  get-save_index :
      (s : S) (address id : String) (n : ℕ)
      → storage.get
          (save_contract_index_interessting_block storage codecs s address n)
          (event_key id)
        ≡ storage.get s (event_key id)
  unfolding save_contract_index_interessting_block
  get-save_index s address id n =
      rw (reliable.get-set s (index_key address) (event_key id) _, index_key-event)

  -- The event that a subscriber reads under the id of a published message.
  pub stored-index_one_event :
      (address : String) (block : GetBlockResponse) (id : String) (event : Event) (w : World S)
      → sv.event_codec.decode (codecs.event.encode (stamped id block.timestamp event))
        ≡ some (stamped id block.timestamp event)
      → stored_event sv storage (index_one_event storage codecs address block id event w).store id
        ≡ some (stamped id block.timestamp event)
  unfolding stored_event index_one_event
  stored-index_one_event address block id event w kept =
      let buf = codecs.event.encode (stamped id block.timestamp event) in
      let s1 = (storage.set w.store (contract_event_key address id) buf).0 in
      let s2 = (storage.set s1 (event_key id) buf).0 in
      let here : storage.get s2 (event_key id) ≡ buf =
        rw (reliable.get-set s1 (event_key id) (event_key id) buf, eq_refl) in
      ap sv.event_codec.decode (get-save_index s2 address id block.block_number ∙ here) ∙ kept

-- The messages for the names whose hash is the event's first key, in the order of the visit.
abbrev pub messages : Services → String → String → List (String × String) → List Msg
messages sv felt id [] = []
messages sv felt id ((i, e) ∷ events) =
    let rest = messages sv felt id events in
    if name_felt sv i == felt then record { subject = e; body = id } ∷ rest else rest

module _ (sv : Services) where
  publish_matching_lem :
      (events : List (String × String)) (felt id : String) (published : List Msg)
      → publish_matching sv events felt id published ≡ published ++ messages sv felt id events
  unfolding publish_matching
  publish_matching_lem [] felt id published = sym (append-nil published)
  publish_matching_lem ((i, e) ∷ events) felt id published =
      elim (Bool-cases (name_felt sv i == felt)) [
        | inl same ↦ rw (publish_matching_lem events felt id, same) (append_assoc published _ _)
        | inr other ↦ rw (publish_matching_lem events felt id, other)
      ]

  pub publish_for_lem :
      (c : Contract) (event : Event) (felt : String) (keys : List String) (published : List Msg)
      → event.keys ≡ felt ∷ keys
      → publish_for sv (some c) event published
        ≡ ok (published ++ messages sv felt event.event_id c.events)
  unfolding publish_for
  publish_for_lem c event felt keys published h =
      rw (h, publish_matching_lem c.events felt event.event_id published)

-- An event that the indexer has stored for a configured contract, and that gob reads as it was
-- written, is published again, by the subscriber of its id, under the subject of each name of the
-- contract's events whose hash is the first key of the event, and under no other.
pub indexed_event_is_dispatched :
    {S : Type 0} (sv : Services) (storage : Storage S) (codecs : Codecs)
    (reliable : IsReliable storage) (cfg : Config) (c : Contract) (block : GetBlockResponse)
    (id : String) (event : Event) (felt : String) (keys : List String) (w : World S)
    → sv.event_codec.decode (codecs.event.encode (stamped id block.timestamp event))
      ≡ some (stamped id block.timestamp event)
    → get_contract cfg (ensure_stark_felt event.from_address) ≡ some c
    → event.keys ≡ felt ∷ keys
    → let after =
        index_one_event storage codecs (ensure_stark_felt event.from_address) block id event w in
      event_published sv cfg (stored_event sv storage after.store id) after.published
      ≡ ok (after.published ++ messages sv felt id c.events)
unfolding event_published
indexed_event_is_dispatched sv storage codecs reliable cfg c block id event felt keys w kept known
      first =
    let address = ensure_stark_felt event.from_address in
    let after = index_one_event storage codecs address block id event w in
    ap (λ o. event_published sv cfg o after.published)
      (stored-index_one_event sv storage codecs reliable address block id event w kept)
    ∙ ap (λ o. publish_for sv o (stamped id block.timestamp event) after.published) known
    ∙ publish_for_lem sv c (stamped id block.timestamp event) felt keys after.published first
