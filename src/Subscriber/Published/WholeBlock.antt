-- ===== src/Subscriber/Published/WholeBlock.antt =====
-- From a block to the handlers of its events (internal/indexer/indexer.go and
-- internal/subscriber/subscriber.go): what is read under the ids that indexing a block publishes.
use text.Mathlib.TextLemmas.{append_cancel_left}
use carbonable_leaderboard_b.Prelude.{
  ℕ, ◌≡◌, refl, ap, sym, subst, ◌∙◌, true, false, String, List, [], ◌∷◌, ◌++◌, some, All, inl, inr,
  Bool-cases, ◌==◌, eq_iff, append_assoc, append-nil,
}
use carbonable_leaderboard_b.Go.Outcome.{Outcome, ok, ◌>>=◌}
use carbonable_leaderboard_b.Starknet.Block.{Event, GetBlockResponse}
use carbonable_leaderboard_b.Starknet.FeltText.{ensure_stark_felt}
use carbonable_leaderboard_b.Config.{Config, Contract, get_contract}
use carbonable_leaderboard_b.Indexer.Storage.{Storage, IsReliable}
use carbonable_leaderboard_b.Indexer.EventIndexer.{
  Codecs, World, Msg, index_key, event_key, contract_event_key, stamped,
  save_contract_index_interessting_block, index_one_event,
}
use carbonable_leaderboard_b.Indexer.EventIndexer.IndexKept.{emitted_by}
use carbonable_leaderboard_b.Indexer.EventIndexer.Steps.{ids, NoTwice, index_own}
use carbonable_leaderboard_b.Indexer.Keys.{index_key-event, felt-event}
use carbonable_leaderboard_b.Subscriber.Base.{Services, stored_event}
use carbonable_leaderboard_b.Subscriber.Published.{event_published, publish_for}
use carbonable_leaderboard_b.Subscriber.Published.Dispatch.{
  messages, publish_for_lem, stored-index_one_event,
}

event_key-event : (j id : String) → (j == id) ≡ false → (event_key j == event_key id) ≡ false
event_key-event j id differ = elim (Bool-cases (event_key j == event_key id)) [
  | inl same ↦
      let e : (j == id) ≡ true =
        (eq_iff j id).1 (append_cancel_left "EVENT#" j id ((eq_iff _ _).0 same)) in
      absurd (cc (e, differ))
  | inr other ↦ other
]

module _ {S : Type 0} (sv : Services) (storage : Storage S) (codecs : Codecs)
    (reliable : IsReliable storage) (address : String) (block : GetBlockResponse) where
  pub stored-set :
      (s : S) (k id : String) (v : List ℕ)
      → (k == event_key id) ≡ false
      → stored_event sv storage (storage.set s k v).0 id ≡ stored_event sv storage s id
  unfolding stored_event
  stored-set s k id v other =
      ap sv.event_codec.decode (reliable.get-set s k (event_key id) v ∙ rw other)

  stored-one_event :
      (j id : String) (event : Event) (w : World S)
      → emitted_by address event ≡ true
      → (j == id) ≡ false
      → stored_event sv storage (index_one_event storage codecs address block j event w).store id
        ≡ stored_event sv storage w.store id
  unfolding index_one_event save_contract_index_interessting_block
  stored-one_event j id event w ours differ =
      let key : (contract_event_key address j == event_key id) ≡ false =
        subst (λ a. (contract_event_key a j == event_key id) ≡ false) ((eq_iff _ _).0 ours)
          (felt-event event.from_address _ id) in
      stored-set _ (index_key address) id _ (index_key-event id address)
      ∙ stored-set _ (event_key j) id _ (event_key-event j id differ)
      ∙ stored-set w.store (contract_event_key address j) id _ key

  abbrev pub AreOwn : List (String × Event) → Type 0
  AreOwn events = All (λ (p : String × Event). emitted_by address p.1 ≡ true) events

  -- What is stored under an id stays, over events of other ids.
  stored-own :
      (events : List (String × Event)) (id : String) (w : World S)
      → AreOwn events
      → All (λ j. (j == id) ≡ false) (ids events)
      → stored_event sv storage (index_own storage codecs address block events w).store id
        ≡ stored_event sv storage w.store id
  stored-own [] id w ours others = refl
  stored-own ((j, event) ∷ events) id w ours others =
      stored-own events id (index_one_event storage codecs address block j event w) ours.1 others.1
      ∙ stored-one_event j id event w ours.0 others.0

  -- gob reads the event as it was written, with its id and its time.
  abbrev pub IsKept : String × Event → Type 0
  IsKept (id, event) =
      sv.event_codec.decode (codecs.event.encode (stamped id block.timestamp event))
      ≡ some (stamped id block.timestamp event)

  abbrev pub IsStored : S → String × Event → Type 0
  IsStored s (id, event) = stored_event sv storage s id ≡ some (stamped id block.timestamp event)

  pub all-IsStored :
      (events : List (String × Event)) (w : World S)
      → AreOwn events
      → NoTwice (ids events)
      → All IsKept events
      → All (IsStored (index_own storage codecs address block events w).store) events
  all-IsStored [] w ours once kept = tt
  all-IsStored ((id, event) ∷ events) w ours once kept =
      let w' = index_one_event storage codecs address block id event w in
      (
        stored-own events id w' ours.1 once.0
            ∙ stored-index_one_event sv storage codecs reliable address block id event w kept.0,
        all-IsStored events w' ours.1 once.1 kept.1,
      )

module _ {S : Type 0} (sv : Services) (storage : Storage S) (cfg : Config) where
  -- `EventPublishedSubscriber` over the messages of the indexer, one after the other.
  abbrev pub publish_all : S → List String → List Msg → Outcome (List Msg)
  publish_all s [] published = ok published
  publish_all s (id ∷ l) published =
      event_published sv cfg (stored_event sv storage s id) published >>= publish_all s l

  abbrev pub HasKey : String × Event → Type 0
  HasKey (id, event) = (felt : String) × (keys : List String) × (event.keys ≡ felt ∷ keys)

  -- The messages for the subjects of the contract whose hash is the event's first key.
  abbrev pub messages_of :
      (c : Contract) (events : List (String × Event)) → All HasKey events → List Msg
  messages_of c [] keyed = []
  messages_of c ((id, event) ∷ events) keyed =
      messages sv keyed.0.0 id c.events ++ messages_of c events keyed.1

  module _ (codecs : Codecs) (reliable : IsReliable storage) (address : String)
      (block : GetBlockResponse) (c : Contract) where
    one_is_published :
        (s : S) (id : String) (event : Event) (key : HasKey (id, event)) (published : List Msg)
        → get_contract cfg address ≡ some c
        → emitted_by address event ≡ true
        → IsStored sv storage codecs reliable address block s (id, event)
        → event_published sv cfg (stored_event sv storage s id) published
          ≡ ok (published ++ messages sv key.0 id c.events)
    unfolding event_published
    one_is_published s id event key published known ours here =
        let e = stamped id block.timestamp event in
        let found : get_contract cfg (ensure_stark_felt event.from_address) ≡ some c =
          ap (get_contract cfg) ((eq_iff _ _).0 ours) ∙ known in
        ap (λ o. event_published sv cfg o published) here
        ∙ ap (λ o. publish_for sv o e published) found
        ∙ publish_for_lem sv c e key.0 key.1 published key.2

    pub all_are_published :
        (s : S) (events : List (String × Event)) (keyed : All HasKey events) (published : List Msg)
        → get_contract cfg address ≡ some c
        → AreOwn sv storage codecs reliable address block events
        → All (IsStored sv storage codecs reliable address block s) events
        → publish_all s (ids events) published ≡ ok (published ++ messages_of c events keyed)
    all_are_published s [] keyed published known ours stored = ap ok (sym (append-nil published))
    all_are_published s ((id, event) ∷ events) keyed published known ours stored =
        ap (λ o. o >>= publish_all s (ids events))
          (one_is_published s id event keyed.0 published known ours.0 stored.0)
        ∙ all_are_published s events keyed.1 (published ++ messages sv keyed.0.0 id c.events) known
            ours.1 stored.1
        ∙ ap ok (append_assoc published _ _)
