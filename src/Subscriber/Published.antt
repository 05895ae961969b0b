-- ===== src/Subscriber/Published.antt =====
-- `EventPublishedSubscriber` (internal/subscriber/subscriber.go): a stored event is published again
-- under the subject that the configuration gives to it.
pub mod Dispatch
pub mod WholeBlock
pub mod Handled
use carbonable_leaderboard_b.Prelude.{
  String, List, [], ◌∷◌, ◌++◌, Option, none, some, get_elem?, ◌==◌, not, if◌then◌else◌,
}
use carbonable_leaderboard_b.Go.Outcome.{Outcome, ok, ◌>>=◌}
use carbonable_leaderboard_b.Starknet.Block.{Event}
use carbonable_leaderboard_b.Starknet.FeltText.{ensure_stark_felt}
use carbonable_leaderboard_b.Config.{Config, Contract, get_contract}
use carbonable_leaderboard_b.Indexer.EventIndexer.{Msg}
use carbonable_leaderboard_b.Subscriber.Base.{Services, or_panic}

module _ (sv : Services) where
  -- `felt.String()` of the hash of the event's name in the contract
  abbrev pub name_felt : String → String
  name_felt name = sv.felts.to_string (sv.felts.starknet_keccak name)

  -- The loop over the events of the contract. Go visits a map in any order: the list has the order of
  -- this visit.
  unfoldable pub publish_matching : List (String × String) → String → String → List Msg → List Msg
  publish_matching [] felt event_id published = published
  publish_matching ((i, e) ∷ events) felt event_id published =
      publish_matching events felt event_id (
        if not (name_felt i == felt)
        then published
        else published ++ record { subject = e; body = event_id } ∷ [])

  -- behind the look-up of the contract
  unfoldable pub publish_for : Option Contract → Event → List Msg → Outcome (List Msg)
  unfolding publish_matching
  publish_for none event published = ok published
  publish_for (some contract) event published = or_panic (get_elem? event.keys 0) >>= λ felt.
      ok (publish_matching contract.events felt event.event_id published)

  -- The messages published after the handler; `none` is an event that cannot be decoded.
  unfoldable pub event_published : Config → Option Event → List Msg → Outcome (List Msg)
  unfolding publish_for
  event_published cfg none published = ok published
  event_published cfg (some event) published =
      publish_for (get_contract cfg (ensure_stark_felt event.from_address)) event published
