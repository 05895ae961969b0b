-- ===== src/Subscriber/Register.antt =====
-- `RegisterSubscribers` and the functions that it calls (internal/subscriber/*.go): which handler
-- gets the messages of which subject.
pub mod Recorded
pub mod CanRead
pub mod Every
pub mod Delivered
use carbonable_leaderboard_b.Prelude.{String, List, [], ◌∷◌, ◌++◌, Option, none, some, lookup}
use carbonable_leaderboard_b.Go.Outcome.{Outcome, ok, ◌>>=◌}
use carbonable_leaderboard_b.Starknet.Block.{Event}
use carbonable_leaderboard_b.Indexer.Storage.{Storage}
use carbonable_leaderboard_b.Indexer.EventIndexer.{Msg}
use carbonable_leaderboard_b.Subscriber.Base.{Services, Database, stored_event}
use carbonable_leaderboard_b.Subscriber.Handlers.{
  minter_buy, minter_airdrop, offseter_withdraw, offseter_deposit, offseter_claim, yielder_withdraw,
  yielder_deposit, yielder_claim, handle_migration,
}
use carbonable_leaderboard_b.Subscriber.Project.{
  project_transfer, project_transfer_value, project_slot_changed,
}

module _ {S D : Type 0} (sv : Services) (storage : Storage S) (database : Database D) where
  -- A handler, with the database at each of its queries for a wallet, and at its end.
  abbrev pub Handler : Type 0
  Handler = Event → List D → D → Outcome (Option D)

  abbrev at_once : (Event → D → Outcome D) → Handler
  at_once handle event queries d = handle event d >>= λ d'. ok (some d')

  abbrev register_project : List (String × Handler)
  register_project =
      ("project:transfer", at_once (project_transfer sv database))
      ∷ ("project:transfer-value", project_transfer_value sv database)
      ∷ ("project:slot-changed", project_slot_changed sv database)
      ∷ []

  abbrev register_minter : List (String × Handler)
  register_minter =
      ("minter:buy", at_once (minter_buy sv database))
      ∷ ("minter:airdrop", at_once (minter_airdrop sv database))
      ∷ []

  abbrev register_offseter : List (String × Handler)
  register_offseter =
      ("offseter:withdraw", at_once (offseter_withdraw sv database))
      ∷ ("offseter:deposit", at_once (offseter_deposit sv database))
      ∷ ("offseter:claim", at_once (offseter_claim sv database))
      ∷ []

  abbrev register_yielder : List (String × Handler)
  register_yielder =
      ("yielder:withdraw", at_once (yielder_withdraw sv database))
      ∷ ("yielder:deposit", at_once (yielder_deposit sv database))
      ∷ ("yielder:claim", at_once (yielder_claim sv database))
      ∷ []

  abbrev register_migrator : List (String × Handler)
  register_migrator = ("migrator:migration", at_once (handle_migration sv database)) ∷ []

  abbrev pub register_subscribers : List (String × Handler)
  register_subscribers =
      register_project ++ register_minter ++ register_offseter ++ register_yielder
      ++ register_migrator

  -- What the handler of a subject does with an event; without a handler, nothing.
  abbrev pub handled : String → Event → List D → D → Outcome (Option D)
  handled subject event queries d = elim (lookup subject register_subscribers) [
    | none ↦ ok (some d)
    | some handle ↦ handle event queries d
  ]

  -- Decoding comes first in every handler; an event that cannot be decoded leaves the database.
  unfoldable pub decoded : Handler → Option Event → List D → D → Outcome (Option D)
  decoded handle none queries d = ok (some d)
  decoded handle (some event) queries d = handle event queries d

  -- A message; one of a subject that no handler has subscribed to is dropped.
  unfoldable pub deliver : S → Msg → List D → D → Outcome (Option D)
  unfolding decoded stored_event
  deliver s m queries d = elim (lookup m.subject register_subscribers) [
    | none ↦ ok (some d)
    | some handle ↦ decoded handle (stored_event sv storage s m.body) queries d
  ]
