-- ===== src/Tests/Recorded.antt =====
-- A block with a purchase that the minter's subscriber gets twice.
use carbonable_leaderboard_b.Prelude.{◌≡◌, refl, List, [], ◌∷◌, some}
use carbonable_leaderboard_b.Go.Outcome.{ok}
use carbonable_leaderboard_b.Indexer.EventIndexer.{index}
use carbonable_leaderboard_b.Leaderboard.Event.{DomainEvent}
use carbonable_leaderboard_b.Starknet.Rpc.{minter_get_project_address}
use carbonable_leaderboard_b.Subscriber.Handlers.Resent.{insert_all}
use carbonable_leaderboard_b.Subscriber.Metadata.{get_metadata_from_event}
use carbonable_leaderboard_b.Subscriber.Register.CanRead.{buy, IsSale}
use carbonable_leaderboard_b.Subscriber.Register.Delivered.{
  Sent, read_by, AreMade, deliver_all, IsReadable, block-IsRecorded,
}
use carbonable_leaderboard_b.Tests.Chain.{block_9, emitted, world}
use carbonable_leaderboard_b.Tests.Resent.{Tables, tables, tables-KeepsEvents}
use carbonable_leaderboard_b.Tests.Stores.{memory, memory-IsReliable, codecs}
use carbonable_leaderboard_b.Tests.Subscribers.{
  services, id, contract, block_events, only_event, once, kept,
}

no_answer : get_metadata_from_event services "0x1f" ≡ ok []
unfolding get_metadata_from_event minter_get_project_address
no_answer = refl

abbrev purchase : Sent Tables
purchase = record { subject = buy; id = id; event = emitted "0x1f"; queries = [] }

abbrev readable : IsSale services tables (read_by 1700000000 purchase)
readable = record {
  stake = record {
    felt = "0x9";
    keys = [];
    keyed = refl;
    wallet = "0x1";
    amount = "0x2";
    third = "0x0";
    time = "0x6";
    more = [];
    words = refl;
    metadata = [];
    answered = no_answer;
  };
  number = 2;
  is_number = refl;
}

purchase-IsReadable : IsReadable services memory tables 1700000000 block_events purchase
purchase-IsReadable = ((0, rw only_event refl), readable)

block-IsRecorded_example :
    let after = index memory (codecs block_9) contract.address block_9 world in
    (d' : Tables) × (made : List DomainEvent) × (deliver_all services memory tables after.store
        (purchase ∷ purchase ∷ [])
        ([], [])
      ≡ ok (some d'))
    × (d'.1 ≡ insert_all made [])
    × AreMade 1700000000 (purchase ∷ purchase ∷ []) made
block-IsRecorded_example =
    block-IsRecorded services memory tables tables-KeepsEvents (codecs block_9) memory-IsReliable
      contract.address block_9 world (purchase ∷ purchase ∷ []) ([], []) once kept
      (purchase-IsReadable, (purchase-IsReadable, tt))
