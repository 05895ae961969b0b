-- ===== src/Subscriber/Handlers/Purchases.antt =====
-- The handlers of purchases and airdrops over a run of messages (internal/subscriber/minter.go).
use mathlib.Core.Path.{fun_ext}
use carbonable_leaderboard_b.Prelude.{
  ◌+◌, ◌%◌, ◌^◌, ◌<◌, ◌≡◌, refl, ap, ◌∙◌, String, List, [], ◌∷◌, All,
}
use carbonable_leaderboard_b.Go.Outcome.{Outcome, ok, ◌>>=◌}
use carbonable_leaderboard_b.Go.Uint256.{Documented}
use carbonable_leaderboard_b.Starknet.Block.{Event}
use carbonable_leaderboard_b.Leaderboard.Event.{DomainEvent}
use carbonable_leaderboard_b.Subscriber.Base.{Services, Database}
use carbonable_leaderboard_b.Subscriber.BuyValue.{update_minter_bought_value}
use carbonable_leaderboard_b.Subscriber.BuyValue.Sums.{
  KeepsRows, HasValue, sum_for, record_events, number_in, recorded,
}
use carbonable_leaderboard_b.Subscriber.Handlers.{
  event_of, handle_minter, buy_entries, airdrop_entries, minter_buy, minter_airdrop,
}

-- A message to the minter's subscribers.
pub data Sale : Type 0 where
  buy : Event → Sale
  airdrop : Event → Sale

module _ {D : Type 0} (sv : Services) (database : Database D) where
  abbrev pub handle_sale : Sale → D → Outcome D
  handle_sale (buy event) = minter_buy sv database event
  handle_sale (airdrop event) = minter_airdrop sv database event

  -- The messages, one after the other.
  abbrev pub handle_sales : List Sale → D → Outcome D
  handle_sales [] d = ok d
  handle_sales (sale ∷ sales) d = handle_sale sale d >>= handle_sales sales

  -- The event that a message makes.
  abbrev pub sale_event : Sale → Outcome DomainEvent
  sale_event (buy event) = event_of sv database "minter:buy" buy_entries event
  sale_event (airdrop event) = event_of sv database "minter:airdrop" airdrop_entries event

  abbrev pub MakeEvents : List Sale → List DomainEvent → Type 0
  MakeEvents [] [] = Unit
  MakeEvents (sale ∷ sales) (evt ∷ events) = (sale_event sale ≡ ok evt) × MakeEvents sales events
  MakeEvents _ _ = ⊥

  handle_sale-record :
      (sale : Sale) (evt : DomainEvent) (d : D)
      → sale_event sale ≡ ok evt
      → handle_sale sale d
        ≡ update_minter_bought_value sv database evt (database.create_event d evt)
  unfolding minter_buy minter_airdrop handle_minter
  handle_sale-record (buy event) evt d made =
      ap (λ o. o >>= λ e. update_minter_bought_value sv database e (database.create_event d e)) made
  handle_sale-record (airdrop event) evt d made =
      ap (λ o. o >>= λ e. update_minter_bought_value sv database e (database.create_event d e)) made

  pub handle_sales-record :
      (sales : List Sale) (events : List DomainEvent) (d : D)
      → MakeEvents sales events
      → handle_sales sales d ≡ record_events sv database events d
  handle_sales-record [] [] d made = refl
  handle_sales-record [] (evt ∷ events) d made = absurd made
  handle_sales-record (sale ∷ sales) [] d made = absurd made
  handle_sales-record (sale ∷ sales) (evt ∷ events) d made =
      ap (λ o. o >>= handle_sales sales) (handle_sale-record sale evt d made.0)
      ∙ ap
          (λ (next : D → Outcome D).
            update_minter_bought_value sv database evt (database.create_event d evt) >>= next)
          (fun_ext λ e. handle_sales-record sales events e made.1)

  -- On a database that answers, where each message of a run of purchases and airdrops makes an event with
  -- a value that is a number, the handlers all return, and the value of each name and slot, if it was
  -- below 2^64, is then raised by the sum of the values of the events of that name and slot, modulo 2^64.
  pub minter_value_adds_up :
      Documented sv.u256
      → (laws : KeepsRows database)
      → (sales : List Sale) (events : List DomainEvent) (d : D) (name slot : String)
      → MakeEvents sales events
      → All (HasValue sv.u256) events
      → number_in (laws.row d name slot) < 2 ^ 64
      → (d' : D) × (handle_sales sales d ≡ ok d')
        × (number_in (laws.row d' name slot)
            ≡ (number_in (laws.row d name slot) + sum_for sv.u256 name slot events) % 2 ^ 64)
  minter_value_adds_up u laws sales events d name slot made readable small =
      let (d', returned, numbers) = recorded sv database u laws events d readable in
      (d', handle_sales-record sales events d made ∙ returned, numbers name slot small)
