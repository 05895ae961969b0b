-- ===== src/Subscriber/Register/CanRead.antt =====
-- The subjects of the twelve subscribers, and the events that their handlers can read
-- (internal/subscriber/*.go).
use carbonable_leaderboard_b.Prelude.{ℕ, ◌≡◌, String, List, ◌∷◌, some}
use carbonable_leaderboard_b.Go.Outcome.{ok}
use carbonable_leaderboard_b.Starknet.Block.{Event}
use carbonable_leaderboard_b.Starknet.Rpc.{felt_from_uint64}
use carbonable_leaderboard_b.Leaderboard.Event.{StringMap}
use carbonable_leaderboard_b.Subscriber.Base.{Services, Database}
use carbonable_leaderboard_b.Subscriber.Metadata.{
  get_metadata_from_event, get_metadata_from_migrator,
}
use carbonable_leaderboard_b.Subscriber.Handlers.{slot_number}
use carbonable_leaderboard_b.Subscriber.Project.{
  slot_of_token, metadata_of_token, get_wallet_from_transfer_event,
}

-- The subjects that are subscribed to.
pub data Subject : Type 0 where
  transfer : Subject
  transfer_value : Subject
  slot_changed : Subject
  buy : Subject
  airdrop : Subject
  offseter_withdrawal : Subject
  offseter_deposition : Subject
  offseter_claiming : Subject
  yielder_withdrawal : Subject
  yielder_deposition : Subject
  yielder_claiming : Subject
  migration : Subject

abbrev pub name_of : Subject → String
name_of transfer = "project:transfer"
name_of transfer_value = "project:transfer-value"
name_of slot_changed = "project:slot-changed"
name_of buy = "minter:buy"
name_of airdrop = "minter:airdrop"
name_of offseter_withdrawal = "offseter:withdraw"
name_of offseter_deposition = "offseter:deposit"
name_of offseter_claiming = "offseter:claim"
name_of yielder_withdrawal = "yielder:withdraw"
name_of yielder_deposition = "yielder:deposit"
name_of yielder_claiming = "yielder:claim"
name_of migration = "migrator:migration"

module _ {D : Type 0} (sv : Services) (database : Database D) where
  -- An event with a key and four words, where the calls for the metadata of its contract return.
  pub record IsStake (event : Event) : Type 0 where
    pub felt : String
    pub keys : List String
    pub keyed : event.keys ≡ felt ∷ keys
    pub wallet : String
    pub amount : String
    pub third : String
    pub time : String
    pub more : List String
    pub words : event.event_data ≡ wallet ∷ amount ∷ third ∷ time ∷ more
    pub metadata : StringMap
    pub answered : get_metadata_from_event sv event.from_address ≡ ok metadata

  -- Such an event, of which the second word is a number.
  pub record IsSale (event : Event) : Type 0 where
    pub stake : IsStake event
    pub number : ℕ
    pub is_number : sv.u256.from_hex stake.amount ≡ some number

  -- An event with a key and eight words, of which the last is a number, where the calls for the metadata
  -- return.
  pub record IsMigration (event : Event) : Type 0 where
    pub felt : String
    pub keys : List String
    pub keyed : event.keys ≡ felt ∷ keys
    pub wallet : String
    pub token : String
    pub new_token : String
    pub slot : String
    pub value : String
    pub third : String
    pub fifth : String
    pub seventh : String
    pub more : List String
    pub words :
        event.event_data
        ≡ wallet ∷ token ∷ third ∷ new_token ∷ fifth ∷ slot ∷ seventh ∷ value ∷ more
    pub metadata : StringMap
    pub answered :
        get_metadata_from_migrator sv event.from_address
          (slot_number sv database (sv.felts.unmarshal_json slot))
        ≡ ok metadata
    pub number : ℕ
    pub is_number : sv.u256.from_hex value ≡ some number

  -- An event of a project whose four keys are there and whose slot has metadata.
  pub record IsTransfer (event : Event) : Type 0 where
    pub felt : String
    pub sender : String
    pub receiver : String
    pub token : String
    pub more : List String
    pub keyed : event.keys ≡ felt ∷ sender ∷ receiver ∷ token ∷ more
    pub slot : ℕ
    pub found : slot_of_token sv database event.from_address token ≡ ok slot
    pub metadata : StringMap
    pub answered : metadata_of_token sv database event.from_address slot ≡ ok metadata

  -- An event of a token, the one that is picked of the first and the third word: its slot has metadata,
  -- and one of the queries finds the wallet of its transfer.
  pub record IsOfToken (pick : String → String → String) (event : Event) (queries : List D)
      : Type 0 where
    pub felt : String
    pub keys : List String
    pub keyed : event.keys ≡ felt ∷ keys
    pub first : String
    pub second : String
    pub third : String
    pub fourth : String
    pub fifth : String
    pub more : List String
    pub words : event.event_data ≡ first ∷ second ∷ third ∷ fourth ∷ fifth ∷ more
    pub slot : ℕ
    pub found : slot_of_token sv database event.from_address (pick first third) ≡ ok slot
    pub metadata : StringMap
    pub answered : metadata_of_token sv database event.from_address slot ≡ ok metadata
    pub wallet : String
    pub queried :
        get_wallet_from_transfer_event sv database queries
          (pick first third)
          (sv.felts.to_string (felt_from_uint64 sv.felts slot))
        ≡ some wallet

  -- What the handler of a subject needs of an event.
  abbrev pub CanRead : Subject → Event → List D → Type 0
  CanRead transfer event queries = IsTransfer event
  CanRead transfer_value event queries = IsOfToken (λ first third. third) event queries
  CanRead slot_changed event queries = IsOfToken (λ first third. first) event queries
  CanRead buy event queries = IsSale event
  CanRead airdrop event queries = IsSale event
  CanRead offseter_withdrawal event queries = IsStake event
  CanRead offseter_deposition event queries = IsStake event
  CanRead offseter_claiming event queries = IsStake event
  CanRead yielder_withdrawal event queries = IsStake event
  CanRead yielder_deposition event queries = IsStake event
  CanRead yielder_claiming event queries = IsStake event
  CanRead migration event queries = IsMigration event
