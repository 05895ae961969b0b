-- ===== src/Leaderboard/Ranking/Order.antt =====
-- The order in which a ranking handles its events (internal/leaderboard/game.go).
use mathlib.Core.List.{Perm}
use carbonable_leaderboard_b.Prelude.{
  ℕ, ◌≤◌, ◌<◌, ◌≡◌, ◌⊎◌, Bool, true, false, String, List, [], ◌∷◌, arith, eqb, ltb, All,
  if◌then◌else◌,
}
use carbonable_leaderboard_b.Go.Sort.{Sorter, Sorts, IsStrictWeakOrder, IsSortedBy}
use carbonable_leaderboard_b.Leaderboard.Event.{DomainEvent}
use carbonable_leaderboard_b.Leaderboard.Ranking.{
  index_of, event_priority, less, new_personnal_ranking,
}

-- `Less` over the times and the indices of two events.
abbrev less_keys : ℕ → ℕ → ℕ → ℕ → Bool
less_keys t1 i1 t2 i2 = if eqb t1 t2 then ltb i1 i2 else ltb t1 t2

less_keys_irreflexive : (t i : ℕ) → less_keys t i t i ≡ false
less_keys_irreflexive t i = ground arith

less_keys_transitive :
    (t1 t2 t3 i1 i2 i3 : ℕ)
    → less_keys t1 i1 t2 i2 ≡ true
    → less_keys t2 i2 t3 i3 ≡ true
    → less_keys t1 i1 t3 i3 ≡ true
less_keys_transitive t1 t2 t3 i1 i2 i3 h k = ground arith

less_keys_not :
    (t1 t2 t3 i1 i2 i3 : ℕ)
    → less_keys t1 i1 t2 i2 ≡ false
    → less_keys t2 i2 t3 i3 ≡ false
    → less_keys t1 i1 t3 i3 ≡ false
less_keys_not t1 t2 t3 i1 i2 i3 h k = ground arith

-- The place of an event's name in the list of priorities.
abbrev pub priority : DomainEvent → ℕ
priority e = index_of event_priority e.event_name

-- `Less` is an order as `sort.Sort` wants it: irreflexive, transitive, and "neither is less" is
-- transitive too.
pub less-IsStrictWeakOrder : IsStrictWeakOrder less
unfolding less
less-IsStrictWeakOrder = record {
  irreflexive = λ a. less_keys_irreflexive a.recorded_at (priority a);
  transitive = λ a b c.
      less_keys_transitive a.recorded_at b.recorded_at c.recorded_at (priority a) (priority b)
        (priority c);
  not_less_transitive = λ a b c.
      less_keys_not a.recorded_at b.recorded_at c.recorded_at (priority a) (priority b)
        (priority c);
}

-- An event may be handled before another: it is older, or as old and of no later priority.
abbrev pub Precedes : DomainEvent → DomainEvent → Type 0
Precedes a b =
    (a.recorded_at < b.recorded_at) ⊎ ((a.recorded_at ≡ b.recorded_at) × (priority a ≤ priority b))

abbrev pub InOrder : List DomainEvent → Type 0
InOrder [] = Unit
InOrder (e ∷ events) = All (Precedes e) events × InOrder events

keys_precede :
    (t1 t2 i1 i2 : ℕ) → less_keys t2 i2 t1 i1 ≡ false → (t1 < t2) ⊎ ((t1 ≡ t2) × (i1 ≤ i2))
keys_precede t1 t2 i1 i2 h = ground arith

Precedes-All :
    (a : DomainEvent) (events : List DomainEvent)
    → All (λ b. less b a ≡ false) events
    → All (Precedes a) events
unfolding less
Precedes-All a [] h = tt
Precedes-All a (b ∷ events) h = (
  keys_precede a.recorded_at b.recorded_at (priority a) (priority b) h.0,
  Precedes-All a events h.1,
)

InOrder-sorted : (events : List DomainEvent) → IsSortedBy less events → InOrder events
InOrder-sorted [] h = tt
InOrder-sorted (e ∷ events) h = (Precedes-All e events h.0, InOrder-sorted events h.1)

-- With a sort that keeps its contract, a new ranking has the given events, each as often as it was
-- given, older before younger and, of one second, by the priority of their names.
pub new_personnal_ranking-InOrder :
    (sorter : Sorter DomainEvent)
    → Sorts sorter
    → (wallet : String) (events : List DomainEvent)
    → Perm (new_personnal_ranking sorter wallet events).events events
      × InOrder (new_personnal_ranking sorter wallet events).events
unfolding new_personnal_ranking
new_personnal_ranking-InOrder sorter sorts wallet events =
    (sorts.permutes less events, InOrder-sorted _ (sorts.orders less events less-IsStrictWeakOrder))
