-- ===== src/Leaderboard/Ranking/RowOrder.antt =====
-- The rows of `domain_events` come in no given order, and `sort.Sort` need not keep the order of equal
-- elements (internal/leaderboard/game.go and aggregator.go): when the line of a wallet depends on
-- neither.
use mathlib.Core.List.{Perm, Permᴰ}
use mathlib.Core.List.Perm
use mathlib.Core.List.Permᴰ
use text.Mathlib.TextEquality.{IsScalar-prop}
use mathlib.Core.Logic.{∥∥₁_elim}
use carbonable_leaderboard_b.Prelude.{
  ℕ, ◌≤◌, ◌<◌, ◌≡◌, ◌≢◌, ◌⊎◌, inl, inr, refl, sym, ap, subst, ◌∙◌, String, List, [], ◌∷◌, arith,
  All,
}
use carbonable_leaderboard_b.Prelude.Perms.{All-perm, Pairwise, Pairwise-perm}
use carbonable_leaderboard_b.Go.Outcome.{ok, ◌>>=◌}
use carbonable_leaderboard_b.Go.Sort.{Sorter, Sorts}
use carbonable_leaderboard_b.Leaderboard.Event.{DomainEvent}
use carbonable_leaderboard_b.Leaderboard.Aggregator.Run.{Ranker, line_of}
use carbonable_leaderboard_b.Leaderboard.Ranking.{rank, new_personnal_ranking}
use carbonable_leaderboard_b.Leaderboard.Aggregator.Sold.{get_minter_current_value}
use carbonable_leaderboard_b.Leaderboard.Manager.{full_score_calculator_manager}
use carbonable_leaderboard_b.Leaderboard.Ranking.Order.{
  priority, Precedes, InOrder, new_personnal_ranking-InOrder,
}

-- Two events of different seconds, or of different priorities.
abbrev pub Differ : DomainEvent → DomainEvent → Type 0
Differ a b = (a.recorded_at ≢ b.recorded_at) ⊎ (priority a ≢ priority b)

abbrev pub AreApart : List DomainEvent → Type 0
AreApart = Pairwise Differ

Differ-sym : (a b : DomainEvent) → Differ a b → Differ b a
Differ-sym a b (inl times) = inl (λ e. times (sym e))
Differ-sym a b (inr names) = inr (λ e. names (sym e))

AreApart-perm : {l m : List DomainEvent} → Permᴰ l m → AreApart l → AreApart m
AreApart-perm = Pairwise-perm Differ Differ-sym

-- The first event is the other's, or strictly before it.
abbrev IsBefore : DomainEvent → DomainEvent → Type 0
IsBefore a b =
    (a.recorded_at < b.recorded_at) ⊎ ((a.recorded_at ≡ b.recorded_at) × (priority a < priority b))

abbrev IsFirst : DomainEvent → DomainEvent → Type 0
IsFirst a b = (a ≡ b) ⊎ IsBefore a b

keys_before :
    (t1 t2 i1 i2 : ℕ)
    → (t1 < t2) ⊎ ((t1 ≡ t2) × (i1 ≤ i2))
    → (t1 ≢ t2) ⊎ (i1 ≢ i2)
    → (t1 < t2) ⊎ ((t1 ≡ t2) × (i1 < i2))
keys_before t1 t2 i1 i2 h k = ground arith

IsFirst-All :
    (a : DomainEvent) (events : List DomainEvent)
    → All (Precedes a) events
    → All (Differ a) events
    → All (IsFirst a) events
IsFirst-All a [] h k = tt
IsFirst-All a (b ∷ events) h k = (
  inr (keys_before a.recorded_at b.recorded_at (priority a) (priority b) h.0 k.0),
  IsFirst-All a events h.1 k.1,
)

not_both :
    (t1 t2 i1 i2 : ℕ)
    → (t1 < t2) ⊎ ((t1 ≡ t2) × (i1 < i2))
    → (t2 < t1) ⊎ ((t2 ≡ t1) × (i2 < i1))
    → ⊥
not_both t1 t2 i1 i2 h k = ground arith

-- Of two events that are each first for the other, both are the same.
same_first : (a b : DomainEvent) → IsFirst a b → IsFirst b a → a ≡ b
same_first a b (inl e) k = e
same_first a b (inr h) (inl e) = sym e
same_first a b (inr h) (inr k) =
    absurd (not_both a.recorded_at b.recorded_at (priority a) (priority b) h k)

events-IsSet : IsSet (List DomainEvent)
events-IsSet = hlevel (IsScalar-prop)

-- Events that are apart have one order only.
one_order : (l m : List DomainEvent) → Perm l m → AreApart l → InOrder l → InOrder m → l ≡ m
one_order [] m p apart h k = Perm.nil-eq p
one_order (a ∷ l) [] p apart h k = Perm.eq-nil p
one_order (a ∷ l) (b ∷ m) p apart h k = ∥∥₁_elim p (events-IsSet _ _) λ d.
    let apart_m = AreApart-perm d apart in
    let e : a ≡ b =
      same_first a b (All-perm (IsFirst a) d (inl refl, IsFirst-All a l h.0 apart.0)).0
        (All-perm (IsFirst b) (Permᴰ.symm d) (inl refl, IsFirst-All b m k.0 apart_m.0)).0 in
    let tail : Perm l m = Perm.cons_inv (subst (λ x. Perm (a ∷ l) (x ∷ m)) (sym e) p) in
    ap (λ x. x ∷ l) e ∙ ap (λ rest. b ∷ rest) (one_order l m tail apart.1 h.1 k.1)

-- The rows in another order, sorted by another sort.
sorted_alike :
    (s s' : Sorter DomainEvent)
    → Sorts s
    → Sorts s'
    → (wallet : String) (events events' : List DomainEvent) → Perm events events'
    → AreApart events
    → (new_personnal_ranking s wallet events).events
      ≡ (new_personnal_ranking s' wallet events').events
sorted_alike s s' sorts sorts' wallet events events' p apart =
    let (q, ordered) = new_personnal_ranking-InOrder s sorts wallet events in
    let (q', ordered') = new_personnal_ranking-InOrder s' sorts' wallet events' in
    ∥∥₁_elim q (events-IsSet _ _) λ d.
      one_order _ _ (Perm.trans q (Perm.trans p (Perm.symm q')))
        (AreApart-perm (Permᴰ.symm d) apart) ordered ordered'

-- Where no two of a wallet's events are of one second and of one priority, the line of the wallet, or
-- the end of the process or of the call without one, is the same for the same rows in any order, and
-- for any two sorts that keep the contract of `sort.Sort`.
pub line_of-perm :
    (r : Ranker) (s' : Sorter DomainEvent)
    → Sorts r.sorter
    → Sorts s'
    → (wallet : String) (events events' : List DomainEvent) → Perm events events'
    → AreApart events
    → line_of r wallet events ≡ line_of (record r { sorter = s' }) wallet events'
unfolding line_of new_personnal_ranking
line_of-perm r s' sorts sorts' wallet events events' p apart =
    ap
      (λ (l : List DomainEvent).
        rank r.u256 r.format (r.ulid wallet)
          (full_score_calculator_manager (get_minter_current_value r.u256 r.sold))
          (record { customer_wallet = wallet; events = l; handled_events = [] })
        >>= λ result. ok result.0)
      (sorted_alike r.sorter s' sorts sorts' wallet events events' p apart)
