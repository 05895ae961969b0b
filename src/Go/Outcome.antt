-- ===== src/Go/Outcome.antt =====
-- How a call can end: with a value, by `log.Fatal`, which ends the process, or by a panic.
use carbonable_leaderboard_b.Prelude.{
  ◌≡◌, refl, ap, ◌∙◌, ◌⊎◌, inl, inr, Bool, true, false, Option, none, some,
}

pub data Outcome {ℓ} (A : Type ℓ) : Type ℓ where
  ok : A → Outcome A
  fatal : Outcome A
  panic : Outcome A

module _ {ℓ κ} {A : Type ℓ} {B : Type κ} where
  infixl 5 ◌>>=◌
  abbrev pub ◌>>=◌ : Outcome A → (A → Outcome B) → Outcome B
  fatal >>= next = fatal
  panic >>= next = panic
  ok value >>= next = next value

  -- Behind a call that returns.
  pub >>=-ok :
      {first : Outcome A} {value : A} {last : Outcome B} (next : A → Outcome B)
      → first ≡ ok value
      → next value ≡ last
      → first >>= next ≡ last
  >>=-ok next returned onward = ap (λ o. o >>= next) returned ∙ onward

  -- Inversion of a call that returned.
  pub >>=-eq-ok :
      (first : Outcome A) (next : A → Outcome B) {last : B}
      → first >>= next ≡ ok last
      → (value : A) × (first ≡ ok value) × (next value ≡ ok last)
  >>=-eq-ok fatal next returned = cc
  >>=-eq-ok panic next returned = cc
  >>=-eq-ok (ok value) next returned = (value, refl, returned)

module _ {A B : Type 0} where
  -- Where a chain of calls panics.
  pub >>=-eq-panic :
      (first : Outcome A) (next : A → Outcome B)
      → first >>= next ≡ panic
      → (first ≡ panic) ⊎ ((value : A) × (first ≡ ok value) × (next value ≡ panic))
  >>=-eq-panic fatal next ended = cc
  >>=-eq-panic panic next ended = inl refl
  >>=-eq-panic (ok value) next ended = inr (value, refl, ended)

abbrev pub is_ok {ℓ} : {A : Type ℓ} → Outcome A → Bool
is_ok (ok a) = true
is_ok fatal = false
is_ok panic = false

pub ok_of {ℓ} : {A : Type ℓ} (o : Outcome A) → is_ok o ≡ true → (a : A) × (o ≡ ok a)
ok_of (ok a) h = (a, refl)
ok_of fatal h = cc
ok_of panic h = cc

pub Outcome-cases {ℓ} :
    {A : Type ℓ} (o : Outcome A) → ((a : A) × (o ≡ ok a)) ⊎ (o ≡ fatal) ⊎ (o ≡ panic)
Outcome-cases (ok a) = inl (a, refl)
Outcome-cases fatal = inr (inl refl)
Outcome-cases panic = inr (inr refl)

pub ok_eq {ℓ} : {A : Type ℓ} {a b : A} → ◌≡◌ {A = Outcome A} (ok a) (ok b) → a ≡ b
ok_eq h = cc

-- `log.Fatal` where a call gives an error.
abbrev pub or_fatal : {A : Type 0} → Option A → Outcome A
or_fatal none = fatal
or_fatal (some a) = ok a
