-- ===== src/Prelude/Fallible.antt =====
-- A value and an error, as a Go function returns them: one of the two.
use mathlib.Core.Path.{◌≡◌, refl}
use mathlib.Core.Logic.{◌⊎◌, inl, inr}
use mathlib.Core.Bool.{Bool, true, false}

pub data Result (Err Value : Type 0) : Type 0 where
  err : Err → Result Err Value
  ok : Value → Result Err Value

infixl 5 ◌>>=◌ ◌>>◌
-- `v, err := first; if err != nil { return err }`, and what follows
abbrev pub ◌>>=◌ : {Err V W : Type 0} → Result Err V → (V → Result Err W) → Result Err W
first >>= next = elim first [ err failure ↦ err failure | ok value ↦ next value ]

abbrev pub ◌>>◌ : {Err W : Type 0} → Result Err Unit → Result Err W → Result Err W
first >> next = first >>= λ nothing. next

-- `if !b { return e }`
abbrev pub require : {Err : Type 0} → Bool → Err → Result Err Unit
require holds failure = elim holds [ true ↦ ok tt | false ↦ err failure ]

pub Result-cases :
    {Err V : Type 0} (r : Result Err V) → ((e : Err) × (r ≡ err e)) ⊎ ((v : V) × (r ≡ ok v))
Result-cases (err e) = inl (e, refl)
Result-cases (ok v) = inr (v, refl)

module _ {Err V W : Type 0} where
  -- A failed sequence failed in its first part or, after that, in the rest.
  pub >>=-eq-err :
      (first : Result Err V) (next : V → Result Err W) {failure : Err}
      → (first >>= next) ≡ err failure
      → (first ≡ err failure) ⊎ ((value : V) × (first ≡ ok value) × (next value ≡ err failure))
  >>=-eq-err (err e) next h = inl (cc h)
  >>=-eq-err (ok value) next h = inr (value, refl, h)

  -- The parts of a sequence that succeeded.
  pub >>=-eq-ok :
      (first : Result Err V) (next : V → Result Err W) {last : W}
      → (first >>= next) ≡ ok last
      → (value : V) × (first ≡ ok value) × (next value ≡ ok last)
  >>=-eq-ok (err e) next h = cc
  >>=-eq-ok (ok value) next h = (value, refl, h)

pub ok-injective : {Err V : Type 0} {v w : V} → ◌≡◌ {A = Result Err V} (ok v) (ok w) → v ≡ w
ok-injective h = cc

pub require-ok : {Err : Type 0} (b : Bool) (e : Err) → require b e ≡ ok tt → b ≡ true
require-ok true e h = refl
require-ok false e h = cc h
