-- ===== src/Prelude/Lists.antt =====
-- Lists measured by native numbers, and the tests and predicates on them that the components share.
use Prim.Native.Nat.{ℕ, suc, ◌+◌, ◌≤◌, ◌<◌}
use Prim.Native.String.{String}
use mathlib.Core.Path.{◌∙◌, ◌≡◌, refl, sym, ap, subst}
use mathlib.Core.Logic.{◌↔◌, ◌⊎◌, inl, inr}
use mathlib.Core.Bool.{Bool, true, false, ◌||◌}
use mathlib.Core.List.{List, [], ◌∷◌, ◌++◌, map}
use native.Mathlib.Omega.{arith}
use aceryx.Prelude.Tests.{Bool-cases, ◌==◌, if◌then◌else◌}

module _ {ℓ} {A : Type ℓ} where
  abbrev pub length : List A → ℕ
  length [] = 0
  length (x ∷ xs) = suc (length xs)

  abbrev pub is_empty : List A → Bool
  is_empty [] = true
  is_empty (x ∷ xs) = false

  abbrev pub any : (A → Bool) → List A → Bool
  any p [] = false
  any p (x ∷ xs) = p x || any p xs

  abbrev pub count : (A → Bool) → List A → ℕ
  count p [] = 0
  count p (x ∷ xs) = (if p x then 1 else 0) + count p xs

  abbrev pub filter : (A → Bool) → List A → List A
  filter p [] = []
  filter p (x ∷ xs) = let rest = filter p xs in if p x then x ∷ rest else rest

  -- A fold from the left, as a `for` loop over a slice makes it.
  abbrev pub fold {κ} : {S : Type κ} → (S → A → S) → S → List A → S
  fold f s [] = s
  fold f s (x ∷ xs) = fold f (f s x) xs

  -- Every element has the property.
  abbrev pub All {κ} : (A → Type κ) → List A → Type κ
  All P [] = Unit
  All P (x ∷ xs) = P x × All P xs

  -- Membership as data, which proofs take apart.
  pub data In (a : A) : List A → Type ℓ where
    here : {x : A} {xs : List A} → a ≡ x → In a (x ∷ xs)
    there : {x : A} {xs : List A} → In a xs → In a (x ∷ xs)

abbrev pub contains : List String → String → Bool
contains [] a = false
contains (x ∷ xs) a = x == a || contains xs a

module _ {ℓ} {A : Type ℓ} where
  pub all_in {κ} : (P : A → Type κ) {a : A} {xs : List A} → All P xs → In a xs → P a
  all_in P h (here e) = subst P (sym e) h.0
  all_in P h (there i) = all_in P h.1 i

  pub All-map {κ μ} :
      {P : A → Type κ} {Q : A → Type μ}
      → ((a : A) → P a → Q a)
      → (xs : List A) → All P xs
      → All Q xs
  All-map f [] h = tt
  All-map f (x ∷ xs) h = (f x h.0, All-map f xs h.1)

  pub All-of {κ} : (P : A → Type κ) → ((a : A) → P a) → (xs : List A) → All P xs
  All-of P f [] = tt
  All-of P f (x ∷ xs) = (f x, All-of P f xs)

  pub In-append_left : {a : A} {xs : List A} (ys : List A) → In a xs → In a (xs ++ ys)
  In-append_left ys (here e) = here e
  In-append_left ys (there i) = there (In-append_left ys i)

  pub In-append_right : {a : A} (xs : List A) {ys : List A} → In a ys → In a (xs ++ ys)
  In-append_right [] i = i
  In-append_right (x ∷ xs) i = there (In-append_right xs i)

  pub In-append : {a : A} (xs : List A) {ys : List A} → In a (xs ++ ys) → In a xs ⊎ In a ys
  In-append [] i = inr i
  In-append (x ∷ xs) (here e) = inl (here e)
  In-append (x ∷ xs) (there i) = elim (In-append xs i) [ inl j ↦ inl (there j) | inr j ↦ inr j ]

  pub length-append : (xs ys : List A) → length (xs ++ ys) ≡ length xs + length ys
  length-append [] ys = omega arith
  length-append (x ∷ xs) ys = omega (arith, length-append xs ys)

  pub count-le-length : (p : A → Bool) (xs : List A) → count p xs ≤ length xs
  count-le-length p [] = omega arith
  count-le-length p (x ∷ xs) = ground (arith, count-le-length p xs)

  -- A test that passes less often counts less.
  pub count_mono :
      (p q : A → Bool)
      → ((a : A) → p a ≡ true → q a ≡ true)
      → (xs : List A) → count p xs ≤ count q xs
  count_mono p q h [] = omega arith
  count_mono p q h (x ∷ xs) = ground (arith, h x, count_mono p q h xs)

  pub count_drop :
      (p q : A → Bool)
      → ((a : A) → p a ≡ true → q a ≡ true)
      → {a : A} {xs : List A} → p a ≡ false
      → q a ≡ true
      → In a xs
      → count p xs < count q xs
  count_drop p q h {a} off on (here {x} {xs} e) =
      ground (arith, ap p e, ap q e, count_mono p q h xs)
  count_drop p q h off on (there {x} {xs} i) = ground (arith, h x, count_drop p q h off on i)

pub In-map {ℓ κ} :
    {A : Type ℓ} {B : Type κ} (f : A → B) {a : A} {xs : List A} → In a xs → In (f a) (map f xs)
In-map f (here e) = here (ap f e)
In-map f (there i) = there (In-map f i)

pub In-map_inv {ℓ κ} :
    {A : Type ℓ} {B : Type κ} (f : A → B) {b : B} (xs : List A)
    → In b (map f xs)
    → (a : A) × In a xs × (f a ≡ b)
In-map_inv f [] i = elim i [ ]
In-map_inv f (x ∷ xs) (here e) = (x, here refl, sym e)
In-map_inv f (x ∷ xs) (there i) = let (a, j, e) = In-map_inv f xs i in (a, there j, e)

pub length-map {ℓ κ} :
    {A : Type ℓ} {B : Type κ} (f : A → B) (xs : List A) → length (map f xs) ≡ length xs
length-map f [] = refl
length-map f (x ∷ xs) = ap suc (length-map f xs)

module _ {ℓ} {A : Type ℓ} where
  pub count-append : (p : A → Bool) (xs ys : List A) → count p (xs ++ ys) ≡ count p xs + count p ys
  count-append p [] ys = omega arith
  count-append p (x ∷ xs) ys = omega (arith, count-append p xs ys)

  pub All-append {κ} : (P : A → Type κ) (xs ys : List A) → All P xs → All P ys → All P (xs ++ ys)
  All-append P [] ys p q = q
  All-append P (x ∷ xs) ys p q = (p.0, All-append P xs ys p.1 q)

  pub length-filter-le : (p : A → Bool) (xs : List A) → length (filter p xs) ≤ length xs
  length-filter-le p [] = omega arith
  length-filter-le p (x ∷ xs) = ground (arith, length-filter-le p xs)

  pub In-filter_iff :
      (p : A → Bool) (a : A) (xs : List A) → In a (filter p xs) ↔ (In a xs × (p a ≡ true))
  In-filter_iff p a [] = (λ i. elim i [ ], λ (i, h). elim i [ ])
  In-filter_iff p a (x ∷ xs) =
      let (into, out) = In-filter_iff p a xs in
      elim (Bool-cases (p x)) [
        | inl e ↦ rw (e) (
          λ i. elim i [
            | here same ↦ (here same, ap p same ∙ e)
            | there j ↦ let (k, h) = into j in (there k, h)
          ],
          λ (i, h). elim i [ here same ↦ here same | there j ↦ there (out (j, h)) ],
        )
        | inr e ↦ rw (e) (
          λ i. let (k, h) = into i in (there k, h),
          λ (i, h). elim i [ here same ↦ cc (ap p same, e, h) | there j ↦ out (j, h) ],
        )
      ]
