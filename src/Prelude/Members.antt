-- ===== src/Prelude/Members.antt =====
-- Membership in lists that are mapped, joined and split.
use mathlib.Core.Path.{◌≡◌, refl, sym, ap}
use mathlib.Core.Logic.{◌⊎◌, inl, inr}
use mathlib.Core.Bool.{Bool, true}
use mathlib.Core.Option.{some}
use native.Mathlib.Omega.{arith}
use mathlib.Core.List.{List, [], ◌∷◌, ◌++◌, map}
use deliberum.Prelude.Tests.{Bool-cases}
use deliberum.Prelude.Lists.{any, find, In}

pub In-map :
    {A B : Type 0} (f : A → B) (y : B) (xs : List A)
    → In y (map f xs)
    → (x : A) × In x xs × (y ≡ f x)
In-map f y [] h = elim h [ ]
In-map f y (x ∷ xs) (inl e) = (x, inl refl, e)
In-map f y (x ∷ xs) (inr h) = let r = In-map f y xs h in (r.0, inr r.1, r.2)

pub In-map_intro : {A B : Type 0} (f : A → B) (x : A) (xs : List A) → In x xs → In (f x) (map f xs)
In-map_intro f x [] h = elim h [ ]
In-map_intro f x (y ∷ xs) (inl e) = inl (ap f e)
In-map_intro f x (y ∷ xs) (inr h) = inr (In-map_intro f x xs h)

pub In-append : {A : Type 0} (x : A) (xs ys : List A) → In x (xs ++ ys) → In x xs ⊎ In x ys
In-append x [] ys h = inr h
In-append x (y ∷ xs) ys (inl e) = inl (inl e)
In-append x (y ∷ xs) ys (inr h) = elim (In-append x xs ys h) [ inl m ↦ inl (inr m) | inr m ↦ inr m ]

pub In-append_right : {A : Type 0} (x : A) (xs ys : List A) → In x ys → In x (xs ++ ys)
In-append_right x [] ys h = h
In-append_right x (y ∷ xs) ys h = inr (In-append_right x xs ys h)

pub any-In :
    {A : Type 0} (p : A → Bool) (x : A) (xs : List A) → In x xs → p x ≡ true → any p xs ≡ true
unfolding any
any-In p x [] h e = elim h [ ]
any-In p x (y ∷ xs) (inl q) e = rw (← q, e) refl
any-In p x (y ∷ xs) (inr h) e = elim (Bool-cases (p y)) [
  | inl t ↦ rw t refl
  | inr f ↦ rw f (any-In p x xs h e)
]

-- Where a list holds an item.
pub In-split :
    {A : Type 0} (x : A) (xs : List A)
    → In x xs
    → (ys : List A) × (zs : List A) × (xs ≡ ys ++ x ∷ zs)
In-split x [] h = elim h [ ]
In-split x (y ∷ xs) (inl e) = ([], xs, ap (λ z. z ∷ xs) (sym e))
In-split x (y ∷ xs) (inr h) = let r = In-split x xs h in (y ∷ r.0, r.1, ap (λ l. y ∷ l) r.2)

pub In-find {ℓ} :
    {A : Type ℓ} (p : A → Bool) (xs : List A) (y : A) → find p xs ≡ some y → In y xs × (p y ≡ true)
unfolding find
In-find p [] y e = cc
In-find p (x ∷ xs) y e = elim (Bool-cases (p x)) [
  | inl q ↦ let r : x ≡ y = ground (arith, q) in (inl (sym r), rw (← r) q)
  | inr q ↦ let r = In-find p xs y (rw q at e) in (inr r.0, r.1)
]
