-- ===== src/Prelude/Lists.antt =====
-- Lists measured by native numbers, and the array methods with Boolean tests.
use Prim.Native.Nat.{ℕ, suc, ◌+◌}
use Prim.Native.String.{String}
use mathlib.Core.Bool.{Bool, true, false, ◌&&◌, ◌||◌}
use mathlib.Core.Path.{◌≡◌, refl}
use mathlib.Core.Option.{Option, none, some}
use mathlib.Core.Logic.{◌⊎◌, inl, inr}
use mathlib.Core.List.{List, [], ◌∷◌, ◌++◌}
use native.Mathlib.Omega.{arith}
use deliberum.Prelude.Tests.{◌==◌, if◌then◌else◌, leb, Bool-cases}

module _ {ℓ} {A : Type ℓ} where
  abbrev pub length : List A → ℕ
  length [] = 0
  length (x ∷ xs) = suc (length xs)

  pub length-append : (xs ys : List A) → length (xs ++ ys) ≡ length xs + length ys
  length-append [] ys = omega arith
  length-append (x ∷ xs) ys = omega (arith, length-append xs ys)

  -- `a ?? b`
  unfoldable pub get_or : A → Option A → A
  get_or d none = d
  get_or d (some a) = a

  unfoldable pub filter : (A → Bool) → List A → List A
  filter p [] = []
  filter p (x ∷ xs) = let rest = filter p xs in if p x then x ∷ rest else rest

  unfoldable pub find : (A → Bool) → List A → Option A
  find p [] = none
  find p (x ∷ xs) = if p x then some x else find p xs

  unfoldable pub any : (A → Bool) → List A → Bool
  any p [] = false
  any p (x ∷ xs) = p x || any p xs

  unfoldable pub all : (A → Bool) → List A → Bool
  all p [] = true
  all p (x ∷ xs) = p x && all p xs

  -- `xs.at(-1)`
  unfoldable pub get_last? : List A → Option A
  get_last? [] = none
  get_last? (x ∷ []) = some x
  get_last? (x ∷ y ∷ xs) = get_last? (y ∷ xs)

  -- `xs.sort((left, right) => key(left) - key(right))`, which is stable.
  unfoldable pub insert_by : (A → ℕ) → A → List A → List A
  insert_by key x [] = x ∷ []
  insert_by key x (y ∷ ys) = if leb (key x) (key y) then x ∷ y ∷ ys else y ∷ insert_by key x ys

  unfoldable pub sort_by : (A → ℕ) → List A → List A
  unfolding insert_by
  sort_by key [] = []
  sort_by key (x ∷ xs) = insert_by key x (sort_by key xs)

  pub filter-append :
      (p : A → Bool) (xs ys : List A) → filter p (xs ++ ys) ≡ filter p xs ++ filter p ys
  unfolding filter
  filter-append p [] ys = refl
  filter-append p (x ∷ xs) ys = ground (arith, filter-append p xs ys)

  pub get_last?-append_one : (xs : List A) (y : A) → get_last? (xs ++ y ∷ []) ≡ some y
  unfolding get_last?
  get_last?-append_one [] y = refl
  get_last?-append_one (x ∷ []) y = refl
  get_last?-append_one (x ∷ x' ∷ xs) y = get_last?-append_one (x' ∷ xs) y

-- `xs.includes(x)`
unfoldable pub contains : List String → String → Bool
contains [] x = false
contains (y ∷ ys) x = y == x || contains ys x

-- `set.add(x)`: a `Set` lists its members in the order in which they came.
unfoldable pub add_to_set : List String → String → List String
unfolding contains
add_to_set s x = if contains s x then s else s ++ x ∷ []

unfoldable pub add_all : List String → List String → List String
unfolding add_to_set
add_all s [] = s
add_all s (x ∷ xs) = add_all (add_to_set s x) xs

-- `new Set(xs)`
unfoldable pub to_set : List String → List String
unfolding add_all
to_set xs = add_all [] xs

-- No item: the empty type at every level.
pub data Never {ℓ} : Type ℓ where

module _ {ℓ} {A : Type ℓ} where
  -- `x` is an item of the list.
  abbrev pub In : A → List A → Type ℓ
  In x [] = Never
  In x (y ∷ ys) = (x ≡ y) ⊎ In x ys

  pub In-append_left : (x : A) (xs ys : List A) → In x xs → In x (xs ++ ys)
  In-append_left x [] ys h = elim h [ ]
  In-append_left x (z ∷ xs) ys (inl e) = inl e
  In-append_left x (z ∷ xs) ys (inr h) = inr (In-append_left x xs ys h)

  pub In-append_last : (xs : List A) (y : A) → In y (xs ++ y ∷ [])
  In-append_last [] y = inl refl
  In-append_last (x ∷ xs) y = inr (In-append_last xs y)

  pub In-append_one : (x : A) (xs : List A) (y : A) → In x (xs ++ y ∷ []) → In x xs ⊎ (x ≡ y)
  In-append_one x [] y (inl e) = inr e
  In-append_one x [] y (inr h) = elim h [ ]
  In-append_one x (z ∷ xs) y (inl e) = inl (inl e)
  In-append_one x (z ∷ xs) y (inr h) = elim (In-append_one x xs y h) [
    | inl k ↦ inl (inr k)
    | inr e ↦ inr e
  ]

  In-if :
      (b : Bool) (x y : A) (r : List A)
      → In x (if b then y ∷ r else r)
      → ((x ≡ y) × (b ≡ true)) ⊎ In x r
  In-if true x y r (inl e) = inl (e, refl)
  In-if true x y r (inr h) = inr h
  In-if false x y r h = inr h

  pub In-filter : (p : A → Bool) (x : A) (xs : List A) → In x (filter p xs) → In x xs × (p x ≡ true)
  unfolding filter
  In-filter p x [] h = elim h [ ]
  In-filter p x (y ∷ ys) h = elim (In-if (p y) x y (filter p ys) h) [
    | inl q ↦ (inl q.0, rw q.0 q.1)
    | inr k ↦ let r = In-filter p x ys k in (inr r.0, r.1)
  ]

  pub In-filter_intro :
      (p : A → Bool) (x : A) (xs : List A) → In x xs → p x ≡ true → In x (filter p xs)
  unfolding filter
  In-filter_intro p x [] h k = elim h [ ]
  In-filter_intro p x (y ∷ ys) (inl q) k = rw (← q, k) (inl refl)
  In-filter_intro p x (y ∷ ys) (inr h) k = elim (Bool-cases (p y)) [
    | inl e ↦ rw e (inr (In-filter_intro p x ys h k))
    | inr e ↦ rw e (In-filter_intro p x ys h k)
  ]
