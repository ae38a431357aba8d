-- ===== src/Prelude/Sets.antt =====
-- The members of a `Set` built from a list: each item once.
use Prim.Native.Nat.{suc, ◌≤◌}
use mathlib.Core.Path.{◌≡◌, refl, sym, ap, ◌∙◌, subst}
use mathlib.Core.Logic.{◌⊎◌, inl, inr, ◌↔◌}
use mathlib.Core.Bool.{Bool, true}
use mathlib.Core.List.{List, [], ◌∷◌, ◌++◌}
use Prim.Native.String.{String}
use native.Mathlib.Omega.{arith}
use text.Mathlib.TextEquality.{eq_iff}
use deliberum.Prelude.Tests.{◌==◌, Bool-cases}
use deliberum.Prelude.Lists.{
  In, In-append_left, In-append_one, In-append_last, contains, add_to_set, add_all, to_set, all,
  length,
}

pub contains→In : (xs : List String) (x : String) → contains xs x ≡ true → In x xs
unfolding contains
contains→In [] x e = cc
contains→In (y ∷ ys) x e = elim (Bool-cases (y == x)) [
  | inl q ↦ inl (sym ((eq_iff y x).0 q))
  | inr q ↦ inr (contains→In ys x (ground arith))
]

pub In→contains : (xs : List String) (x : String) → In x xs → contains xs x ≡ true
unfolding contains
In→contains [] x m = elim m [ ]
In→contains (y ∷ ys) x (inl q) = rw ((eq_iff y x).1 (sym q))
In→contains (y ∷ ys) x (inr m) = rw (In→contains ys x m) (ground arith)

-- No item stands twice.
abbrev pub Distinct {ℓ} : {A : Type ℓ} → List A → Type ℓ
Distinct [] = Unit
Distinct (x ∷ xs) = (In x xs → ⊥) × Distinct xs

pub Distinct-append_one {ℓ} :
    {A : Type ℓ} (xs : List A) (y : A) → Distinct xs → (In y xs → ⊥) → Distinct (xs ++ y ∷ [])
Distinct-append_one [] y d n = (λ m. elim m [ ], tt)
Distinct-append_one (x ∷ xs) y d n = (
  λ m. elim (In-append_one x xs y m) [ inl k ↦ d.0 k | inr e ↦ n (inl (sym e)) ],
  Distinct-append_one xs y d.1 (λ m. n (inr m)),
)

add_to_set-Distinct : (s : List String) (x : String) → Distinct s → Distinct (add_to_set s x)
unfolding add_to_set
add_to_set-Distinct s x d = elim (Bool-cases (contains s x)) [
  | inl e ↦ rw e d
  | inr e ↦ rw e (Distinct-append_one s x d (λ m. cc (e, In→contains s x m)))
]

In-add_to_set : (s : List String) (x y : String) → In y (add_to_set s x) → In y s ⊎ (y ≡ x)
unfolding add_to_set
In-add_to_set s x y m = elim (Bool-cases (contains s x)) [
  | inl e ↦ inl (rw e at m)
  | inr e ↦ In-append_one y s x (rw e at m)
]

pub In-add_to_set_old : (s : List String) (x y : String) → In y s → In y (add_to_set s x)
unfolding add_to_set
In-add_to_set_old s x y m = elim (Bool-cases (contains s x)) [
  | inl e ↦ rw e m
  | inr e ↦ rw e (In-append_left y s (x ∷ []) m)
]

pub In-add_to_set_new : (s : List String) (x : String) → In x (add_to_set s x)
unfolding add_to_set
In-add_to_set_new s x = elim (Bool-cases (contains s x)) [
  | inl e ↦ rw e (contains→In s x e)
  | inr e ↦ rw e (In-append_last s x)
]

add_all-Distinct : (s xs : List String) → Distinct s → Distinct (add_all s xs)
unfolding add_all
add_all-Distinct s [] d = d
add_all-Distinct s (x ∷ xs) d = add_all-Distinct (add_to_set s x) xs (add_to_set-Distinct s x d)

In-add_all : (s xs : List String) (y : String) → In y (add_all s xs) → In y s ⊎ In y xs
unfolding add_all
In-add_all s [] y m = inl m
In-add_all s (x ∷ xs) y m = elim (In-add_all (add_to_set s x) xs y m) [
  | inr k ↦ inr (inr k)
  | inl k ↦ elim (In-add_to_set s x y k) [ inl old ↦ inl old | inr e ↦ inr (inl e) ]
]

In-add_all_intro : (s xs : List String) (y : String) → In y s ⊎ In y xs → In y (add_all s xs)
unfolding add_all
In-add_all_intro s [] y (inl m) = m
In-add_all_intro s [] y (inr m) = elim m [ ]
In-add_all_intro s (x ∷ xs) y (inl m) =
    In-add_all_intro (add_to_set s x) xs y (inl (In-add_to_set_old s x y m))
In-add_all_intro s (x ∷ xs) y (inr (inl e)) =
    In-add_all_intro (add_to_set s x) xs y (inl (rw e (In-add_to_set_new s x)))
In-add_all_intro s (x ∷ xs) y (inr (inr m)) = In-add_all_intro (add_to_set s x) xs y (inr m)

pub to_set-Distinct : (xs : List String) → Distinct (to_set xs)
unfolding to_set
to_set-Distinct xs = add_all-Distinct [] xs tt

pub In-to_set : (xs : List String) (y : String) → In y (to_set xs) ↔ In y xs
unfolding to_set
In-to_set xs y = (
  λ m. elim (In-add_all [] xs y m) [ inl k ↦ elim k [ ] | inr k ↦ k ],
  λ m. In-add_all_intro [] xs y (inr m),
)

-- `every` over a list of texts.
pub all→In :
    (p : String → Bool) (xs : List String) → all p xs ≡ true → (x : String) → In x xs → p x ≡ true
unfolding all
all→In p [] h x m = elim m [ ]
all→In p (y ∷ ys) h x (inl e) = rw e (ground arith)
all→In p (y ∷ ys) h x (inr m) = all→In p ys (ground arith) x m

pub In→all :
    (p : String → Bool) (xs : List String) → ((x : String) → In x xs → p x ≡ true) → all p xs ≡ true
unfolding all
In→all p [] h = refl
In→all p (y ∷ ys) h = rw (h y (inl refl)) (In→all p ys (λ x m. h x (inr m)))

module _ {ℓ} {A : Type ℓ} where
  -- The list less one occurrence of an item.
  without : (x : A) (ys : List A) → In x ys → List A
  without x [] m = []
  without x (y ∷ ys) (inl e) = ys
  without x (y ∷ ys) (inr m) = y ∷ without x ys m

  length-without : (x : A) (ys : List A) (m : In x ys) → length ys ≡ suc (length (without x ys m))
  unfolding without
  length-without x [] m = elim m [ ]
  length-without x (y ∷ ys) (inl e) = refl
  length-without x (y ∷ ys) (inr m) = ap suc (length-without x ys m)

  In-without : (x y : A) (ys : List A) (m : In x ys) → In y ys → (y ≡ x → ⊥) → In y (without x ys m)
  unfolding without
  In-without x y [] m k n = elim k [ ]
  In-without x y (z ∷ ys) (inl e) (inl q) n = absurd (n (q ∙ sym e))
  In-without x y (z ∷ ys) (inl e) (inr k) n = k
  In-without x y (z ∷ ys) (inr m) (inl q) n = inl q
  In-without x y (z ∷ ys) (inr m) (inr k) n = inr (In-without x y ys m k n)

  -- Distinct items of a list are no more than its items.
  pub Distinct-length-le :
      (xs ys : List A) → Distinct xs → ((x : A) → In x xs → In x ys) → length xs ≤ length ys
  Distinct-length-le [] ys d h = omega arith
  Distinct-length-le (x ∷ xs) ys d h =
      let m = h x (inl refl) in
      let le = Distinct-length-le xs (without x ys m) d.1 (λ y k.
        In-without x y ys m (h y (inr k)) (λ (e : y ≡ x). d.0 (subst (λ z. In z xs) e k))) in
      omega (arith, le, length-without x ys m)
