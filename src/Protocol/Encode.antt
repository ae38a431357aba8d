-- ===== src/Protocol/Encode.antt =====
-- Values as JSON: what a typed payload is to code that takes it as an unknown value.
pub mod Core
pub mod Deliberation
pub mod Proposals
pub mod Payloads
use deliberum.Prelude.{not_ltb→le, ◌≤◌, ◌≡◌, refl, Bool-cases, inl, inr, arith}
use deliberum.Prelude.{
  ℕ, zero, suc, String, ◌+++◌, Bool, true, false, Option, none, some, List, [], ◌∷◌, ltb,
}
use Prim.Native.Nat.{◌/◌, ◌%◌}
use Prim.Native.String.{slice}
use deliberum.Protocol.Common.{Json, number, text, array, Items, nil, cons, Fields, field}

unfoldable pub digit : ℕ → String
digit d = slice "0123456789" d 1

-- The decimal digits of a number, which has at most one more of them than the fuel.
unfoldable pub decimal_on : ℕ → ℕ → String
unfolding digit
decimal_on zero n = digit (n % 10)
decimal_on (suc fuel) n = elim (ltb n 10) [
  | true ↦ digit n
  | false ↦ decimal_on fuel (n / 10) +++ digit (n % 10)
]

-- With n or more fuel the digits of n do not depend on it.
decimal_on_enough : (a b n : ℕ) → n ≤ a → n ≤ b → decimal_on a n ≡ decimal_on b n
unfolding decimal_on
decimal_on_enough zero zero n p q = refl
decimal_on_enough zero (suc b) n p q = ground arith
decimal_on_enough (suc a) zero n p q = ground arith
decimal_on_enough (suc a) (suc b) n p q = elim (Bool-cases (ltb n 10)) [
  | inl small ↦ rw (small, decimal_on) refl
  | inr large ↦
      let more : 10 ≤ n = not_ltb→le n 10 large in
      rw (large, decimal_on, decimal_on_enough a b (n / 10) (omega arith) (omega arith)) refl
]

unfoldable pub count : ℕ → Json
unfolding decimal_on
count n = number (decimal_on n n)

unfoldable pub items_of {ℓ} : {A : Type ℓ} → (A → Json) → List A → Items
items_of f [] = nil
items_of f (x ∷ xs) = cons (f x) (items_of f xs)

unfoldable pub list_of {ℓ} : {A : Type ℓ} → (A → Json) → List A → Json
unfolding items_of
list_of f xs = array (items_of f xs)

unfoldable pub texts : List String → Json
unfolding list_of
texts xs = list_of text xs

-- An optional field that is not there is left out.
unfoldable pub put_optional {ℓ} : {A : Type ℓ} → String → (A → Json) → Option A → Fields → Fields
put_optional k f none rest = rest
put_optional k f (some a) rest = field k (f a) rest
