-- ===== src/Protocol/Common.antt =====
-- packages/protocol/src/common.ts: texts, identifiers and JSON values.
use deliberum.Prelude.{String, Bool, true, not, ◌&&◌, Option, none, some, List, [], ◌∷◌, ◌==◌}

unfoldable pub non_empty_string : String → Bool
non_empty_string s = not (s == "")

-- `z.array(schema)`: each item passes.
unfoldable pub array_of {ℓ} : {A : Type ℓ} → (A → Bool) → List A → Bool
array_of p [] = true
array_of p (x ∷ xs) = p x && array_of p xs

-- `schema.optional()`: absent, or present and passing.
unfoldable pub optional {ℓ} : {A : Type ℓ} → (A → Bool) → Option A → Bool
optional p none = true
optional p (some x) = p x

-- `z.array(IdSchema)`, and the same with `.optional()`.
unfoldable pub ids : List String → Bool
unfolding array_of non_empty_string
ids = array_of non_empty_string

-- A JSON value. A number is kept as the text that `JSON.stringify` prints for it.
mutual
  pub data Json : Type 0 where
    null : Json
    bool : Bool → Json
    number : String → Json
    text : String → Json
    array : Items → Json
    object : Fields → Json

  pub data Items : Type 0 where
    nil : Items
    cons : Json → Items → Items

  pub data Fields : Type 0 where
    end : Fields
    field : String → Json → Fields → Fields
