-- ===== src/Errors.antt =====
-- The error classes of packages/core/src/errors.ts, packages/storage/src/errors.ts and
-- packages/resources/src/errors.ts, and functions that may throw. Of a message only the identifier that it shows is kept.
use deliberum.Prelude.{ℕ, String, Bool, true, false, ◌≡◌, refl, ◌⊎◌, inl, inr}

-- What a `JsonFileEventStoreError` says.
pub data JsonFileFault : Type 0 where
  key_reused range_invalid unreadable not_an_object unsupported_version events_not_an_array :
      JsonFileFault
  event_invalid chain_broken : JsonFileFault
  duplicate_id persisted_id_twice conflicting_key not_contiguous : String → JsonFileFault
  sequence_twice : String → ℕ → JsonFileFault

pub data Error : Type 0 where
  -- thrown by a schema's `parse`
  zod_error : Error
  -- packages/storage/src/errors.ts
  invalid_event_input invalid_event_range : Error
  duplicate_event_id : String → Error
  -- packages/storage/src/json-file-event-store.ts; and any error of the file system
  json_file_event_store_error : JsonFileFault → Error
  file_system_error : Error
  -- packages/core/src/errors.ts
  invalid_topic_contract_input missing_session_dependency : Error
  invalid_sealed_batch_input : Error
  sealed_batch_not_found : String → Error
  sealed_batch_already_closed : String → Error
  unauthorized_sealed_contribution : String → Error
  duplicate_sealed_contribution : String → Error
  incomplete_sealed_batch : String → Error
  invalid_extraction_proposal_input : Error
  extraction_proposal_not_found : String → Error
  extraction_source_event_not_found : String → Error
  invalid_extraction_proposal_target invalid_projection_input : Error
  invalid_process_proposal_input : Error
  process_proposal_event_not_found : String → Error
  invalid_process_proposal_target : Error
  process_proposal_basis_event_not_found : String → Error
  invalid_final_candidate_proposal_input : Error
  final_candidate_proposal_not_found : String → Error
  invalid_final_audit_input : Error
  evidence_need_not_found : String → Error
  invalid_evidence_result_input invalid_outcome_compilation_input : Error
  -- packages/resources/src/errors.ts
  invalid_resource_registration invalid_resource_policy : Error
  resource_already_registered resource_not_found : String → Error

pub data Result {ℓ} (A : Type ℓ) : Type ℓ where
  ok : A → Result A
  err : Error → Result A

-- An action on a state: what was written before a throw stays written.
abbrev pub Exec {ℓ κ} : Type ℓ → Type κ → Type (ℓ ⊔ κ)
Exec S A = S → Result A × S

module _ {ℓ κ} {S : Type ℓ} {A : Type κ} where
  abbrev pub pure : A → Exec S A
  pure a s = (ok a, s)

  abbrev pub throw : Error → Exec S A
  throw e s = (err e, s)

  abbrev pub lift : Result A → Exec S A
  lift r s = (r, s)

  abbrev pub gets : (S → A) → Exec S A
  gets f s = (ok (f s), s)

module _ {ℓ κ μ} {S : Type ℓ} {A : Type κ} {B : Type μ} where
  abbrev pub proceed : Result A → (A → Exec S B) → Exec S B
  proceed (ok a) f s = f a s
  proceed (err e) f s = (err e, s)

  infixl 10 ◌>>=◌ ◌>>◌
  abbrev pub ◌>>=◌ : Exec S A → (A → Exec S B) → Exec S B
  ◌>>=◌ m f s = let (r, t) = m s in proceed r f t

  abbrev pub ◌>>◌ : Exec S A → Exec S B → Exec S B
  m >> n = m >>= λ _. n

-- `if (!test) throw e`
abbrev pub require {ℓ} : {S : Type ℓ} → Bool → Error → Exec S (Unit {0})
require true e s = (ok tt, s)
require false e s = (err e, s)

pub Result-cases {ℓ} :
    {A : Type ℓ} (r : Result A) → ((a : A) × (r ≡ ok a)) ⊎ ((e : Error) × (r ≡ err e))
Result-cases (ok a) = inl (a, refl)
Result-cases (err e) = inr (e, refl)

pub ok_injective : {A : Type 0} (a b : A) → ok a ≡ ok b → a ≡ b
ok_injective a b p = cc

abbrev pub map_ok {ℓ κ} : {A : Type ℓ} {B : Type κ} → (A → B) → Result A → Result B
map_ok f (ok a) = ok (f a)
map_ok f (err e) = err e

-- A step that may fail, after one that may.
abbrev pub and_then {ℓ κ} : {A : Type ℓ} {B : Type κ} → Result A → (A → Result B) → Result B
and_then (ok a) f = f a
and_then (err e) f = err e
