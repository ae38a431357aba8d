-- ===== src/Storage/Idempotency.antt =====
-- packages/storage/src/idempotency.ts: whether an event input repeats a stored event.
use deliberum.Prelude.{
  String, Bool, true, false, ◌&&◌, none, List, [], ◌∷◌, ◌==◌, if◌then◌else◌, contains,
}
use Prim.Native.Nat.{Ordering}
use Prim.Native.String.{compare}
use deliberum.Protocol.Common.{
  Json, null, bool, number, text, array, object, Items, nil, cons, Fields, end, field,
}
use deliberum.Protocol.Encode.Payloads.{payload_json}
use deliberum.Protocol.Events.{
  EventTrace, Payload, json, AppendEventInput, AppendEventInput-discrete,
}

-- The keys of the tables at the head of the file.
unfoldable pub generated_nested_fields : List String
generated_nested_fields = "committedAt" ∷ []

unfoldable pub generated_root_payload_fields : String → List String
unfolding contains
generated_root_payload_fields t =
    if t == "sealed_batch_opened"
    then "id" ∷ "openedAt" ∷ []
    else if t == "sealed_batch_revealed"
    then "revealedAt" ∷ []
    else if contains
        ("extraction_proposed" ∷ "proposal_challenged" ∷ "proposal_accepted"
          ∷ "final_candidate_proposed" ∷ "final_audit_recorded" ∷ "resource_delivery_planned"
          ∷ "resource_access_grant_created" ∷ "resource_access_grant_revoked" ∷ [])
        t
    then "id" ∷ []
    else []

unfoldable pub generated_trace_fields : String → List String
unfolding contains
generated_trace_fields t =
    if contains
      ("resource_delivery_planned" ∷ "resource_access_grant_created"
        ∷ "resource_access_grant_revoked" ∷ [])
      t
    then "resourceDeliveryIds" ∷ []
    else []

-- `Object.keys(value).sort()`: a field goes before the first one with a greater key.
abbrev before_key : String → String → Bool
before_key a b = elim (compare a b) [ Ordering.gt ↦ false | _ ↦ true ]

unfoldable pub insert_field : String → Json → Fields → Fields
insert_field k v end = field k v end
insert_field k v (field j w fs) =
    if before_key k j then field k v (field j w fs) else field j w (insert_field k v fs)

unfoldable mutual
  unfolding insert_field generated_nested_fields contains

  pub normalize_value : Bool → Json → Json
  normalize_value nested (array xs) = array (normalize_items nested xs)
  normalize_value nested (object fs) = object (normalize_fields nested fs)
  normalize_value nested null = null
  normalize_value nested (bool b) = bool b
  normalize_value nested (number n) = number n
  normalize_value nested (text t) = text t

  pub normalize_items : Bool → Items → Items
  normalize_items nested nil = nil
  normalize_items nested (cons x xs) = cons (normalize_value nested x) (normalize_items nested xs)

  pub normalize_fields : Bool → Fields → Fields
  normalize_fields nested end = end
  normalize_fields nested (field k v fs) =
      let rest = normalize_fields nested fs in
      let v' = normalize_value nested v in
      if nested && contains generated_nested_fields k then rest else insert_field k v' rest

-- `normalizePayload` on a payload that is a plain JSON object.
unfoldable pub normalize_root : List String → Fields → Fields
unfolding insert_field normalize_value contains
normalize_root generated end = end
normalize_root generated (field k v fs) =
    let rest = normalize_root generated fs in
    if contains generated k then rest else insert_field k (normalize_value true v) rest

-- Only a JSON object has generated keys; another value is normalized as it is.
unfoldable pub normalize_json_payload : List String → Json → Json
unfolding normalize_value normalize_root
normalize_json_payload generated (object fs) = object (normalize_root generated fs)
normalize_json_payload generated v = normalize_value false v

-- A payload of a known shape is compared as the JSON value that it is.
unfoldable pub normalize_payload : String → Payload → Payload
unfolding generated_root_payload_fields normalize_json_payload payload_json
normalize_payload t p =
    json (normalize_json_payload (generated_root_payload_fields t) (payload_json p))

unfoldable pub normalize_trace : String → EventTrace → EventTrace
unfolding generated_trace_fields contains
normalize_trace t trace =
    if contains (generated_trace_fields t) "resourceDeliveryIds"
    then record trace { resource_delivery_ids = none }
    else trace

unfoldable pub to_comparable : AppendEventInput → AppendEventInput
unfolding normalize_payload normalize_trace
to_comparable e = record e {
  id = "";
  created_at = "";
  batch_id = if e.type == "sealed_batch_opened" then none else e.batch_id;
  idempotency_key = none;
  trace = normalize_trace e.type e.trace;
  payload = normalize_payload e.type e.payload;
}

unfoldable pub is_compatible_idempotent_event_input : AppendEventInput → AppendEventInput → Bool
unfolding to_comparable
is_compatible_idempotent_event_input existing input =
    elim (AppendEventInput-discrete (to_comparable existing) (to_comparable input)) [
      | yes _ ↦ true
      | no _ ↦ false
    ]
