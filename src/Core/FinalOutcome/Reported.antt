-- ===== src/Core/FinalOutcome/Reported.antt =====
-- buildEvidenceStatus of packages/core/src/final-outcome.ts: the results that a need has.
use deliberum.Prelude.{
  String, ◌≡◌, refl, sym, ap, ◌∙◌, inl, inr, Option, none, some, List, [], ◌∷◌, ◌++◌, eq_iff, ◌==◌,
  if◌then◌else◌, Bool-cases, Option-cases, get, get-set, get_or, In,
}
use mathlib.Core.List.{append_assoc, append-nil}
use deliberum.Protocol.Deliberation.{EvidenceResult}
use deliberum.Protocol.Events.{EventEnvelope}
use deliberum.Core.FinalOutcome.{evidence_result_recorded, safe_parse_evidence_result}
use deliberum.Core.FinalOutcome.Outcome.{EvidenceResultRecord, flat_map, cons_some}
use deliberum.Core.FinalOutcome.Evidence.{Results, record_result, group_result, group_results}

unfoldable pub names_need :
    String → EventEnvelope → Option EvidenceResult → Option EvidenceResultRecord
names_need need_id e none = none
names_need need_id e (some r) =
    if r.evidence_need_id == need_id then some (record { event_id = e.id; result = r }) else none

-- The well-formed result in the event, if it is one of the evidence need `need_id`.
unfoldable pub reports : String → EventEnvelope → Option EvidenceResultRecord
unfolding names_need
reports need_id e =
    if e.type == evidence_result_recorded
    then names_need need_id e (safe_parse_evidence_result e.payload)
    else none

-- The records of a need.
abbrev pub records_in : Results → String → List EvidenceResultRecord
records_in m need_id = get_or [] (get m need_id)

records-record_result :
    (m : Results) (e : EventEnvelope) (o : Option EvidenceResult) (need_id : String)
    → records_in (record_result m e o) need_id
      ≡ records_in m need_id ++ cons_some (names_need need_id e o) []
unfolding record_result names_need get_or
records-record_result m e none need_id = sym (append-nil (records_in m need_id))
records-record_result m e (some r) need_id = elim (Bool-cases (r.evidence_need_id == need_id)) [
  | inl q ↦ rw (get-set, q, (eq_iff r.evidence_need_id need_id).0 q) refl
  | inr q ↦ rw (get-set, q) (sym (append-nil (records_in m need_id)))
]

records-group_result :
    (m : Results) (e : EventEnvelope) (need_id : String)
    → records_in (group_result m e) need_id
      ≡ records_in m need_id ++ cons_some (reports need_id e) []
unfolding group_result reports
records-group_result m e need_id = elim (Bool-cases (e.type == evidence_result_recorded)) [
  | inl q ↦ rw q (records-record_result m e (safe_parse_evidence_result e.payload) need_id)
  | inr q ↦ rw q (sym (append-nil (records_in m need_id)))
]

cons_some-flat_map :
    (need_id : String) (e : EventEnvelope) (es : List EventEnvelope)
    → cons_some (reports need_id e) [] ++ flat_map (reports need_id) es
      ≡ flat_map (reports need_id) (e ∷ es)
unfolding flat_map
cons_some-flat_map need_id e es = elim (Option-cases (reports need_id e)) [
  | inl n ↦ rw n refl
  | inr r ↦ rw (r.1) refl
]

records-group_results :
    (m : Results) (es : List EventEnvelope) (need_id : String)
    → records_in (group_results m es) need_id
      ≡ records_in m need_id ++ flat_map (reports need_id) es
unfolding group_results flat_map
records-group_results m [] need_id = sym (append-nil (records_in m need_id))
records-group_results m (e ∷ es) need_id =
    records-group_results (group_result m e) es need_id
    ∙ (ap (λ l. l ++ flat_map (reports need_id) es) (records-group_result m e need_id)
        ∙ (append_assoc (records_in m need_id) (cons_some (reports need_id e) [])
              (flat_map (reports need_id) es)
            ∙ ap (λ l. records_in m need_id ++ l) (cons_some-flat_map need_id e es)))

-- The records that the compilation finds for a need are those of the events that report it.
pub records_of_need :
    (events : List EventEnvelope) (need_id : String)
    → records_in (group_results [] events) need_id ≡ flat_map (reports need_id) events
unfolding flat_map get_or get
records_of_need events need_id = records-group_results [] events need_id

pub In-flat_map :
    {A B : Type 0} (f : A → Option B) (y : B) (xs : List A)
    → In y (flat_map f xs)
    → (x : A) × In x xs × (f x ≡ some y)
unfolding flat_map
In-flat_map f y [] m = elim m [ ]
In-flat_map f y (x ∷ xs) m = elim (Option-cases (f x)) [
  | inl n ↦ let r = In-flat_map f y xs (rw n at m) in (r.0, inr r.1, r.2)
  | inr z ↦
      let k : In y (z.0 ∷ flat_map f xs) = rw (z.1) at m in
      elim k [
        | inl e ↦ (x, inl refl, z.1 ∙ ap some (sym e))
        | inr k ↦ let r = In-flat_map f y xs k in (r.0, inr r.1, r.2)
      ]
]

pub In-flat_map_intro :
    {A B : Type 0} (f : A → Option B) (x : A) (y : B) (xs : List A)
    → In x xs
    → f x ≡ some y
    → In y (flat_map f xs)
unfolding flat_map
In-flat_map_intro f x y [] m e = elim m [ ]
In-flat_map_intro f x y (z ∷ xs) (inl q) e = rw (← q, e) (inl refl)
In-flat_map_intro f x y (z ∷ xs) (inr m) e = elim (Option-cases (f z)) [
  | inl n ↦ rw n (In-flat_map_intro f x y xs m e)
  | inr w ↦ rw (w.1) (inr (In-flat_map_intro f x y xs m e))
]

-- An event of the list reports the need.
abbrev pub IsReported : List EventEnvelope → String → Type 0
IsReported events need_id =
    (e : EventEnvelope) × (r : EvidenceResultRecord) × In e events × (reports need_id e ≡ some r)
