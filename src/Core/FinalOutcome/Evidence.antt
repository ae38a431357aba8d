-- ===== src/Core/FinalOutcome/Evidence.antt =====
-- packages/core/src/final-outcome.ts: what is open in a session and which evidence has been reported.
use deliberum.Prelude.{
  String, Bool, true, false, Option, none, some, List, [], ◌∷◌, ◌++◌, map, ◌==◌, if◌then◌else◌, Map,
  get, set, get_or, filter, to_set,
}
use deliberum.Protocol.Deliberation.{
  Objection, EvidenceNeed, EvidenceResult, QualityObligation, ObjectionStatus,
  QualityObligationStatus,
}
use deliberum.Protocol.Events.{EventEnvelope}
use deliberum.Core.Projections.{Derived}
use deliberum.Core.FinalOutcome.{evidence_result_recorded, safe_parse_evidence_result}
use deliberum.Core.FinalOutcome.Outcome.{
  OutcomeEvidenceCheck, OutcomeEvidenceNeedStatus, EvidenceResultRecord, unchecked, reported,
}

unfoldable pub is_open_objection : ObjectionStatus → Bool
is_open_objection ObjectionStatus.open_status = true
is_open_objection ObjectionStatus.partially_answered = true
is_open_objection ObjectionStatus.accepted = true
is_open_objection ObjectionStatus.unresolved = true
is_open_objection _ = false

unfoldable pub is_unresolved_objection : Derived Objection → Bool
unfolding is_open_objection
is_unresolved_objection o = is_open_objection o.object.status

unfoldable pub is_open_obligation : QualityObligationStatus → Bool
is_open_obligation QualityObligationStatus.unanswered = true
is_open_obligation QualityObligationStatus.partially_answered = true
is_open_obligation QualityObligationStatus.challenged = true
is_open_obligation QualityObligationStatus.unresolved = true
is_open_obligation _ = false

unfoldable pub is_unfinished_quality_obligation : Derived QualityObligation → Bool
unfolding is_open_obligation
is_unfinished_quality_obligation q = is_open_obligation q.object.status

abbrev pub Results : Type 0
Results = Map (List EvidenceResultRecord)

unfoldable pub record_result : Results → EventEnvelope → Option EvidenceResult → Results
record_result m e none = m
record_result m e (some r) =
    set m r.evidence_need_id
      (get_or [] (get m r.evidence_need_id) ++ record { event_id = e.id; result = r } ∷ [])

-- One round of the loop over the events.
unfoldable pub group_result : Results → EventEnvelope → Results
unfolding record_result safe_parse_evidence_result
group_result m e =
    if e.type == evidence_result_recorded
    then record_result m e (safe_parse_evidence_result e.payload)
    else m

unfoldable pub group_results : Results → List EventEnvelope → Results
unfolding group_result
group_results m [] = m
group_results m (e ∷ es) = group_results (group_result m e) es

unfoldable pub check_of : List EvidenceResultRecord → OutcomeEvidenceCheck
check_of [] = unchecked
check_of (r ∷ rs) = reported

unfoldable pub evidence_need_status :
    List EvidenceResultRecord → Derived EvidenceNeed → OutcomeEvidenceNeedStatus
unfolding check_of
evidence_need_status records need = record {
  evidence_need = need;
  status = check_of records;
  evidence_result_event_ids = map (λ r. r.event_id) records;
  evidence_results = map (λ r. r.result) records;
}

unfoldable pub build_evidence_status :
    List (Derived EvidenceNeed) → List EventEnvelope → List OutcomeEvidenceNeedStatus
unfolding group_results evidence_need_status
build_evidence_status needs events =
    map (λ n. evidence_need_status (get_or [] (get (group_results [] events) n.object.id)) n) needs

unfoldable pub is_unchecked : OutcomeEvidenceNeedStatus → Bool
is_unchecked n = elim n.status [ unchecked ↦ true | reported ↦ false ]

unfoldable pub non_empty {ℓ} : {A : Type ℓ} → List A → Bool
non_empty [] = false
non_empty (x ∷ xs) = true

unfoldable pub build_unresolved_questions :
    List OutcomeEvidenceNeedStatus → List (Derived QualityObligation) → List String
unfolding to_set filter is_unchecked
build_unresolved_questions statuses unfinished = to_set (
    map (λ n. n.evidence_need.object.reason) (filter is_unchecked statuses)
    ++ map (λ q. q.object.requirement) unfinished)
