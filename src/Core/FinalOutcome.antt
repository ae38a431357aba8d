-- ===== src/Core/FinalOutcome.antt =====
-- packages/core/src/final-outcome.ts: proposing and auditing a final candidate, and recording the
-- result of an evidence check. The compilation of the outcome is in the child modules.
pub mod Outcome
pub mod Evidence
pub mod Compile
pub mod Reported
pub mod Draft
pub mod Total
pub mod Recorded
pub mod Proposed
use deliberum.Prelude.{
  ℕ, zero, suc, ◌+◌, ◌-◌, ◌≤◌, ◌<◌, max, String, ◌+++◌, ◌≡◌, refl, sym, ap, ◌∙◌, ◌≢◌, ◌↔◌, ◌⊎◌, inl,
  inr, Bool, true, false, ◌&&◌, ◌||◌, not, Option, none, some, List, [], ◌∷◌, ◌++◌, map, arith,
  eq_iff, eq_refl, ltb, leb, nat_eq, ◌==◌, if◌then◌else◌, ltb→lt, leb→le, Bool-cases, Option-cases,
  String_discrete, ℕ_discrete, length, length-append, Map, get, set, get-set, get_or, filter, find,
  any, all, contains, get_last?, add_to_set, to_set, insert_by, sort_by, Never, In, In-append_left,
  In-append_last, In-append_one, In-filter, In-filter_intro, filter-append, get_last?-append_one,
  contains→In, In→contains, Distinct, Distinct-append_one, to_set-Distinct, In-to_set, all→In,
  In→all, Distinct-length-le,
}
use deliberum.Errors.{
  Error, Result, ok, err, Exec, ◌>>=◌, ◌>>◌, lift, require, invalid_final_candidate_proposal_input,
  final_candidate_proposal_not_found, invalid_final_audit_input, evidence_need_not_found,
  invalid_evidence_result_input,
}
use deliberum.Protocol.Deliberation.{
  Candidate, EvidenceNeed, EvidenceResult, evidence_result_schema,
}
use deliberum.Protocol.Proposals.{
  FinalCandidateProposal, FinalAudit, SemanticProposalStatus, final_candidate_proposal_schema,
  final_audit_schema,
}
use deliberum.Protocol.Events.{
  AppendEventInput, EventEnvelope, Payload, empty_trace, public, final_candidate_proposal,
  final_audit, evidence_result,
}
use deliberum.Protocol.Host.{Host}
use deliberum.Storage.Memory.{InMemoryEventStore, AppendEventResult, get_event, list_events}
use deliberum.Core.World.{World, next_id, get_clock, get_schema_version, assert_options, append}
use deliberum.Core.Projections.{
  Derived, CandidateFrontierProjection, AcceptedDeliberationObjectsProjection, from_store,
  project_candidate_frontier, project_accepted_deliberation_objects,
}

abbrev pub final_candidate_proposed : String
final_candidate_proposed = "final_candidate_proposed"

abbrev pub final_audit_recorded : String
final_audit_recorded = "final_audit_recorded"

abbrev pub evidence_result_recorded : String
evidence_result_recorded = "evidence_result_recorded"

pub record ProposeFinalCandidateInput : Type 0 where
  pub session_id : String
  pub author_id : String
  pub candidate_ids : List String
  pub recommendation : String
  pub applicability_conditions : Option (List String)
  pub rationale : String
  pub limitations : Option (List String)
  pub idempotency_key : Option String

pub record AuditFinalCandidateInput : Type 0 where
  pub session_id : String
  pub target_final_candidate_proposal_event_id : String
  pub author_id : String
  pub findings : Option (List String)
  pub risks : Option (List String)
  pub unresolved_objection_ids : Option (List String)
  pub quality_obligation_ids : Option (List String)
  pub evidence_need_ids : Option (List String)
  pub omissions : Option (List String)
  pub compression_problems : Option (List String)
  pub limitations : Option (List String)
  pub continuation_suggestions : Option (List String)
  pub idempotency_key : Option String

pub record RecordEvidenceResultInput : Type 0 where
  pub session_id : String
  pub evidence_need_id : String
  pub author_id : String
  pub source : String
  pub summary : String
  pub resource_ids : Option (List String)
  pub limitations : Option (List String)
  pub challenged_by : Option (List String)
  pub idempotency_key : Option String

-- `safeParse` of the three schemas.
unfoldable pub safe_parse_final_candidate_proposal : Payload → Option FinalCandidateProposal
unfolding final_candidate_proposal_schema
safe_parse_final_candidate_proposal (final_candidate_proposal p) =
    if final_candidate_proposal_schema p then some p else none
safe_parse_final_candidate_proposal _ = none

unfoldable pub safe_parse_final_audit : Payload → Option FinalAudit
unfolding final_audit_schema
safe_parse_final_audit (final_audit a) = if final_audit_schema a then some a else none
safe_parse_final_audit _ = none

unfoldable pub safe_parse_evidence_result : Payload → Option EvidenceResult
unfolding evidence_result_schema
safe_parse_evidence_result (evidence_result r) = if evidence_result_schema r then some r else none
safe_parse_evidence_result _ = none

unfoldable pub parse_final_candidate_proposal :
    FinalCandidateProposal → Result FinalCandidateProposal
unfolding final_candidate_proposal_schema
parse_final_candidate_proposal p =
    if final_candidate_proposal_schema p then ok p else err invalid_final_candidate_proposal_input

unfoldable pub parse_final_audit : FinalAudit → Result FinalAudit
unfolding final_audit_schema
parse_final_audit a = if final_audit_schema a then ok a else err invalid_final_audit_input

unfoldable pub parse_evidence_result : EvidenceResult → Result EvidenceResult
unfolding evidence_result_schema
parse_evidence_result r =
    if evidence_result_schema r then ok r else err invalid_evidence_result_input

-- `new Map(candidates.map((c) => [c.object.id, c]))`
unfoldable pub candidates_by_id :
    Map (Derived Candidate) → List (Derived Candidate) → Map (Derived Candidate)
candidates_by_id m [] = m
candidates_by_id m (c ∷ cs) = candidates_by_id (set m c.object.id c) cs

unfoldable pub keep_candidate :
    Option (Derived Candidate)
    → Result (List (Derived Candidate))
    → Result (List (Derived Candidate))
keep_candidate none rest = err invalid_final_candidate_proposal_input
keep_candidate (some c) (ok cs) = ok (c ∷ cs)
keep_candidate (some c) (err e) = err e

unfoldable pub select_candidates :
    Map (Derived Candidate) → List String → Result (List (Derived Candidate))
unfolding keep_candidate
select_candidates by_id [] = ok []
select_candidates by_id (id ∷ ids) = keep_candidate (get by_id id) (select_candidates by_id ids)

unfoldable pub alternative_ids : List (Derived Candidate) → List String → List String
alternative_ids frontier selected =
    filter (λ id. not (contains selected id)) (map (λ c. c.object.id) frontier)

unfoldable pub candidate_sources : List (Derived Candidate) → List String
candidate_sources [] = []
candidate_sources (c ∷ cs) =
    c.proposal_event_id ∷ c.accepted_by_event_ids ++ (c.source_event_ids ++ candidate_sources cs)

unfoldable pub collect_candidate_source_event_ids : List (Derived Candidate) → List String
unfolding candidate_sources to_set
collect_candidate_source_event_ids cs = to_set (candidate_sources cs)

unfoldable pub collect_evidence_need_basis_event_ids : Derived EvidenceNeed → List String
unfolding to_set
collect_evidence_need_basis_event_ids n =
    to_set (n.proposal_event_id ∷ n.accepted_by_event_ids ++ n.source_event_ids)

-- The largest sequence in the list, counted from 1: `reduce(Math.max, -1) + 1`.
unfoldable pub get_next_sequence : List EventEnvelope → ℕ
get_next_sequence [] = 0
get_next_sequence (e ∷ es) = max (suc e.sequence) (get_next_sequence es)

unfoldable pub check_final_target :
    List EventEnvelope → String → String → Option EventEnvelope → Result EventEnvelope
unfolding safe_parse_final_candidate_proposal get_next_sequence
check_final_target session_events session_id target none =
    err (final_candidate_proposal_not_found target)
check_final_target session_events session_id target (some e) =
    if not (e.session_id == session_id)
    then err invalid_final_audit_input
    else if not (e.type == final_candidate_proposed)
    then err invalid_final_audit_input
    else elim (safe_parse_final_candidate_proposal e.payload) [
      | none ↦ err invalid_final_audit_input
      | some _ ↦
          if leb (get_next_sequence session_events) e.sequence
          then err invalid_final_audit_input
          else ok e
    ]

unfoldable pub get_target_final_candidate_proposal_event :
    InMemoryEventStore → String → String → Result EventEnvelope
unfolding check_final_target
get_target_final_candidate_proposal_event s session_id target =
    check_final_target (list_events s session_id) session_id target (get_event s target)

unfoldable pub find_evidence_need :
    String → AcceptedDeliberationObjectsProjection → Result (Derived EvidenceNeed)
unfolding find
find_evidence_need need_id objects =
    elim (find (λ n. n.object.id == need_id) objects.evidence_needs) [
      | none ↦ err (evidence_need_not_found need_id)
      | some n ↦ ok n
    ]

-- The objects that the three operations ask their schemas to parse.
abbrev pub final_to_propose :
    ProposeFinalCandidateInput
    → CandidateFrontierProjection
    → List (Derived Candidate)
    → String
    → FinalCandidateProposal
final_to_propose input frontier selected proposal_id = record {
  id = proposal_id;
  candidate_ids = to_set input.candidate_ids;
  alternative_candidate_ids = alternative_ids frontier.candidates (to_set input.candidate_ids);
  source_event_ids = collect_candidate_source_event_ids selected;
  recommendation = input.recommendation;
  applicability_conditions = get_or [] input.applicability_conditions;
  rationale = input.rationale;
  limitations = get_or [] input.limitations;
  status = SemanticProposalStatus.proposed;
}

abbrev pub audit_to_record : AuditFinalCandidateInput → EventEnvelope → String → FinalAudit
audit_to_record input target audit_id = record {
  id = audit_id;
  target_final_candidate_proposal_event_id = target.id;
  findings = get_or [] input.findings;
  risks = get_or [] input.risks;
  unresolved_objection_ids = get_or [] input.unresolved_objection_ids;
  quality_obligation_ids = get_or [] input.quality_obligation_ids;
  evidence_need_ids = get_or [] input.evidence_need_ids;
  omissions = get_or [] input.omissions;
  compression_problems = get_or [] input.compression_problems;
  limitations = get_or [] input.limitations;
  continuation_suggestions = get_or [] input.continuation_suggestions;
}

abbrev pub result_to_record :
    RecordEvidenceResultInput → Derived EvidenceNeed → String → EvidenceResult
result_to_record input need result_id = record {
  id = result_id;
  evidence_need_id = need.object.id;
  source = input.source;
  summary = input.summary;
  resource_ids = some (get_or [] input.resource_ids);
  limitations = get_or [] input.limitations;
  challenged_by = some (get_or [] input.challenged_by);
}

module _ (h : Host) where
  -- What the three append calls have in common.
  abbrev pub event_input :
      String
      → String
      → String
      → String
      → String
      → List String
      → Option String
      → Payload
      → AppendEventInput
  event_input event_id session_id type author_id created_at based_on key payload = record {
    id = event_id;
    session_id = session_id;
    schema_version = get_schema_version h;
    type = type;
    author_id = author_id;
    created_at = created_at;
    based_on_event_ids = based_on;
    batch_id = none;
    visibility = public;
    idempotency_key = key;
    trace = empty_trace;
    payload = payload;
  }

  unfoldable pub final_input :
      ProposeFinalCandidateInput → String → String → FinalCandidateProposal → AppendEventInput
  final_input input event_id created_at p =
      event_input event_id input.session_id final_candidate_proposed input.author_id created_at
        p.source_event_ids input.idempotency_key (final_candidate_proposal p)

  unfoldable pub audit_input :
      AuditFinalCandidateInput → EventEnvelope → String → String → FinalAudit → AppendEventInput
  audit_input input target event_id created_at a =
      event_input event_id input.session_id final_audit_recorded input.author_id created_at
        (target.id ∷ []) input.idempotency_key (final_audit a)

  unfoldable pub result_input :
      RecordEvidenceResultInput
      → Derived EvidenceNeed
      → String
      → String
      → EvidenceResult
      → AppendEventInput
  result_input input need event_id created_at r =
      event_input event_id input.session_id evidence_result_recorded input.author_id created_at
        (collect_evidence_need_basis_event_ids need) input.idempotency_key (evidence_result r)

  abbrev pub read_frontier : String → Exec World CandidateFrontierProjection
  read_frontier session_id w = (project_candidate_frontier (from_store w.store session_id), w)

  abbrev pub read_objects : String → Exec World AcceptedDeliberationObjectsProjection
  read_objects session_id w =
      (project_accepted_deliberation_objects (from_store w.store session_id), w)

  abbrev pub find_final_target : String → String → Exec World EventEnvelope
  find_final_target session_id target w =
      (get_target_final_candidate_proposal_event w.store session_id target, w)

  unfoldable pub propose_final_candidate : ProposeFinalCandidateInput → Exec World AppendEventResult
  unfolding next_id get_clock
  propose_final_candidate input = assert_options h >> read_frontier input.session_id >>= λ frontier.
      lift
        (select_candidates (candidates_by_id [] frontier.candidates) (to_set input.candidate_ids))
      >>= λ selected. next_id h >>= λ proposal_id. get_clock h >>= λ created_at.
          lift
            (parse_final_candidate_proposal (final_to_propose input frontier selected proposal_id))
          >>= λ p. next_id h >>= λ event_id. append h (final_input input event_id created_at p)

  unfoldable pub audit_final_candidate : AuditFinalCandidateInput → Exec World AppendEventResult
  unfolding next_id get_clock
  audit_final_candidate input =
      assert_options h
      >> find_final_target input.session_id input.target_final_candidate_proposal_event_id
      >>= λ target. get_clock h >>= λ created_at. next_id h >>= λ audit_id.
          lift (parse_final_audit (audit_to_record input target audit_id)) >>= λ a.
          next_id h >>= λ event_id. append h (audit_input input target event_id created_at a)

  unfoldable pub record_evidence_result : RecordEvidenceResultInput → Exec World AppendEventResult
  unfolding next_id get_clock
  record_evidence_result input = assert_options h >> read_objects input.session_id >>= λ objects.
      lift (find_evidence_need input.evidence_need_id objects) >>= λ need.
      next_id h >>= λ result_id.
      lift (parse_evidence_result (result_to_record input need result_id)) >>= λ r.
      next_id h >>= λ event_id.
      get_clock h >>= λ created_at. append h (result_input input need event_id created_at r)
