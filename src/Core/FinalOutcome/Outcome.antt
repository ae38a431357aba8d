-- ===== src/Core/FinalOutcome/Outcome.antt =====
-- packages/core/src/final-outcome.ts: the types of the outcome, the events it is compiled from, its
-- final proposals and audits.
use deliberum.Prelude.{
  ℕ, String, Bool, true, false, ◌&&◌, not, Option, none, some, List, [], ◌∷◌, map, ltb, ◌==◌,
  if◌then◌else◌, length, Map, get, set, filter, find, to_set,
}
use deliberum.Errors.{
  Result, ok, err, map_ok, final_candidate_proposal_not_found, invalid_outcome_compilation_input,
}
use deliberum.Protocol.Deliberation.{
  Candidate, Objection, EvidenceNeed, EvidenceResult, QualityObligation,
}
use deliberum.Protocol.Proposals.{FinalCandidateProposal, FinalAudit}
use deliberum.Protocol.Events.{EventEnvelope}
use deliberum.Storage.Memory.{list_events}
use deliberum.Storage.Integrity.{sort_events}
use deliberum.Core.Projections.{
  Derived, CandidateFrontierProjection, EventRange, ProjectionInput, from_store, from_events,
}
use deliberum.Core.FinalOutcome.{
  final_candidate_proposed, final_audit_recorded, safe_parse_final_candidate_proposal,
  safe_parse_final_audit,
}

pub record CompileOutcomeInput : Type 0 where
  pub events : ProjectionInput
  pub final_candidate_proposal_event_id : Option String

pub data OutcomeDraftStatus : Type 0 where
  draft provisional : OutcomeDraftStatus

pub data OutcomeEvidenceCheck : Type 0 where
  unchecked reported : OutcomeEvidenceCheck

pub record OutcomeEvidenceNeedStatus : Type 0 where
  pub evidence_need : Derived EvidenceNeed
  pub status : OutcomeEvidenceCheck
  pub evidence_result_event_ids : List String
  pub evidence_results : List EvidenceResult

-- An event whose payload is a well-formed final candidate proposal, with that payload.
pub record FinalProposalEvent : Type 0 where
  pub event : EventEnvelope
  pub proposal : FinalCandidateProposal

pub record FinalAuditRecord : Type 0 where
  pub audit_event_id : String
  pub audit : FinalAudit
  pub sequence : ℕ

pub record EvidenceResultRecord : Type 0 where
  pub event_id : String
  pub result : EvidenceResult

pub record OutcomeCompilationProvenance : Type 0 where
  pub event_ids : List String
  pub event_range : Option EventRange
  pub final_candidate_proposal_event_id : Option String
  pub final_audit_event_ids : List String

pub record OutcomeCompilationResult : Type 0 where
  pub recommendation : String
  pub applicability_conditions : List String
  pub candidate_frontier_summary : CandidateFrontierProjection
  pub alternatives : List (Derived Candidate)
  pub objections : List (Derived Objection)
  pub unresolved_objections : List (Derived Objection)
  pub quality_obligations : List (Derived QualityObligation)
  pub evidence_status : List OutcomeEvidenceNeedStatus
  pub unresolved_questions : List String
  pub continuation_suggestions : List String
  pub provenance : OutcomeCompilationProvenance
  pub limitations : List String
  pub draft_status : OutcomeDraftStatus
  pub audits : List FinalAuditRecord

pub record ResolvedOutcomeEvents : Type 0 where
  pub events : List EventEnvelope
  pub session_id : Option String

unfoldable pub reject_mixed_outcome_events : List EventEnvelope → Result (List EventEnvelope)
unfolding to_set
reject_mixed_outcome_events events =
    if ltb 1 (length (to_set (map (λ e. e.session_id) events)))
    then err invalid_outcome_compilation_input
    else ok events

-- The empty session id counts as none.
unfoldable pub filter_outcome_events :
    List EventEnvelope → Option String → Result (List EventEnvelope)
unfolding filter reject_mixed_outcome_events
filter_outcome_events events none = reject_mixed_outcome_events events
filter_outcome_events events (some sid) =
    if sid == ""
    then reject_mixed_outcome_events events
    else ok (filter (λ e. e.session_id == sid) events)

unfoldable pub first_session : List EventEnvelope → Option String
first_session [] = none
first_session (e ∷ es) = some e.session_id

-- `sessionId ?? filteredEvents[0]?.sessionId`
unfoldable pub session_or_first : Option String → List EventEnvelope → Option String
unfolding first_session
session_or_first none events = first_session events
session_or_first (some sid) events = some sid

unfoldable pub resolved_with : Option String → List EventEnvelope → ResolvedOutcomeEvents
unfolding session_or_first
resolved_with sid filtered = record {
  events = sort_events filtered;
  session_id = session_or_first sid filtered;
}

unfoldable pub resolve_outcome_events : ProjectionInput → Result ResolvedOutcomeEvents
unfolding filter_outcome_events list_events resolved_with
resolve_outcome_events (from_store s sid) =
    ok (record { events = sort_events (list_events s sid); session_id = some sid })
resolve_outcome_events (from_events events sid) =
    map_ok (resolved_with sid) (filter_outcome_events events sid)

-- `sessionId ? { events, sessionId } : { events }`
unfoldable pub projection_input : ResolvedOutcomeEvents → ProjectionInput
projection_input r = elim r.session_id [
  | none ↦ from_events r.events none
  | some sid ↦ from_events r.events (if sid == "" then none else some sid)
]

unfoldable pub valid_final_candidate_proposal_event : EventEnvelope → Option FinalProposalEvent
unfolding safe_parse_final_candidate_proposal
valid_final_candidate_proposal_event e =
    if not (e.type == final_candidate_proposed)
    then none
    else elim (safe_parse_final_candidate_proposal e.payload) [
      | none ↦ none
      | some p ↦ some (record { event = e; proposal = p })
    ]

abbrev pub cons_some {κ} : {B : Type κ} → Option B → List B → List B
cons_some none ys = ys
cons_some (some y) ys = y ∷ ys

-- `flatMap` with a function that gives at most one item.
unfoldable pub flat_map {ℓ κ} : {A : Type ℓ} {B : Type κ} → (A → Option B) → List A → List B
flat_map f [] = []
flat_map f (x ∷ xs) = cons_some (f x) (flat_map f xs)

unfoldable pub get_valid_final_candidate_proposal_events :
    List EventEnvelope → List FinalProposalEvent
unfolding flat_map valid_final_candidate_proposal_event
get_valid_final_candidate_proposal_events events =
    flat_map valid_final_candidate_proposal_event events

unfoldable pub only_one : List FinalProposalEvent → Option FinalProposalEvent
only_one (p ∷ []) = some p
only_one _ = none

unfoldable pub find_final_candidate_proposal_event :
    List FinalProposalEvent → String → Result (Option FinalProposalEvent)
unfolding find
find_final_candidate_proposal_event proposals id = elim (find (λ p. p.event.id == id) proposals) [
  | none ↦ err (final_candidate_proposal_not_found id)
  | some p ↦ ok (some p)
]

unfoldable pub select_final_candidate_proposal_event :
    List FinalProposalEvent → Option String → Result (Option FinalProposalEvent)
unfolding only_one find_final_candidate_proposal_event
select_final_candidate_proposal_event proposals none = ok (only_one proposals)
select_final_candidate_proposal_event proposals (some id) =
    if id == "" then ok (only_one proposals) else find_final_candidate_proposal_event proposals id

-- `new Map(events.map((event) => [event.id, event]))`
unfoldable pub proposals_by_id :
    Map FinalProposalEvent → List FinalProposalEvent → Map FinalProposalEvent
proposals_by_id m [] = m
proposals_by_id m (p ∷ ps) = proposals_by_id (set m p.event.id p) ps

unfoldable pub audits_target : EventEnvelope → Option FinalProposalEvent → Bool
audits_target e none = false
audits_target e (some p) = p.event.session_id == e.session_id && ltb p.event.sequence e.sequence

unfoldable pub valid_final_audit : Map FinalProposalEvent → EventEnvelope → Option FinalAuditRecord
unfolding audits_target safe_parse_final_audit
valid_final_audit by_id e =
    if not (e.type == final_audit_recorded) then none else elim (safe_parse_final_audit e.payload) [
      | none ↦ none
      | some a ↦
          if audits_target e (get by_id a.target_final_candidate_proposal_event_id)
          then some (record { audit_event_id = e.id; audit = a; sequence = e.sequence })
          else none
    ]

unfoldable pub get_valid_final_audits :
    List EventEnvelope → List FinalProposalEvent → List FinalAuditRecord
unfolding flat_map valid_final_audit proposals_by_id
get_valid_final_audits events proposals =
    flat_map (valid_final_audit (proposals_by_id [] proposals)) events

unfoldable pub concerns : Option FinalProposalEvent → FinalAuditRecord → Bool
concerns none a = true
concerns (some p) a = a.audit.target_final_candidate_proposal_event_id == p.event.id
