-- ===== src/Core/FinalOutcome/Compile.antt =====
-- compileOutcome of packages/core/src/final-outcome.ts: the outcome of a session from its events.
use deliberum.Prelude.{
  String, Bool, true, false, ◌||◌, not, Option, none, some, List, [], ◌∷◌, ◌++◌, map, if◌then◌else◌,
  get_or, filter, any, contains, get_last?, to_set,
}
use deliberum.Errors.{Result, ok, and_then}
use deliberum.Protocol.Deliberation.{Objection, QualityObligation}
use deliberum.Protocol.Proposals.{FinalCandidateProposal, FinalAudit}
use deliberum.Protocol.Events.{EventEnvelope}
use deliberum.Core.Projections.{
  Derived, CandidateFrontierProjection, AcceptedDeliberationObjectsProjection, EventRange,
  project_candidate_frontier, project_accepted_deliberation_objects,
}
use deliberum.Core.FinalOutcome.Outcome.{
  CompileOutcomeInput, OutcomeDraftStatus, OutcomeEvidenceNeedStatus, FinalProposalEvent,
  FinalAuditRecord, OutcomeCompilationResult, draft, provisional, ResolvedOutcomeEvents,
  resolve_outcome_events, projection_input, get_valid_final_candidate_proposal_events,
  select_final_candidate_proposal_event, get_valid_final_audits, concerns,
}
use deliberum.Core.FinalOutcome.Evidence.{
  is_unresolved_objection, is_unfinished_quality_obligation, build_evidence_status, is_unchecked,
  non_empty, build_unresolved_questions,
}

-- The texts of every audit, in order.
unfoldable pub of_audits : (FinalAudit → List String) → List FinalAuditRecord → List String
of_audits texts [] = []
of_audits texts (a ∷ rest) = texts a.audit ++ of_audits texts rest

abbrev pub note_if : Bool → String → List String
note_if b text = if b then text ∷ [] else []

unfoldable pub build_continuation_suggestions :
    List (Derived Objection)
    → List (Derived QualityObligation)
    → List OutcomeEvidenceNeedStatus
    → List FinalAuditRecord
    → List String
unfolding to_set of_audits non_empty any is_unchecked
build_continuation_suggestions unresolved unfinished statuses audits = to_set (
    of_audits (λ a. a.continuation_suggestions) audits
    ++ (note_if (non_empty unresolved)
          "Continue deliberation on open disagreements before treating the conclusion as settled."
        ++ (note_if (non_empty unfinished)
              "Address challenged or unfinished answer requirements explicitly."
            ++ note_if (any is_unchecked statuses)
                "Run evidence checks for unchecked missing evidence before strengthening claims.")))

unfoldable pub build_limitations :
    List String
    → List (Derived Objection)
    → List (Derived QualityObligation)
    → List OutcomeEvidenceNeedStatus
    → List FinalAuditRecord
    → List String
unfolding to_set of_audits non_empty any is_unchecked
build_limitations proposal_limitations unresolved unfinished statuses audits = to_set (
    proposal_limitations
    ++ (of_audits (λ a. a.limitations) audits
        ++ (note_if (non_empty unresolved)
              "Open disagreements remain visible in this current conclusion."
            ++ (note_if (non_empty unfinished)
                  "Some answer requirements remain unfinished or challenged."
                ++ note_if (any is_unchecked statuses)
                    "Some missing evidence is unchecked; no verification is implied."))))

unfoldable pub get_event_range : List EventEnvelope → Option EventRange
unfolding get_last?
get_event_range [] = none
get_event_range (e ∷ es) =
    some (record {
      from_sequence = e.sequence;
      to_sequence = (get_or e (get_last? (e ∷ es))).sequence;
    })

unfoldable pub is_none {ℓ} : {A : Type ℓ} → Option A → Bool
is_none none = true
is_none (some a) = false

-- A field of the proposal that is selected, or a default.
unfoldable pub of_selected :
    {A : Type 0} → (FinalCandidateProposal → A) → A → Option FinalProposalEvent → A
of_selected field default none = default
of_selected field default (some p) = field p.proposal

unfoldable pub draft_status_of :
    List (Derived Objection)
    → List (Derived QualityObligation)
    → List OutcomeEvidenceNeedStatus
    → Option FinalProposalEvent
    → OutcomeDraftStatus
unfolding non_empty any is_unchecked is_none
draft_status_of unresolved unfinished statuses selected =
    if non_empty unresolved
      || (non_empty unfinished || (any is_unchecked statuses || is_none selected))
    then provisional
    else draft

-- The result that is put together once the parts are there.
unfoldable pub outcome_of :
    List EventEnvelope
    → AcceptedDeliberationObjectsProjection
    → CandidateFrontierProjection
    → Option FinalProposalEvent
    → OutcomeCompilationResult
outcome_of events objects frontier selected =
    let audits =
      filter (concerns selected)
        (get_valid_final_audits events (get_valid_final_candidate_proposal_events events)) in
    let unresolved = filter is_unresolved_objection objects.objections in
    let unfinished = filter is_unfinished_quality_obligation objects.quality_obligations in
    let statuses = build_evidence_status objects.evidence_needs events in
    record {
      recommendation =
          of_selected (λ p. p.recommendation) "No proposed conclusion has been selected yet."
            selected;
      applicability_conditions = of_selected (λ p. p.applicability_conditions) [] selected;
      candidate_frontier_summary = frontier;
      alternatives =
          filter (λ c. not (contains (of_selected (λ p. p.candidate_ids) [] selected) c.object.id))
            frontier.candidates;
      objections = objects.objections;
      unresolved_objections = unresolved;
      quality_obligations = objects.quality_obligations;
      evidence_status = statuses;
      unresolved_questions = build_unresolved_questions statuses unfinished;
      continuation_suggestions =
          build_continuation_suggestions unresolved unfinished statuses audits;
      provenance = record {
        event_ids = map (λ e. e.id) events;
        event_range = get_event_range events;
        final_candidate_proposal_event_id = elim selected [
          | none ↦ none
          | some p ↦ some p.event.id
        ];
        final_audit_event_ids = map (λ a. a.audit_event_id) audits;
      };
      limitations =
          build_limitations (of_selected (λ p. p.limitations) [] selected) unresolved unfinished
            statuses audits;
      draft_status = draft_status_of unresolved unfinished statuses selected;
      audits = audits;
    }

unfoldable pub compile_resolved :
    Option String → ResolvedOutcomeEvents → Result OutcomeCompilationResult
compile_resolved final_id r =
    and_then (project_accepted_deliberation_objects (projection_input r)) (λ objects.
      and_then (project_candidate_frontier (projection_input r)) (λ frontier.
        and_then
          (select_final_candidate_proposal_event
            (get_valid_final_candidate_proposal_events r.events) final_id)
          (λ selected. ok (outcome_of r.events objects frontier selected))))

unfoldable pub compile_outcome : CompileOutcomeInput → Result OutcomeCompilationResult
compile_outcome input =
    and_then (resolve_outcome_events input.events)
      (compile_resolved input.final_candidate_proposal_event_id)
