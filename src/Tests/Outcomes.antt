-- ===== src/Tests/Outcomes.antt =====
-- A session with one accepted proposal: its outcome, a final candidate and an evidence result.
use deliberum.Prelude.{
  String, ◌≡◌, ◌⊎◌, ◌↔◌, refl, true, none, [], ◌∷◌, map, In, to_set, filter, find, sort_by, get_or,
}
use deliberum.Errors.{ok}
use deliberum.Protocol.Deliberation.{
  Candidate, CandidateStatus, EvidenceNeed, EvidenceNeedRequiredKind, EvidenceNeedPriority,
  EvidenceNeedStatus,
}
use deliberum.Protocol.Proposals.{
  ExtractionProposal, SemanticProposalStatus, FinalCandidateProposal,
}
use deliberum.Protocol.Events.{
  AppendEventInput, extraction_proposal, proposal_acceptance, final_candidate_proposal,
}
use deliberum.Storage.Memory.{InMemoryEventStore, empty_store, append_event_result, list_events}
use deliberum.Storage.Memory.Consistent.{IsConsistent, IsConsistent-empty}
use deliberum.Storage.Memory.Preserve.{append_event_result-IsConsistent}
use deliberum.Core.World.{World, assert_options, append, get_schema_version}
use deliberum.Core.Projections.{
  frontier_of, project_accepted_deliberation_objects, resolve_projection_events, filter_events,
  from_store, AcceptedDeliberationObjectsProjection, CandidateFrontierProjection,
  project_candidate_frontier, project_extraction_proposal_states, accepted_objects_of, derive,
  states_of, project_events, project_event, record_acceptance, safe_parse_proposal_acceptance,
  affect, record_proposal, safe_parse_extraction_proposal, can_lifecycle_event_affect_proposal,
  create_derived_object, is_active,
}
use deliberum.Core.FinalOutcome.{
  ProposeFinalCandidateInput, RecordEvidenceResultInput, propose_final_candidate,
  record_evidence_result, parse_final_candidate_proposal, parse_evidence_result, select_candidates,
  find_evidence_need, final_input, result_input, candidates_by_id, alternative_ids,
  collect_candidate_source_event_ids, collect_evidence_need_basis_event_ids,
}
use deliberum.Core.FinalOutcome.Outcome.{
  only_one, get_valid_final_candidate_proposal_events, select_final_candidate_proposal_event,
  CompileOutcomeInput, OutcomeCompilationResult, OutcomeEvidenceNeedStatus, ResolvedOutcomeEvents,
  draft, reported,
}
use deliberum.Core.FinalOutcome.Compile.{outcome_of, compile_outcome}
use deliberum.Core.FinalOutcome.Draft.{Settled, compile_outcome-draft_iff}
use deliberum.Core.FinalOutcome.Total.{
  compile_selected, session, objects, resolve_outcome-from_store, project_objects-session,
}
use deliberum.Core.FinalOutcome.Recorded.{record_evidence_result-shown}
use deliberum.Core.FinalOutcome.Proposed.{propose_final_candidate-splits}
use deliberum.Tests.Scenario.{host, note, result_of}

abbrev candidate : Candidate
candidate = record {
  id = "c";
  title = "plan";
  description = "do it";
  source_event_ids = "e" ∷ [];
  status = CandidateStatus.active;
  supported_by = [];
  attacked_by = [];
  quality_obligation_ids = [];
  assumptions = [];
  tradeoffs = [];
  applicable_when = none;
}

abbrev need : EvidenceNeed
need = record {
  id = "n";
  target_claim_id = "m";
  required_kind = EvidenceNeedRequiredKind.web;
  reason = "unsure";
  priority = EvidenceNeedPriority.low;
  status = EvidenceNeedStatus.open_status;
  source_event_ids = "e" ∷ [];
}

abbrev proposal : ExtractionProposal
proposal = record {
  id = "x";
  source_event_ids = "e" ∷ [];
  candidates = candidate ∷ [];
  claims = [];
  objections = [];
  evidence_needs = need ∷ [];
  quality_obligations = [];
  rationale = "read";
  status = SemanticProposalStatus.proposed;
}

abbrev proposes : AppendEventInput
proposes = record (note "p" none) {
  type = "extraction_proposed";
  payload = extraction_proposal proposal;
}

abbrev accepts : AppendEventInput
accepts = record (note "a" none) {
  type = "proposal_accepted";
  payload =
      proposal_acceptance
        (record { id = "y"; target_proposal_event_id = "p"; rationale = "agreed" });
}

abbrev one : InMemoryEventStore
one = (append_event_result host proposes empty_store).1

abbrev two : InMemoryEventStore
two = (append_event_result host accepts one).1

two-IsConsistent : IsConsistent host.digest two
two-IsConsistent =
    append_event_result-IsConsistent host accepts one
      (append_event_result-IsConsistent host proposes empty_store (IsConsistent-empty host.digest))

abbrev accepted : World
accepted = record { store = two; id_calls = 0; clock_calls = 0 }

abbrev result_given : RecordEvidenceResultInput
result_given = record {
  session_id = "s";
  evidence_need_id = "n";
  author_id = "ann";
  source = "library";
  summary = "it holds";
  resource_ids = none;
  limitations = none;
  challenged_by = none;
  idempotency_key = none;
}

records_well :
    (record_evidence_result host result_given accepted).0
    ≡ ok (result_of (record_evidence_result host result_given accepted).0)
unfolding record_evidence_result assert_options append append_event_result parse_evidence_result
    find_evidence_need project_accepted_deliberation_objects project_extraction_proposal_states
    resolve_projection_events filter_events result_input collect_evidence_need_basis_event_ids
    accepted_objects_of derive states_of project_events sort_by list_events project_event
    record_acceptance safe_parse_proposal_acceptance affect record_proposal
    safe_parse_extraction_proposal can_lifecycle_event_affect_proposal create_derived_object
    get_schema_version filter find
records_well = refl

records_new : (result_of (record_evidence_result host result_given accepted).0).appended ≡ true
unfolding record_evidence_result assert_options append append_event_result parse_evidence_result
    find_evidence_need project_accepted_deliberation_objects project_extraction_proposal_states
    resolve_projection_events filter_events result_input collect_evidence_need_basis_event_ids
    accepted_objects_of derive states_of project_events sort_by list_events project_event
    record_acceptance safe_parse_proposal_acceptance affect record_proposal
    safe_parse_extraction_proposal can_lifecycle_event_affect_proposal create_derived_object
    get_schema_version filter find
records_new = refl

record_evidence_result-shown_example :
    (out : OutcomeCompilationResult) × (st : OutcomeEvidenceNeedStatus) × (compile_outcome (record {
      events = from_store (record_evidence_result host result_given accepted).1.store "s";
      final_candidate_proposal_event_id = none;
    })
      ≡ ok out)
    × In st out.evidence_status
    × (st.evidence_need.object.id ≡ "n")
    × (st.status ≡ reported)
    × In
        (result_of (record_evidence_result host result_given accepted).0).event.id
        st.evidence_result_event_ids
record_evidence_result-shown_example =
    record_evidence_result-shown host result_given accepted
      (result_of (record_evidence_result host result_given accepted).0) two-IsConsistent refl
      records_well records_new

abbrev final_given : ProposeFinalCandidateInput
final_given = record {
  session_id = "s";
  author_id = "ann";
  candidate_ids = "c" ∷ "c" ∷ [];
  recommendation = "take the plan";
  applicability_conditions = none;
  rationale = "agreed";
  limitations = none;
  idempotency_key = none;
}

finals_well :
    (propose_final_candidate host final_given accepted).0
    ≡ ok (result_of (propose_final_candidate host final_given accepted).0)
unfolding propose_final_candidate assert_options append append_event_result
    parse_final_candidate_proposal select_candidates project_candidate_frontier
    project_accepted_deliberation_objects project_extraction_proposal_states
    resolve_projection_events filter_events final_input to_set candidates_by_id frontier_of
    alternative_ids collect_candidate_source_event_ids is_active get_or accepted_objects_of derive
    states_of project_events sort_by list_events project_event record_acceptance
    safe_parse_proposal_acceptance affect record_proposal safe_parse_extraction_proposal
    can_lifecycle_event_affect_proposal create_derived_object get_schema_version filter find
finals_well = refl

finals_new : (result_of (propose_final_candidate host final_given accepted).0).appended ≡ true
unfolding propose_final_candidate assert_options append append_event_result
    parse_final_candidate_proposal select_candidates project_candidate_frontier
    project_accepted_deliberation_objects project_extraction_proposal_states
    resolve_projection_events filter_events final_input to_set candidates_by_id frontier_of
    alternative_ids collect_candidate_source_event_ids is_active get_or accepted_objects_of derive
    states_of project_events sort_by list_events project_event record_acceptance
    safe_parse_proposal_acceptance affect record_proposal safe_parse_extraction_proposal
    can_lifecycle_event_affect_proposal create_derived_object get_schema_version filter find
finals_new = refl

propose_final_candidate-splits_example :
    (frontier : CandidateFrontierProjection) × (p : FinalCandidateProposal)
    × (project_candidate_frontier (from_store two "s") ≡ ok frontier)
    × ((result_of (propose_final_candidate host final_given accepted).0).event.payload
        ≡ final_candidate_proposal p)
    × ((id : String) → In id p.candidate_ids ↔ In id ("c" ∷ "c" ∷ []))
    × ((id : String)
        → In id (map (λ c. c.object.id) frontier.candidates)
          ↔ (In id p.candidate_ids ⊎ In id p.alternative_candidate_ids))
    × ((id : String) → In id p.candidate_ids → In id p.alternative_candidate_ids → ⊥)
propose_final_candidate-splits_example =
    propose_final_candidate-splits host final_given accepted
      (result_of (propose_final_candidate host final_given accepted).0) finals_well finals_new

abbrev compiles : CompileOutcomeInput
compiles = record { events = from_store two "s"; final_candidate_proposal_event_id = none }

abbrev read : ResolvedOutcomeEvents
read = session host.digest two "s" two-IsConsistent refl

abbrev found : AcceptedDeliberationObjectsProjection
found = objects host.digest two "s" two-IsConsistent refl

abbrev outcome : OutcomeCompilationResult
outcome =
    outcome_of (list_events two "s") found (frontier_of found)
      (only_one (get_valid_final_candidate_proposal_events (list_events two "s")))

compiles_well : compile_outcome compiles ≡ ok outcome
unfolding select_final_candidate_proposal_event
compiles_well =
    compile_selected host.digest two "s" two-IsConsistent refl none
      (only_one (get_valid_final_candidate_proposal_events (list_events two "s"))) refl

compile_outcome-draft_iff_example :
    (outcome.draft_status ≡ draft) ↔ Settled read.events found outcome
compile_outcome-draft_iff_example =
    compile_outcome-draft_iff compiles read outcome found
      (resolve_outcome-from_store host.digest two "s" two-IsConsistent refl)
      (project_objects-session host.digest two "s" two-IsConsistent refl) compiles_well
