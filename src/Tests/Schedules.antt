-- ===== src/Tests/Schedules.antt =====
-- A run without a sealed round, in an empty store.
use deliberum.Prelude.{◌≤◌, String, ◌≡◌, refl, ◌≢◌, ◌⊎◌, inl, true, none, List, [], ◌∷◌, length, In}
use deliberum.Errors.{Result, ok, err}
use deliberum.Protocol.Proposals.{ProcessProposal, ProcessProposalStatus, process_proposal_schema}
use deliberum.Storage.Memory.{empty_store}
use deliberum.Core.Projections.{
  filter_events, AcceptedDeliberationObjectsProjection, CandidateFrontierProjection,
  project_candidate_frontier, project_accepted_deliberation_objects, resolve_projection_events,
  project_extraction_proposal_states,
}
use deliberum.Orchestrator.Gaps.{
  DeliberationRunRecord, AdaptivePrimitiveSchedulerResult, normalize_max_proposals,
  open_evidence_need_ids, repair_targets,
}
use deliberum.Orchestrator.Scheduler.{
  create_process_proposal, add_proposal, observe, suggest, suggest_divergence, suggest_for_round,
  create_result, suggest_adaptive_primitive_proposals, create_stable_proposal_id,
}
use deliberum.Orchestrator.Scheduler.Settled.{Settles}
use deliberum.Orchestrator.Scheduler.Bounds.{
  IsAtMost, scheduler_input, suggest_adaptive_primitive_proposals-bounds,
  suggest_adaptive_primitive_proposals-IsSuggested,
}

abbrev new_run : DeliberationRunRecord
new_run = record {
  id = "r";
  session_id = "s";
  topic_contract_event_id = "e";
  participant_count = 2;
  current_batch_id = none;
  sealed_divergence_round = none;
  extraction_rounds = none;
  proposal_review_rounds = none;
  finalization_rounds = none;
}

abbrev hash_of : List String → String → String → String
hash_of ids gain risk = "00000000"

abbrev scheduled : Result AdaptivePrimitiveSchedulerResult → AdaptivePrimitiveSchedulerResult
scheduled (ok out) = out
scheduled (err e) = record {
  run_id = "";
  session_id = "";
  proposals = [];
  observations = [];
  event_range = none;
  event_ids = [];
}

abbrev out : AdaptivePrimitiveSchedulerResult
out = scheduled (suggest_adaptive_primitive_proposals hash_of new_run empty_store none)

done : suggest_adaptive_primitive_proposals hash_of new_run empty_store none ≡ ok out
unfolding suggest_adaptive_primitive_proposals project_accepted_deliberation_objects
    project_candidate_frontier create_process_proposal process_proposal_schema add_proposal observe
    suggest suggest_divergence suggest_for_round resolve_projection_events
    project_extraction_proposal_states normalize_max_proposals create_stable_proposal_id
    filter_events
done = refl

abbrev first : List ProcessProposal → ProcessProposal
first (p ∷ ps) = p
first [] = record {
  id = "";
  primitive = "";
  target_ids = [];
  expected_quality_gain = "";
  risk_if_skipped = "";
  requested_budget = none;
  status = ProcessProposalStatus.proposed;
}

one : In (first out.proposals) out.proposals
unfolding suggest_adaptive_primitive_proposals create_result project_accepted_deliberation_objects
    project_extraction_proposal_states resolve_projection_events filter_events
    project_candidate_frontier suggest_for_round suggest_divergence suggest add_proposal
    normalize_max_proposals create_process_proposal process_proposal_schema
    create_stable_proposal_id observe
one = inl refl

suggest_adaptive_primitive_proposals-bounds_example :
    (length out.proposals ≤ normalize_max_proposals none) × IsAtMost none (length out.proposals)
suggest_adaptive_primitive_proposals-bounds_example =
    suggest_adaptive_primitive_proposals-bounds hash_of new_run empty_store none out done

suggest_adaptive_primitive_proposals-IsSuggested_example :
    (objects : AcceptedDeliberationObjectsProjection) × (frontier : CandidateFrontierProjection)
    × (project_accepted_deliberation_objects (scheduler_input new_run empty_store) ≡ ok objects)
    × (project_candidate_frontier (scheduler_input new_run empty_store) ≡ ok frontier)
    × (process_proposal_schema (first out.proposals) ≡ true)
    × ((first out.proposals).status ≡ ProcessProposalStatus.proposed)
    × (((first out.proposals).primitive ≢ "final_contest")
        ⊎ ((open_evidence_need_ids objects ≡ [])
            × (repair_targets frontier objects ≡ [])
            × Settles objects frontier))
suggest_adaptive_primitive_proposals-IsSuggested_example =
    suggest_adaptive_primitive_proposals-IsSuggested hash_of new_run empty_store none out
      (first out.proposals) done one
