-- ===== src/Core/FinalOutcome/Total.antt =====
-- compileOutcome of packages/core/src/final-outcome.ts on a stored session.
use deliberum.Prelude.{String, ◌≡◌, refl, ap, false, Option, some, ◌==◌}
use deliberum.Errors.{ok, map_ok}
use deliberum.Protocol.Events.{EventEnvelope}
use deliberum.Storage.Memory.{InMemoryEventStore, get_session_events, list_events}
use deliberum.Storage.Memory.Consistent.{IsConsistent}
use deliberum.Storage.Chain.{sort-Numbered}
use deliberum.Core.Projections.{
  from_store, filter_events, resolve_projection_events, states_of, accepted_objects_of, frontier_of,
  AcceptedDeliberationObjectsProjection, project_extraction_proposal_states,
  project_candidate_frontier, project_accepted_deliberation_objects, extraction_proposed,
  proposal_challenged, proposal_accepted, project_event, States,
}
use deliberum.Core.Projections.States.{filter-Numbered, resolve-from_store}
use deliberum.Core.FinalOutcome.Outcome.{
  ResolvedOutcomeEvents, FinalProposalEvent, resolve_outcome_events, projection_input,
  get_valid_final_candidate_proposal_events, select_final_candidate_proposal_event,
}
use deliberum.Core.FinalOutcome.Compile.{outcome_of, compile_resolved, compile_outcome}

module _ (digest : EventEnvelope → String) (s : InMemoryEventStore) (sid : String)
    (consistent : IsConsistent digest s) (named : (sid == "") ≡ false) where
  -- What compileOutcome reads of the session.
  abbrev pub session : ResolvedOutcomeEvents
  session = record { events = list_events s sid; session_id = some sid }

  pub resolve_outcome-from_store : resolve_outcome_events (from_store s sid) ≡ ok session
  unfolding resolve_outcome_events list_events
  resolve_outcome-from_store =
      ap (λ l. ok (record { events = l; session_id = some sid }))
        (sort-Numbered sid 0 (get_session_events s sid) (consistent.numbered sid))

  resolve-session : resolve_projection_events (projection_input session) ≡ ok (list_events s sid)
  unfolding projection_input resolve_projection_events filter_events list_events
  resolve-session =
      rw (named, named, filter-Numbered sid 0 (get_session_events s sid) (consistent.numbered sid))
        (ap ok (sort-Numbered sid 0 (get_session_events s sid) (consistent.numbered sid)))

  abbrev pub objects : AcceptedDeliberationObjectsProjection
  objects = accepted_objects_of (states_of (list_events s sid))

  pub project_objects-session :
      project_accepted_deliberation_objects (projection_input session) ≡ ok objects
  unfolding project_accepted_deliberation_objects project_extraction_proposal_states
  project_objects-session = rw (resolve-session, map_ok) refl

  pub project_frontier-session :
      project_candidate_frontier (projection_input session) ≡ ok (frontier_of objects)
  unfolding project_candidate_frontier
  project_frontier-session = rw (project_objects-session, map_ok) refl

  pub project_objects-from_store :
      project_accepted_deliberation_objects (from_store s sid) ≡ ok objects
  unfolding project_accepted_deliberation_objects project_extraction_proposal_states
  project_objects-from_store = rw (resolve-from_store digest s sid consistent named, map_ok) refl

  pub compile_selected :
      (final_id : Option String) (selected : Option FinalProposalEvent)
      → select_final_candidate_proposal_event
          (get_valid_final_candidate_proposal_events (list_events s sid))
          final_id
        ≡ ok selected
      → compile_outcome
          (record { events = from_store s sid; final_candidate_proposal_event_id = final_id })
        ≡ ok (outcome_of (list_events s sid) objects (frontier_of objects) selected)
  unfolding compile_outcome compile_resolved
  compile_selected final_id selected chosen =
      rw (resolve_outcome-from_store, project_objects-session, project_frontier-session, chosen)
        refl

-- An event of another type leaves the proposal states as they are.
pub project_event-other :
    (m : States) (e : EventEnvelope)
    → (e.type == extraction_proposed) ≡ false
    → (e.type == proposal_challenged) ≡ false
    → (e.type == proposal_accepted) ≡ false
    → project_event m e ≡ m
unfolding project_event
project_event-other m e a b c = rw (a, b, c) refl
