-- ===== src/Tests/Proposals.antt =====
-- Proposals that are made, challenged and accepted.
use deliberum.Prelude.{
  ◌+◌, ◌≡◌, ◌≢◌, refl, ◌↔◌, true, false, none, some, [], ◌∷◌, ◌++◌, In, eq_iff, to_set,
}
use deliberum.Errors.{Result, ok, err, invalid_event_input}
use deliberum.Protocol.Common.{non_empty_string}
use deliberum.Protocol.Deliberation.{Candidate, CandidateStatus}
use deliberum.Protocol.Proposals.{ExtractionProposal, ProcessProposalStatus, SemanticProposalStatus}
use deliberum.Protocol.Events.{
  AppendEventInput, EventEnvelope, extraction_proposal, proposal_acceptance, process_proposal,
}
use deliberum.Storage.Memory.{InMemoryEventStore, empty_store, append_event_result, list_events}
use deliberum.Storage.Memory.Consistent.{IsConsistent, IsConsistent-empty}
use deliberum.Storage.Memory.Preserve.{append_event_result-IsConsistent}
use deliberum.Core.World.{World, start, assert_options, append}
use deliberum.Core.Projections.{
  project_accepted_deliberation_objects, resolve_projection_events, filter_events,
  reject_mixed_session_events, ProjectionInput, from_store, from_events,
  ExtractionProposalStatesProjection, ExtractionProposalState, Derived, CandidateFrontierProjection,
  new_state, project_extraction_proposal_states, project_candidate_frontier,
  safe_parse_extraction_proposal,
}
use deliberum.Core.Projections.Lifecycle.{after_events}
use deliberum.Core.Projections.States.{project_extraction_proposal_states-later}
use deliberum.Core.Projections.Frontier.{Stands, project_candidate_frontier_iff}
use deliberum.Core.ProcessProposals.{
  ProposeProcessProposalInput, ChallengeProcessProposalInput, propose_process_proposal,
  challenge_process_proposal, proposed_input, challenged_input, parse_proposed_process_proposal,
  parse_process_proposal_challenge_payload, assert_basis_events_exist,
  get_target_process_proposal_event,
}
use deliberum.Core.ProcessProposals.Retry.{propose_process_proposal_retry}
use deliberum.Core.ProcessProposals.Conflict.{challenge_process_proposal_retry}
use deliberum.Core.ExtractionProposals.{
  AcceptProposalInput, accept_proposal, accepted_input, get_target_extraction_proposal_event,
  parse_proposal_acceptance_payload,
}
use deliberum.Core.ExtractionProposals.Shown.{accept_proposal-shown}
use deliberum.Core.ExtractionProposals.Again.{accept_proposal_retry}
use deliberum.Tests.Scenario.{host, note, result_of}

abbrev candidate : Candidate
candidate = record {
  id = "c";
  title = "plan";
  description = "do it";
  source_event_ids = "e" ∷ [];
  status = CandidateStatus.active;
  supported_by = [];
  attacked_by = [];
  quality_obligation_ids = [];
  assumptions = [];
  tradeoffs = [];
  applicable_when = none;
}

abbrev proposal : ExtractionProposal
proposal = record {
  id = "x";
  source_event_ids = "e" ∷ [];
  candidates = candidate ∷ [];
  claims = [];
  objections = [];
  evidence_needs = [];
  quality_obligations = [];
  rationale = "read";
  status = SemanticProposalStatus.proposed;
}

abbrev proposes : AppendEventInput
proposes = record (note "p" none) {
  type = "extraction_proposed";
  payload = extraction_proposal proposal;
}

abbrev accepts : AppendEventInput
accepts = record (note "a" none) {
  type = "proposal_accepted";
  payload =
      proposal_acceptance
        (record { id = "y"; target_proposal_event_id = "p"; rationale = "agreed" });
}

abbrev one : InMemoryEventStore
one = (append_event_result host proposes empty_store).1

abbrev two : InMemoryEventStore
two = (append_event_result host accepts one).1

abbrev proposed_event : EventEnvelope
proposed_event = (result_of (append_event_result host proposes empty_store).0).event

abbrev accepted_event : EventEnvelope
accepted_event = (result_of (append_event_result host accepts one).0).event

two-IsConsistent : IsConsistent host.digest two
two-IsConsistent =
    append_event_result-IsConsistent host accepts one
      (append_event_result-IsConsistent host proposes empty_store (IsConsistent-empty host.digest))

listed : list_events two "s" ≡ [] ++ proposed_event ∷ accepted_event ∷ []
unfolding list_events append_event_result
listed = refl

named : proposed_event.type ≡ "extraction_proposed"
unfolding append_event_result
named = refl

parsed : safe_parse_extraction_proposal proposed_event.payload ≡ some proposal
unfolding append_event_result safe_parse_extraction_proposal
parsed = refl

project_extraction_proposal_states-later_example :
    (r : ExtractionProposalStatesProjection) × (project_extraction_proposal_states
        (from_store two "s")
      ≡ ok r)
    × In
        (after_events proposed_event.id (new_state proposed_event proposal) (accepted_event ∷ []))
        r.proposal_states
project_extraction_proposal_states-later_example =
    project_extraction_proposal_states-later host.digest two "s" [] proposed_event
      (accepted_event ∷ []) proposal two-IsConsistent refl listed named parsed

abbrev frontier : Result CandidateFrontierProjection → CandidateFrontierProjection
frontier (ok r) = r
frontier (err e) = record {
  candidates = [];
  projection = record { event_range = none; event_ids = [] };
}

abbrev both : ProjectionInput
both = from_events (proposed_event ∷ accepted_event ∷ []) none

projects : project_candidate_frontier both ≡ ok (frontier (project_candidate_frontier both))
unfolding project_candidate_frontier project_accepted_deliberation_objects
    project_extraction_proposal_states resolve_projection_events filter_events
    reject_mixed_session_events to_set append_event_result
projects = refl

project_candidate_frontier_iff_example :
    (p : ExtractionProposalStatesProjection) × (project_extraction_proposal_states both ≡ ok p)
    × ((d : Derived Candidate)
        → In d (frontier (project_candidate_frontier both)).candidates ↔ Stands p d)
project_candidate_frontier_iff_example =
    project_candidate_frontier_iff both (frontier (project_candidate_frontier both)) projects

abbrev propose_input : ProposeProcessProposalInput
propose_input = record {
  session_id = "s";
  author_id = "ann";
  proposal = process_proposal (record {
    id = "x";
    primitive = "contest";
    target_ids = [];
    expected_quality_gain = "more";
    risk_if_skipped = "less";
    requested_budget = none;
    status = ProcessProposalStatus.proposed;
  });
  based_on_event_ids = none;
  idempotency_key = some "k";
}

abbrev challenge_input : ChallengeProcessProposalInput
challenge_input = record {
  session_id = "s";
  target_process_proposal_event_id = "i";
  author_id = "bob";
  reason = "too dear";
  idempotency_key = some "c";
}

abbrev proposal_made : World
proposal_made = (propose_process_proposal host propose_input start).1

proposes_well :
    (propose_process_proposal host propose_input start).0
    ≡ ok (result_of (propose_process_proposal host propose_input start).0)
unfolding propose_process_proposal assert_options parse_proposed_process_proposal
    assert_basis_events_exist append append_event_result proposed_input
proposes_well = refl

propose_process_proposal_retry_example :
    ((propose_process_proposal host propose_input
        (propose_process_proposal host propose_input start).1).0
      ≡ ok (record {
        event = (result_of (propose_process_proposal host propose_input start).0).event;
        appended = false;
      }))
    × ((propose_process_proposal host propose_input
          (propose_process_proposal host propose_input start).1).1.store
        ≡ (propose_process_proposal host propose_input start).1.store)
propose_process_proposal_retry_example =
    propose_process_proposal_retry host propose_input start
      (result_of (propose_process_proposal host propose_input start).0) "k" proposes_well refl refl

challenges_well :
    (challenge_process_proposal host challenge_input proposal_made).0
    ≡ ok (result_of (challenge_process_proposal host challenge_input proposal_made).0)
unfolding propose_process_proposal assert_options parse_proposed_process_proposal
    assert_basis_events_exist append append_event_result proposed_input challenge_process_proposal
    get_target_process_proposal_event parse_process_proposal_challenge_payload challenged_input
challenges_well = refl

filled : non_empty_string (host.id_generator (proposal_made.id_calls + 1 + 1)) ≡ true
unfolding non_empty_string propose_process_proposal assert_options parse_proposed_process_proposal
    assert_basis_events_exist append append_event_result proposed_input
filled = refl

other_id :
    host.id_generator proposal_made.id_calls ≢ host.id_generator (proposal_made.id_calls + 1 + 1)
unfolding propose_process_proposal assert_options parse_proposed_process_proposal
    assert_basis_events_exist append append_event_result proposed_input
other_id q = cc ((eq_iff "ii" "iiii").1 q)

challenge_process_proposal_retry_example :
    (challenge_process_proposal host challenge_input
      (challenge_process_proposal host challenge_input proposal_made).1).0
    ≡ err invalid_event_input
challenge_process_proposal_retry_example =
    challenge_process_proposal_retry host challenge_input proposal_made
      (result_of (challenge_process_proposal host challenge_input proposal_made).0) "c"
      challenges_well refl refl filled other_id

abbrev accept_input : AcceptProposalInput
accept_input = record {
  session_id = "s";
  target_proposal_event_id = "p";
  author_id = "bob";
  rationale = "agreed";
  idempotency_key = some "k";
}

abbrev one_proposal : World
one_proposal = record { store = one; id_calls = 0; clock_calls = 0 }

accepts_well :
    (accept_proposal host accept_input one_proposal).0
    ≡ ok (result_of (accept_proposal host accept_input one_proposal).0)
unfolding accept_proposal assert_options append append_event_result accepted_input
    get_target_extraction_proposal_event parse_proposal_acceptance_payload
accepts_well = refl

accepts_new : (result_of (accept_proposal host accept_input one_proposal).0).appended ≡ true
unfolding accept_proposal assert_options append append_event_result accepted_input
    get_target_extraction_proposal_event parse_proposal_acceptance_payload
accepts_new = refl

accept_proposal-shown_example :
    (p : ExtractionProposalStatesProjection) × (st : ExtractionProposalState)
    × (project_extraction_proposal_states
          (from_store (accept_proposal host accept_input one_proposal).1.store "s")
        ≡ ok p)
    × In st p.proposal_states
    × (st.proposal_event_id ≡ "p")
    × (st.is_accepted_for_now ≡ true)
    × In
        (result_of (accept_proposal host accept_input one_proposal).0).event.id
        st.acceptance_event_ids
accept_proposal-shown_example =
    accept_proposal-shown host accept_input one_proposal
      (result_of (accept_proposal host accept_input one_proposal).0)
      (append_event_result-IsConsistent host proposes empty_store (IsConsistent-empty host.digest))
      refl accepts_well accepts_new

filled_again : non_empty_string (host.id_generator (one_proposal.id_calls + 1 + 1)) ≡ true
unfolding non_empty_string
filled_again = refl

accept_proposal_retry_example :
    ((accept_proposal host accept_input (accept_proposal host accept_input one_proposal).1).0
      ≡ ok (record {
        event = (result_of (accept_proposal host accept_input one_proposal).0).event;
        appended = false;
      }))
    × ((accept_proposal host accept_input
          (accept_proposal host accept_input one_proposal).1).1.store
        ≡ (accept_proposal host accept_input one_proposal).1.store)
accept_proposal_retry_example =
    accept_proposal_retry host accept_input one_proposal
      (result_of (accept_proposal host accept_input one_proposal).0) "k" accepts_well refl refl
      filled_again
