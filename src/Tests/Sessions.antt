-- ===== src/Tests/Sessions.antt =====
-- A session that is created, and a process proposal that is decided twice.
use deliberum.Prelude.{String, ◌≡◌, refl, none, some, List, [], ◌∷◌, ◌++◌, In, length}
use deliberum.Errors.{Result, ok, err}
use deliberum.Protocol.Common.{end}
use deliberum.Protocol.Core.{TopicContract}
use deliberum.Protocol.Proposals.{
  ProcessProposal, ProcessProposalStatus, ProcessProposalDecisionStatus,
}
use deliberum.Protocol.Events.{
  AppendEventInput, EventEnvelope, topic_contract, process_proposal, process_proposal_decision,
}
use deliberum.Storage.Memory.{InMemoryEventStore, empty_store, append_event_result, list_events}
use deliberum.Storage.Memory.Consistent.{IsConsistent, IsConsistent-empty}
use deliberum.Storage.Memory.Preserve.{append_event_result-IsConsistent}
use deliberum.Core.World.{start, assert_options, append}
use deliberum.Core.Session.{
  CreateSessionInput, CreateSessionResult, parse_topic_contract, published_input, create_session,
}
use deliberum.Core.Session.Published.{create_session-publishes}
use deliberum.Core.Projections.{from_store}
use deliberum.Core.ProcessProposals.{safe_parse_process_proposal, safe_parse_process_decision}
use deliberum.Core.ProcessProposals.States.{
  ProcessProposalState, new_process_state, decided_status, project_process_proposal_states,
}
use deliberum.Core.ProcessProposals.Lifecycle.{
  after_process_events, last_verdict, verdict, process_challenges, process_decision, decision_on,
}
use deliberum.Core.ProcessProposals.Latest.{project_process_proposal_states-later}
use deliberum.Tests.Scenario.{host, note, result_of, no_event}

abbrev contract : TopicContract
contract = record {
  id = "t";
  title = "plan";
  topic = "what to do";
  goals = [];
  constraints = [];
  output_expectations = [];
  participant_ids = [];
  allowed_adapters = [];
  budget_lease = record {
    max_events = none;
    max_provider_calls = none;
    max_estimated_cost_cents = none;
    max_run_seconds = none;
    participant_timeout_ms = none;
    overall_timeout_ms = none;
    extra = end;
  };
  governance_rules = [];
  resource_policy = none;
}

abbrev session_input : CreateSessionInput
session_input = record { topic_contract = some contract }

abbrev created_or : Result CreateSessionResult → CreateSessionResult
created_or (ok r) = r
created_or (err e) = record { session_id = ""; initial_event = no_event }

abbrev created : CreateSessionResult
created = created_or (create_session host session_input start).0

creates_well : (create_session host session_input start).0 ≡ ok created
unfolding create_session assert_options parse_topic_contract append append_event_result
    published_input
creates_well = refl

create_session-publishes_example :
    (c : TopicContract) × (some contract ≡ some c)
    × (created.session_id ≡ "i")
    × (created.initial_event.payload ≡ topic_contract c)
    × (created.initial_event.sequence ≡ length (list_events start.store created.session_id))
    × (list_events (create_session host session_input start).1.store created.session_id
        ≡ list_events start.store created.session_id ++ created.initial_event ∷ [])
create_session-publishes_example =
    create_session-publishes host session_input start created (IsConsistent-empty host.digest)
      creates_well

abbrev step : ProcessProposal
step = record {
  id = "x";
  primitive = "contest";
  target_ids = [];
  expected_quality_gain = "more";
  risk_if_skipped = "less";
  requested_budget = none;
  status = ProcessProposalStatus.proposed;
}

abbrev proposes : AppendEventInput
proposes = record (note "p" none) {
  type = "process_proposal_proposed";
  payload = process_proposal step;
}

abbrev decides : String → ProcessProposalDecisionStatus → AppendEventInput
decides id status = record (note id none) {
  type = "process_proposal_decided";
  payload = process_proposal_decision (record {
    id = id;
    target_process_proposal_event_id = "p";
    rationale = "said so";
    status = status;
  });
}

abbrev one : InMemoryEventStore
one = (append_event_result host proposes empty_store).1

abbrev defers : AppendEventInput
defers = decides "d" ProcessProposalDecisionStatus.deferred

abbrev two : InMemoryEventStore
two = (append_event_result host defers one).1

abbrev rejects : AppendEventInput
rejects = decides "r" ProcessProposalDecisionStatus.rejected

abbrev three : InMemoryEventStore
three = (append_event_result host rejects two).1

abbrev proposed_event : EventEnvelope
proposed_event = (result_of (append_event_result host proposes empty_store).0).event

abbrev later_events : List EventEnvelope
later_events =
    (result_of (append_event_result host defers one).0).event
    ∷ (result_of (append_event_result host rejects two).0).event
    ∷ []

three-IsConsistent : IsConsistent host.digest three
three-IsConsistent = append_event_result-IsConsistent host rejects two (
    append_event_result-IsConsistent host defers one
      (append_event_result-IsConsistent host proposes empty_store (IsConsistent-empty host.digest)))

listed : list_events three "s" ≡ [] ++ proposed_event ∷ later_events
unfolding list_events append_event_result
listed = refl

named : proposed_event.type ≡ "process_proposal_proposed"
unfolding append_event_result
named = refl

parsed : safe_parse_process_proposal proposed_event.payload ≡ some step
unfolding append_event_result safe_parse_process_proposal
parsed = refl

abbrev final_state : ProcessProposalState
final_state =
    after_process_events proposed_event.id (new_process_state proposed_event step) later_events

-- The second decision is the status.
rejected_last : final_state.latest_status ≡ ProcessProposalStatus.rejected
unfolding append_event_result after_process_events last_verdict verdict process_challenges
    process_decision decision_on safe_parse_process_decision decided_status
rejected_last = refl

project_process_proposal_states-later_example :
    In
      (after_process_events proposed_event.id (new_process_state proposed_event step) later_events)
      (project_process_proposal_states (from_store three "s")).proposal_states
project_process_proposal_states-later_example =
    project_process_proposal_states-later host.digest three "s" [] proposed_event later_events step
      three-IsConsistent listed named parsed
