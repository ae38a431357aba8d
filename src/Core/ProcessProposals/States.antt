-- ===== src/Core/ProcessProposals/States.antt =====
-- `projectProcessProposalStates` of packages/core/src/process-proposals.ts.
use deliberum.Prelude.{
  ℕ, String, Option, none, some, List, [], ◌∷◌, ◌++◌, map, ◌==◌, if◌then◌else◌, Map, get, set,
  filter, sort_by,
}
use deliberum.Protocol.Proposals.{
  ProcessProposal, ProcessProposalStatus, ProcessProposalChallengePayload,
  ProcessProposalDecisionPayload, ProcessProposalDecisionStatus,
}
use deliberum.Protocol.Events.{EventEnvelope}
use deliberum.Storage.Memory.{list_events}
use deliberum.Storage.Integrity.{sort_events}
use deliberum.Core.Projections.{
  ProjectionInput, from_store, from_events, ProjectionMetadata, create_projection_metadata,
}
use deliberum.Core.ProcessProposals.{
  safe_parse_process_proposal, safe_parse_process_challenge, safe_parse_process_decision,
  process_proposal_proposed, process_proposal_challenged, process_proposal_decided,
}

pub record ProcessProposalState : Type 0 where
  pub proposal_event_id : String
  pub proposal_id : String
  pub session_id : String
  pub sequence : ℕ
  pub proposal : ProcessProposal
  pub challenge_event_ids : List String
  pub decision_event_ids : List String
  pub latest_status : ProcessProposalStatus

pub record ProcessProposalStatesProjection : Type 0 where
  pub proposal_states : List ProcessProposalState
  pub projection : ProjectionMetadata

-- A decision's status is one of the proposal's.
unfoldable pub decided_status : ProcessProposalDecisionStatus → ProcessProposalStatus
decided_status ProcessProposalDecisionStatus.accepted = ProcessProposalStatus.accepted
decided_status ProcessProposalDecisionStatus.deferred = ProcessProposalStatus.deferred
decided_status ProcessProposalDecisionStatus.rejected = ProcessProposalStatus.rejected

abbrev pub ProcessStates : Type 0
ProcessStates = Map ProcessProposalState

abbrev pub new_process_state : EventEnvelope → ProcessProposal → ProcessProposalState
new_process_state e p = record {
  proposal_event_id = e.id;
  proposal_id = p.id;
  session_id = e.session_id;
  sequence = e.sequence;
  proposal = p;
  challenge_event_ids = [];
  decision_event_ids = [];
  latest_status = p.status;
}

abbrev pub challenge_process_state : EventEnvelope → ProcessProposalState → ProcessProposalState
challenge_process_state e st = record st {
  challenge_event_ids = st.challenge_event_ids ++ e.id ∷ [];
  latest_status = ProcessProposalStatus.challenged;
}

unfoldable pub decide_process_state :
    ProcessProposalDecisionStatus → EventEnvelope → ProcessProposalState → ProcessProposalState
unfolding decided_status
decide_process_state status e st = record st {
  decision_event_ids = st.decision_event_ids ++ e.id ∷ [];
  latest_status = decided_status status;
}

-- A lifecycle event changes its target if that is there and of the same session.
unfoldable pub affect_process :
    (EventEnvelope → ProcessProposalState → ProcessProposalState)
    → EventEnvelope
    → String
    → ProcessStates
    → ProcessStates
affect_process change e target m = elim (get m target) [
  | none ↦ m
  | some st ↦ if st.session_id == e.session_id then set m target (change e st) else m
]

unfoldable pub record_process_proposal :
    EventEnvelope → Option ProcessProposal → ProcessStates → ProcessStates
record_process_proposal e none m = m
record_process_proposal e (some p) m = set m e.id (new_process_state e p)

unfoldable pub record_process_challenge :
    EventEnvelope → Option ProcessProposalChallengePayload → ProcessStates → ProcessStates
record_process_challenge e none m = m
record_process_challenge e (some c) m =
    affect_process challenge_process_state e c.target_process_proposal_event_id m

unfoldable pub record_process_decision :
    EventEnvelope → Option ProcessProposalDecisionPayload → ProcessStates → ProcessStates
record_process_decision e none m = m
record_process_decision e (some d) m =
    affect_process (decide_process_state d.status) e d.target_process_proposal_event_id m

-- One round of the loop over the events.
unfoldable pub project_process_event : ProcessStates → EventEnvelope → ProcessStates
project_process_event m e =
    if e.type == process_proposal_proposed
    then record_process_proposal e (safe_parse_process_proposal e.payload) m
    else if e.type == process_proposal_challenged
    then record_process_challenge e (safe_parse_process_challenge e.payload) m
    else if e.type == process_proposal_decided
    then record_process_decision e (safe_parse_process_decision e.payload) m
    else m

unfoldable pub project_process_events : ProcessStates → List EventEnvelope → ProcessStates
project_process_events m [] = m
project_process_events m (e ∷ es) = project_process_events (project_process_event m e) es

-- A missing or empty session id keeps every event.
unfoldable pub keep_session : Option String → List EventEnvelope → List EventEnvelope
keep_session none events = events
keep_session (some sid) events =
    if sid == "" then events else filter (λ e. e.session_id == sid) events

unfoldable pub resolve_process_events : ProjectionInput → List EventEnvelope
unfolding keep_session
resolve_process_events (from_store s sid) = sort_events (list_events s sid)
resolve_process_events (from_events events sid) = sort_events (keep_session sid events)

unfoldable pub process_states_of : List EventEnvelope → ProcessProposalStatesProjection
process_states_of events = record {
  proposal_states = sort_by (λ st. st.sequence) (map (λ p. p.1) (project_process_events [] events));
  projection = create_projection_metadata events;
}

unfoldable pub project_process_proposal_states : ProjectionInput → ProcessProposalStatesProjection
project_process_proposal_states input = process_states_of (resolve_process_events input)
