-- ===== src/Core/ProcessProposals.antt =====
-- packages/core/src/process-proposals.ts: proposing a process step, challenging and deciding it.
-- The results of the three operations are the store's: the event and whether it was appended.
pub mod Latest
pub mod Lifecycle
pub mod Keeps
pub mod Retry
pub mod Conflict
pub mod States
use deliberum.Prelude.{
  ℕ, zero, suc, ◌+◌, ◌-◌, ◌≤◌, ◌<◌, max, String, ◌+++◌, ◌≡◌, refl, sym, ap, ◌∙◌, ◌≢◌, ◌↔◌, ◌⊎◌, inl,
  inr, Bool, true, false, ◌&&◌, ◌||◌, not, Option, none, some, List, [], ◌∷◌, ◌++◌, map, arith,
  eq_iff, eq_refl, ltb, leb, nat_eq, ◌==◌, if◌then◌else◌, ltb→lt, leb→le, Bool-cases, Option-cases,
  String_discrete, ℕ_discrete, length, length-append, Map, get, set, get-set, get_or, filter, find,
  any, all, contains, get_last?, add_to_set, to_set, insert_by, sort_by, Never, In, In-append_left,
  In-append_last, In-append_one, In-filter, In-filter_intro, filter-append, get_last?-append_one,
  contains→In, In→contains, Distinct, Distinct-append_one, to_set-Distinct, In-to_set, all→In,
  In→all, Distinct-length-le,
}
use deliberum.Errors.{
  Error, Result, ok, err, Exec, ◌>>=◌, ◌>>◌, pure, lift, require, map_ok,
  invalid_process_proposal_input, process_proposal_event_not_found, invalid_process_proposal_target,
  process_proposal_basis_event_not_found,
}
use deliberum.Protocol.Proposals.{
  ProcessProposal, ProcessProposalStatus, ProcessProposalChallengePayload,
  ProcessProposalDecisionPayload, ProcessProposalDecisionStatus, process_proposal_schema,
  process_proposal_challenge_payload_schema, process_proposal_decision_payload_schema,
}
use deliberum.Protocol.Events.{
  AppendEventInput, EventEnvelope, Payload, empty_trace, public, process_proposal,
  process_proposal_challenge, process_proposal_decision,
}
use deliberum.Protocol.Host.{Host}
use deliberum.Storage.Memory.{InMemoryEventStore, AppendEventResult, get_event, list_events}
use deliberum.Storage.Integrity.{sort_events}
use deliberum.Core.World.{World, next_id, get_clock, get_schema_version, assert_options, append}
use deliberum.Core.Projections.{
  ProjectionInput, from_store, from_events, ProjectionMetadata, create_projection_metadata,
}

abbrev pub process_proposal_proposed : String
process_proposal_proposed = "process_proposal_proposed"

abbrev pub process_proposal_challenged : String
process_proposal_challenged = "process_proposal_challenged"

abbrev pub process_proposal_decided : String
process_proposal_decided = "process_proposal_decided"

pub record ProposeProcessProposalInput : Type 0 where
  pub session_id : String
  pub author_id : String
  pub proposal : Payload
  pub based_on_event_ids : Option (List String)
  pub idempotency_key : Option String

pub record ChallengeProcessProposalInput : Type 0 where
  pub session_id : String
  pub target_process_proposal_event_id : String
  pub author_id : String
  pub reason : String
  pub idempotency_key : Option String

pub record DecideProcessProposalInput : Type 0 where
  pub session_id : String
  pub target_process_proposal_event_id : String
  pub author_id : String
  pub status : ProcessProposalDecisionStatus
  pub rationale : String
  pub idempotency_key : Option String

-- `safeParse` of the three schemas.
unfoldable pub safe_parse_process_proposal : Payload → Option ProcessProposal
unfolding process_proposal_schema
safe_parse_process_proposal (process_proposal p) =
    if process_proposal_schema p then some p else none
safe_parse_process_proposal _ = none

unfoldable pub safe_parse_process_challenge : Payload → Option ProcessProposalChallengePayload
unfolding process_proposal_challenge_payload_schema
safe_parse_process_challenge (process_proposal_challenge p) =
    if process_proposal_challenge_payload_schema p then some p else none
safe_parse_process_challenge _ = none

unfoldable pub safe_parse_process_decision : Payload → Option ProcessProposalDecisionPayload
unfolding process_proposal_decision_payload_schema
safe_parse_process_decision (process_proposal_decision p) =
    if process_proposal_decision_payload_schema p then some p else none
safe_parse_process_decision _ = none

unfoldable pub is_proposed : ProcessProposalStatus → Bool
is_proposed ProcessProposalStatus.proposed = true
is_proposed _ = false

unfoldable pub require_proposed : Option ProcessProposal → Result ProcessProposal
unfolding is_proposed
require_proposed none = err invalid_process_proposal_input
require_proposed (some p) =
    if is_proposed p.status then ok p else err invalid_process_proposal_input

unfoldable pub parse_proposed_process_proposal : Payload → Result ProcessProposal
unfolding safe_parse_process_proposal require_proposed
parse_proposed_process_proposal input = require_proposed (safe_parse_process_proposal input)

unfoldable pub parse_process_proposal_challenge_payload :
    ProcessProposalChallengePayload → Result ProcessProposalChallengePayload
unfolding process_proposal_challenge_payload_schema
parse_process_proposal_challenge_payload p =
    if process_proposal_challenge_payload_schema p then ok p else err invalid_process_proposal_input

unfoldable pub parse_process_proposal_decision_payload :
    ProcessProposalDecisionPayload → Result ProcessProposalDecisionPayload
unfolding process_proposal_decision_payload_schema
parse_process_proposal_decision_payload p =
    if process_proposal_decision_payload_schema p then ok p else err invalid_process_proposal_input

unfoldable pub normalize_basis_event_ids : List String → List String
unfolding to_set
normalize_basis_event_ids event_ids = to_set event_ids

unfoldable pub is_in_session : String → Option EventEnvelope → Bool
is_in_session session_id none = false
is_in_session session_id (some e) = e.session_id == session_id

unfoldable pub assert_basis_events_exist :
    InMemoryEventStore → String → List String → Result (Unit {0})
unfolding get_event is_in_session
assert_basis_events_exist s session_id [] = ok tt
assert_basis_events_exist s session_id (event_id ∷ event_ids) =
    let rest = assert_basis_events_exist s session_id event_ids in
    if is_in_session session_id (get_event s event_id)
    then rest
    else err (process_proposal_basis_event_not_found event_id)

unfoldable pub check_target : String → String → Option EventEnvelope → Result EventEnvelope
unfolding safe_parse_process_proposal
check_target session_id target none = err (process_proposal_event_not_found target)
check_target session_id target (some e) =
    if not (e.session_id == session_id)
    then err invalid_process_proposal_target
    else if not (e.type == process_proposal_proposed)
    then err invalid_process_proposal_target
    else elim (safe_parse_process_proposal e.payload) [
      | none ↦ err invalid_process_proposal_target
      | some _ ↦ ok e
    ]

unfoldable pub get_target_process_proposal_event :
    InMemoryEventStore → String → String → Result EventEnvelope
unfolding get_event check_target
get_target_process_proposal_event s session_id target =
    check_target session_id target (get_event s target)

abbrev pub challenge_payload :
    ChallengeProcessProposalInput → EventEnvelope → String → ProcessProposalChallengePayload
challenge_payload input target payload_id = record {
  id = payload_id;
  target_process_proposal_event_id = target.id;
  reason = input.reason;
}

abbrev pub decision_payload :
    DecideProcessProposalInput → EventEnvelope → String → ProcessProposalDecisionPayload
decision_payload input target payload_id = record {
  id = payload_id;
  target_process_proposal_event_id = target.id;
  rationale = input.rationale;
  status = input.status;
}

module _ (h : Host) where
  unfoldable pub proposed_input :
      ProposeProcessProposalInput
      → List String
      → String
      → String
      → ProcessProposal
      → AppendEventInput
  unfolding get_schema_version
  proposed_input input basis event_id created_at proposal = record {
    id = event_id;
    session_id = input.session_id;
    schema_version = get_schema_version h;
    type = process_proposal_proposed;
    author_id = input.author_id;
    created_at = created_at;
    based_on_event_ids = basis;
    batch_id = none;
    visibility = public;
    idempotency_key = input.idempotency_key;
    trace = empty_trace;
    payload = process_proposal proposal;
  }

  abbrev pub check_basis : String → List String → Exec World (Unit {0})
  check_basis session_id basis w = (assert_basis_events_exist w.store session_id basis, w)

  abbrev pub find_target : String → String → Exec World EventEnvelope
  find_target session_id target w = (get_target_process_proposal_event w.store session_id target, w)

  unfoldable pub propose_process_proposal :
      ProposeProcessProposalInput → Exec World AppendEventResult
  unfolding normalize_basis_event_ids get_or next_id get_clock
  propose_process_proposal input =
      let basis = normalize_basis_event_ids (get_or [] input.based_on_event_ids) in
      assert_options h >> lift (parse_proposed_process_proposal input.proposal) >>= λ proposal.
      check_basis input.session_id basis >> next_id h >>= λ event_id. get_clock h >>= λ created_at.
      append h (proposed_input input basis event_id created_at proposal)

  unfoldable pub challenged_input :
      ChallengeProcessProposalInput
      → EventEnvelope
      → String
      → String
      → ProcessProposalChallengePayload
      → AppendEventInput
  unfolding get_schema_version
  challenged_input input target event_id created_at payload = record {
    id = event_id;
    session_id = input.session_id;
    schema_version = get_schema_version h;
    type = process_proposal_challenged;
    author_id = input.author_id;
    created_at = created_at;
    based_on_event_ids = target.id ∷ [];
    batch_id = none;
    visibility = public;
    idempotency_key = input.idempotency_key;
    trace = empty_trace;
    payload = process_proposal_challenge payload;
  }

  unfoldable pub challenge_process_proposal :
      ChallengeProcessProposalInput → Exec World AppendEventResult
  unfolding next_id get_clock
  challenge_process_proposal input =
      assert_options h
      >> find_target input.session_id input.target_process_proposal_event_id
      >>= λ target. next_id h >>= λ payload_id.
          lift
            (parse_process_proposal_challenge_payload (challenge_payload input target payload_id))
          >>= λ payload. next_id h >>= λ event_id. get_clock h >>= λ created_at.
              append h (challenged_input input target event_id created_at payload)

  unfoldable pub decided_input :
      DecideProcessProposalInput
      → EventEnvelope
      → String
      → String
      → ProcessProposalDecisionPayload
      → AppendEventInput
  unfolding get_schema_version
  decided_input input target event_id created_at payload = record {
    id = event_id;
    session_id = input.session_id;
    schema_version = get_schema_version h;
    type = process_proposal_decided;
    author_id = input.author_id;
    created_at = created_at;
    based_on_event_ids = target.id ∷ [];
    batch_id = none;
    visibility = public;
    idempotency_key = input.idempotency_key;
    trace = empty_trace;
    payload = process_proposal_decision payload;
  }

  unfoldable pub decide_process_proposal : DecideProcessProposalInput → Exec World AppendEventResult
  unfolding next_id get_clock
  decide_process_proposal input =
      assert_options h
      >> find_target input.session_id input.target_process_proposal_event_id
      >>= λ target. next_id h >>= λ payload_id.
          lift (parse_process_proposal_decision_payload (decision_payload input target payload_id))
          >>= λ payload. next_id h >>= λ event_id. get_clock h >>= λ created_at.
              append h (decided_input input target event_id created_at payload)
