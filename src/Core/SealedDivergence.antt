-- ===== src/Core/SealedDivergence.antt =====
-- packages/core/src/sealed-divergence.ts: sealed batches are opened, contributed to and revealed.
pub mod Effect
pub mod Reveal
pub mod Contributions
pub mod History
pub mod Unique
pub mod Close
use deliberum.Prelude.{
  ℕ, zero, suc, ◌+◌, ◌-◌, ◌≤◌, ◌<◌, max, String, ◌+++◌, ◌≡◌, refl, sym, ap, ◌∙◌, ◌≢◌, ◌↔◌, ◌⊎◌, inl,
  inr, Bool, true, false, ◌&&◌, ◌||◌, not, Option, none, some, List, [], ◌∷◌, ◌++◌, map, arith,
  eq_iff, eq_refl, ltb, leb, nat_eq, ◌==◌, if◌then◌else◌, ltb→lt, leb→le, Bool-cases, Option-cases,
  String_discrete, ℕ_discrete, length, length-append, Map, get, set, get-set, get_or, filter, find,
  any, all, contains, get_last?, add_to_set, to_set, insert_by, sort_by, Never, In, In-append_left,
  In-append_last, In-append_one, In-filter, In-filter_intro, filter-append, get_last?-append_one,
}
use deliberum.Errors.{
  Error, Result, ok, err, Exec, pure, throw, lift, gets, ◌>>=◌, ◌>>◌, require, zod_error,
  invalid_sealed_batch_input, sealed_batch_not_found, sealed_batch_already_closed,
  unauthorized_sealed_contribution, duplicate_sealed_contribution, incomplete_sealed_batch,
}
use deliberum.Protocol.Common.{Json}
use deliberum.Protocol.Core.{
  SealedBatch, SealedBatchPurpose, SealedBatchRevealPolicy, all_completed, quorum, deadline, manual,
  open_status, revealed, sealed_batch_schema, is_empty,
}
use deliberum.Protocol.Events.{
  EventEnvelope, AppendEventInput, EventVisibility, public, sealed, Payload, sealed_batch, json,
  empty_trace,
}
use deliberum.Protocol.Host.{Host, Millis, millis_lt}
use deliberum.Storage.Memory.{
  InMemoryEventStore, AppendEventResult, list_events_by_batch, same_visibility,
}
use deliberum.Core.World.{World, next_id, get_clock, get_schema_version, assert_options, append}

abbrev pub sealed_batch_opened : String
sealed_batch_opened = "sealed_batch_opened"

abbrev pub sealed_contribution_submitted : String
sealed_contribution_submitted = "sealed_contribution_submitted"

abbrev pub sealed_batch_revealed : String
sealed_batch_revealed = "sealed_batch_revealed"

pub record OpenSealedBatchInput : Type 0 where
  pub session_id : String
  pub purpose : SealedBatchPurpose
  pub participant_ids : Option (List String)
  pub reveal_policy : Option SealedBatchRevealPolicy
  pub quorum_count : Option ℕ
  pub deadline_at : Option String
  pub idempotency_key : Option String

-- A payload of none is a value that `JsonValueSchema` rejects.
pub record SubmitSealedContributionInput : Type 0 where
  pub session_id : String
  pub batch_id : String
  pub author_id : String
  pub visibility : EventVisibility
  pub payload : Option Json
  pub idempotency_key : Option String

pub record CloseSealedBatchInput : Type 0 where
  pub session_id : String
  pub batch_id : String
  pub idempotency_key : Option String

pub record BatchState : Type 0 where
  pub opened_event : EventEnvelope
  pub opened_batch : SealedBatch
  pub contribution_events : List EventEnvelope

-- `SealedBatchSchema.safeParse(payload)`
unfoldable pub safe_parse_sealed_batch : (String → Bool) → Payload → Option SealedBatch
unfolding sealed_batch_schema
safe_parse_sealed_batch finite (sealed_batch b) =
    if sealed_batch_schema finite b then some b else none
safe_parse_sealed_batch finite _ = none

unfoldable pub is_contribution : EventEnvelope → Bool
unfolding same_visibility
is_contribution e = e.type == sealed_contribution_submitted && same_visibility e.visibility sealed

-- The distinct authors, in the order of their first contribution.
unfoldable pub contributed_author_ids : List EventEnvelope → List String
unfolding to_set
contributed_author_ids events = to_set (map (λ e. e.author_id) events)

unfoldable pub is_authorized : SealedBatch → String → Bool
unfolding is_empty contains
is_authorized batch author_id =
    is_empty batch.participant_ids || contains batch.participant_ids author_id

-- `input.idempotencyKey && existing.idempotencyKey === input.idempotencyKey`
unfoldable pub repeats_key : Option String → Option String → Bool
repeats_key none existing = false
repeats_key (some k) none = false
repeats_key (some k) (some j) = not (k == "") && j == k

unfoldable pub no_duplicate_contribution : List EventEnvelope → String → Option String → Bool
unfolding repeats_key
no_duplicate_contribution events author_id key =
    elim (find (λ e. e.author_id == author_id) events) [
      | none ↦ true
      | some existing ↦ repeats_key key existing.idempotency_key
    ]

-- Whether the deadline has passed; none is a time that cannot be read.
unfoldable pub deadline_passed : Option Millis → Option Millis → Option Bool
unfolding millis_lt
deadline_passed (some now) (some limit) = some (not (millis_lt now limit))
deadline_passed _ _ = none

unfoldable pub check_quorum : SealedBatch → Option ℕ → List String → Result (Unit {0})
check_quorum batch none authors = err invalid_sealed_batch_input
check_quorum batch (some quorum_count) authors =
    if ltb (length authors) quorum_count then err (incomplete_sealed_batch batch.id) else ok tt

unfoldable pub check_all_completed : SealedBatch → List String → Result (Unit {0})
unfolding is_empty all contains
check_all_completed batch authors =
    if is_empty batch.participant_ids
    then ok tt
    else if all (contains authors) batch.participant_ids
    then ok tt
    else err (incomplete_sealed_batch batch.id)

parse_json : Option Json → Result Json
parse_json none = err zod_error
parse_json (some v) = ok v

module _ (h : Host) where
  -- `Number.isFinite(Date.parse(t))`
  unfoldable pub is_timestamp : String → Bool
  is_timestamp t = elim (h.date_parse t) [ none ↦ false | some _ ↦ true ]

  unfoldable pub parse_sealed_batch : SealedBatch → Result SealedBatch
  unfolding sealed_batch_schema is_timestamp
  parse_sealed_batch b =
      if sealed_batch_schema is_timestamp b then ok b else err invalid_sealed_batch_input

  -- `getOpenBatchState` on the events of the batch.
  unfoldable pub state_of_events : String → List EventEnvelope → Result BatchState
  state_of_events batch_id events = elim (find (λ e. e.type == sealed_batch_opened) events) [
    | none ↦ err (sealed_batch_not_found batch_id)
    | some opened ↦ elim (safe_parse_sealed_batch is_timestamp opened.payload) [
      | none ↦ err invalid_sealed_batch_input
      | some batch ↦ elim (find (λ e. e.type == sealed_batch_revealed) events) [
        | some _ ↦ err (sealed_batch_already_closed batch_id)
        | none ↦ ok (record {
          opened_event = opened;
          opened_batch = batch;
          contribution_events = filter is_contribution events;
        })
      ]
    ]
  ]

  unfoldable pub get_open_batch_state : InMemoryEventStore → String → String → Result BatchState
  get_open_batch_state s session_id batch_id =
      state_of_events batch_id (list_events_by_batch s session_id batch_id)

  abbrev pub read_state : String → String → Exec World BatchState
  read_state session_id batch_id w = (get_open_batch_state w.store session_id batch_id, w)

  unfoldable pub check_deadline : SealedBatch → Option String → String → Result (Unit {0})
  unfolding deadline_passed
  check_deadline batch none revealed_at = err invalid_sealed_batch_input
  check_deadline batch (some deadline_at) revealed_at =
      elim (deadline_passed (h.date_parse revealed_at) (h.date_parse deadline_at)) [
        | none ↦ err invalid_sealed_batch_input
        | some passed ↦ if passed then ok tt else err (incomplete_sealed_batch batch.id)
      ]

  unfoldable pub check_policy :
      SealedBatchRevealPolicy → SealedBatch → List EventEnvelope → String → Result (Unit {0})
  unfolding contributed_author_ids check_quorum check_deadline check_all_completed
  check_policy manual batch events revealed_at = ok tt
  check_policy quorum batch events revealed_at =
      check_quorum batch batch.quorum_count (contributed_author_ids events)
  check_policy deadline batch events revealed_at =
      check_deadline batch batch.deadline_at revealed_at
  check_policy all_completed batch events revealed_at =
      check_all_completed batch (contributed_author_ids events)

  unfoldable pub assert_reveal_policy_can_close :
      SealedBatch → List EventEnvelope → String → Result (Unit {0})
  unfolding check_policy
  assert_reveal_policy_can_close batch events revealed_at =
      check_policy batch.reveal_policy batch events revealed_at

  unfoldable pub opened_input :
      OpenSealedBatchInput → String → String → String → SealedBatch → AppendEventInput
  unfolding get_schema_version
  opened_input input batch_id event_id opened_at batch = record {
    id = event_id;
    session_id = input.session_id;
    schema_version = get_schema_version h;
    type = sealed_batch_opened;
    author_id = "system";
    created_at = opened_at;
    based_on_event_ids = [];
    batch_id = some batch_id;
    visibility = public;
    idempotency_key = input.idempotency_key;
    trace = empty_trace;
    payload = sealed_batch batch;
  }

  -- The batch that `openSealedBatch` asks the schema to parse.
  unfoldable pub batch_to_open : OpenSealedBatchInput → String → String → SealedBatch
  unfolding get_or
  batch_to_open input batch_id opened_at = record {
    id = batch_id;
    session_id = input.session_id;
    purpose = input.purpose;
    status = open_status;
    participant_ids = get_or [] input.participant_ids;
    opened_at = opened_at;
    revealed_at = none;
    reveal_policy = get_or all_completed input.reveal_policy;
    quorum_count = input.quorum_count;
    deadline_at = input.deadline_at;
  }

  unfoldable pub open_sealed_batch : OpenSealedBatchInput → Exec World AppendEventResult
  unfolding next_id get_clock
  open_sealed_batch input = assert_options h >> next_id h >>= λ batch_id. next_id h >>= λ event_id.
      get_clock h >>= λ opened_at.
      lift (parse_sealed_batch (batch_to_open input batch_id opened_at)) >>= λ batch.
      append h (opened_input input batch_id event_id opened_at batch)

  unfoldable pub contribution_input :
      SubmitSealedContributionInput → BatchState → String → String → Json → AppendEventInput
  unfolding get_schema_version
  contribution_input input state event_id created_at payload = record {
    id = event_id;
    session_id = input.session_id;
    schema_version = get_schema_version h;
    type = sealed_contribution_submitted;
    author_id = input.author_id;
    created_at = created_at;
    based_on_event_ids = state.opened_event.id ∷ [];
    batch_id = some input.batch_id;
    visibility = sealed;
    idempotency_key = input.idempotency_key;
    trace = empty_trace;
    payload = json payload;
  }

  unfoldable pub submit_sealed_contribution :
      SubmitSealedContributionInput → Exec World AppendEventResult
  unfolding parse_json next_id get_clock
  submit_sealed_contribution input =
      assert_options h
      >> require (same_visibility input.visibility sealed) invalid_sealed_batch_input
      >> require (not (input.author_id == "system")) invalid_sealed_batch_input
      >> read_state input.session_id input.batch_id
      >>= λ state.
          require (is_authorized state.opened_batch input.author_id)
            (unauthorized_sealed_contribution input.author_id)
          >> require
              (no_duplicate_contribution state.contribution_events input.author_id
                input.idempotency_key)
              (duplicate_sealed_contribution input.author_id)
          >> lift (parse_json input.payload)
          >>= λ payload. next_id h >>= λ event_id. get_clock h >>= λ created_at.
              append h (contribution_input input state event_id created_at payload)

  unfoldable pub reveal_input :
      CloseSealedBatchInput → BatchState → String → String → SealedBatch → AppendEventInput
  unfolding get_schema_version
  reveal_input input state event_id revealed_at batch = record {
    id = event_id;
    session_id = input.session_id;
    schema_version = get_schema_version h;
    type = sealed_batch_revealed;
    author_id = "system";
    created_at = revealed_at;
    based_on_event_ids = state.opened_event.id ∷ map (λ e. e.id) state.contribution_events;
    batch_id = some input.batch_id;
    visibility = public;
    idempotency_key = input.idempotency_key;
    trace = empty_trace;
    payload = sealed_batch batch;
  }

  unfoldable pub close_sealed_batch : CloseSealedBatchInput → Exec World AppendEventResult
  unfolding next_id get_clock
  close_sealed_batch input =
      assert_options h >> read_state input.session_id input.batch_id >>= λ state.
      get_clock h >>= λ revealed_at.
      lift (assert_reveal_policy_can_close state.opened_batch state.contribution_events revealed_at)
      >> lift (
          parse_sealed_batch
            (record state.opened_batch { status = revealed; revealed_at = some revealed_at }))
      >>= λ batch.
          next_id h >>= λ event_id. append h (reveal_input input state event_id revealed_at batch)
