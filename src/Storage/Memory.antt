-- ===== src/Storage/Memory.antt =====
-- packages/storage/src/in-memory-event-store.ts: the store, its four maps and its operations.
pub mod Outcome
pub mod Effect
pub mod Consistent
pub mod Preserve
pub mod Append
pub mod Log
pub mod Simulate
pub mod Refinement
use deliberum.Prelude.{
  ℕ, ◌+◌, String, ◌+++◌, Bool, true, false, ◌&&◌, not, Option, none, some, List, [], ◌∷◌, ◌++◌, ltb,
  leb, ◌==◌, if◌then◌else◌, Map, get, set, get_or, filter, get_last?,
}
use deliberum.Errors.{
  zod_error, invalid_event_input, invalid_event_range, duplicate_event_id, Result, ok, err, Exec,
  pure, ◌>>=◌,
}
use deliberum.Protocol.Events.{
  EventEnvelope, AppendEventInput, EventVisibility, event_envelope_schema,
}
use deliberum.Protocol.Events.{public, sealed, private, redacted}
use deliberum.Protocol.Host.{Host}
use deliberum.Storage.Idempotency.{is_compatible_idempotent_event_input}
use deliberum.Storage.Integrity.{attach_event_integrity}

pub record InMemoryEventStore : Type 0 where
  pub events_by_id : Map EventEnvelope
  pub events_by_session : Map (List EventEnvelope)
  pub idempotency_by_session_and_key : Map EventEnvelope
  pub next_sequence_by_session : Map ℕ
  -- how often the store has read its clock
  pub clock_reads : ℕ

abbrev pub empty_store : InMemoryEventStore
empty_store = record {
  events_by_id = [];
  events_by_session = [];
  idempotency_by_session_and_key = [];
  next_sequence_by_session = [];
  clock_reads = 0;
}

pub record AppendEventResult : Type 0 where
  pub event : EventEnvelope
  pub appended : Bool

-- A missing or empty key gives no lookup key.
unfoldable pub create_idempotency_lookup_key : AppendEventInput → Option String
create_idempotency_lookup_key input = elim input.idempotency_key [
  | none ↦ none
  | some k ↦ if k == "" then none else some (input.session_id +++ (":" +++ k))
]

unfoldable pub get_session_events : InMemoryEventStore → String → List EventEnvelope
unfolding get get_or
get_session_events s session_id = get_or [] (get s.events_by_session session_id)

unfoldable pub next_sequence : InMemoryEventStore → String → ℕ
unfolding get get_or
next_sequence s session_id = get_or 0 (get s.next_sequence_by_session session_id)

unfoldable pub has : Map EventEnvelope → String → Bool
unfolding get
has m k = elim (get m k) [ none ↦ false | some _ ↦ true ]

unfoldable pub find_existing : InMemoryEventStore → Option String → Option EventEnvelope
unfolding get
find_existing s none = none
find_existing s (some k) = get s.idempotency_by_session_and_key k

-- A repeated idempotency key: the stored event again, or an error if the input differs.
unfoldable pub replay_event : EventEnvelope → AppendEventInput → Result AppendEventResult
unfolding is_compatible_idempotent_event_input
replay_event existing input =
    if is_compatible_idempotent_event_input existing.input input
    then ok (record { event = existing; appended = false })
    else err invalid_event_input

unfoldable pub remember : Option String → EventEnvelope → Map EventEnvelope → Map EventEnvelope
unfolding set
remember none e m = m
remember (some k) e m = set m k e

-- The four writes of an append.
unfoldable pub store_event : Option String → EventEnvelope → InMemoryEventStore → InMemoryEventStore
unfolding set get_session_events remember
store_event key e s = record s {
  events_by_session =
      set s.events_by_session e.session_id (get_session_events s e.session_id ++ e ∷ []);
  events_by_id = set s.events_by_id e.id e;
  next_sequence_by_session = set s.next_sequence_by_session e.session_id (e.sequence + 1);
  idempotency_by_session_and_key = remember key e s.idempotency_by_session_and_key;
}

module _ (h : Host) where
  -- The event before and after its hashes are attached.
  unfoldable pub number_event : AppendEventInput → InMemoryEventStore → EventEnvelope
  unfolding next_sequence
  number_event input s = record {
    input = input;
    sequence = next_sequence s input.session_id;
    recorded_at = h.store_clock s.clock_reads;
    integrity = none;
  }

  unfoldable pub link_event : AppendEventInput → InMemoryEventStore → EventEnvelope
  unfolding number_event get_last? get_session_events attach_event_integrity
  link_event input s =
      attach_event_integrity h.digest (number_event input s)
        (get_last? (get_session_events s input.session_id))

  unfoldable pub append_new :
      Option String → AppendEventInput → Exec InMemoryEventStore AppendEventResult
  unfolding has number_event link_event store_event event_envelope_schema
  append_new key input s =
      let s' = record s { clock_reads = s.clock_reads + 1 } in
      if has s.events_by_id input.id
      then (err (duplicate_event_id input.id), s)
      else if not (event_envelope_schema (number_event input s))
      then (err zod_error, s')
      else if not (event_envelope_schema (link_event input s))
      then (err zod_error, s')
      else (
        ok (record { event = link_event input s; appended = true }),
        store_event key (link_event input s) s',
      )

  unfoldable pub append_or_replay :
      Option String
      → AppendEventInput
      → Option EventEnvelope
      → Exec InMemoryEventStore AppendEventResult
  unfolding append_new replay_event
  append_or_replay key input none s = append_new key input s
  append_or_replay key input (some existing) s = (replay_event existing input, s)

  unfoldable pub append_event_result : AppendEventInput → Exec InMemoryEventStore AppendEventResult
  unfolding create_idempotency_lookup_key find_existing append_or_replay
  append_event_result input s =
      let key = create_idempotency_lookup_key input in
      append_or_replay key input (find_existing s key) s

  unfoldable pub append_event : AppendEventInput → Exec InMemoryEventStore EventEnvelope
  unfolding append_event_result
  append_event input = append_event_result input >>= λ r. pure r.event

  unfoldable pub append_events :
      List AppendEventInput → Exec InMemoryEventStore (List EventEnvelope)
  unfolding append_event
  append_events [] = pure []
  append_events (input ∷ inputs) =
      append_event input >>= λ e. append_events inputs >>= λ es. pure (e ∷ es)

unfoldable pub get_event : InMemoryEventStore → String → Option EventEnvelope
unfolding get
get_event s event_id = get s.events_by_id event_id

unfoldable pub list_events : InMemoryEventStore → String → List EventEnvelope
unfolding get_session_events
list_events s session_id = get_session_events s session_id

-- The bounds are natural numbers, so only the order of the two can be wrong.
unfoldable pub list_events_by_range :
    InMemoryEventStore → String → ℕ → ℕ → Result (List EventEnvelope)
unfolding get_session_events filter
list_events_by_range s session_id from to =
    if ltb to from
    then err invalid_event_range
    else ok
        (filter (λ e. leb from e.sequence && leb e.sequence to) (get_session_events s session_id))

unfoldable pub list_events_by_type : InMemoryEventStore → String → String → List EventEnvelope
unfolding get_session_events filter
list_events_by_type s session_id t = filter (λ e. e.type == t) (get_session_events s session_id)

unfoldable pub in_batch : String → EventEnvelope → Bool
in_batch batch_id e = elim e.batch_id [ none ↦ false | some b ↦ b == batch_id ]

unfoldable pub list_events_by_batch : InMemoryEventStore → String → String → List EventEnvelope
unfolding get_session_events filter in_batch
list_events_by_batch s session_id batch_id =
    filter (in_batch batch_id) (get_session_events s session_id)

unfoldable pub same_visibility : EventVisibility → EventVisibility → Bool
same_visibility public public = true
same_visibility sealed sealed = true
same_visibility private private = true
same_visibility redacted redacted = true
same_visibility _ _ = false

unfoldable pub list_events_by_visibility :
    InMemoryEventStore → String → EventVisibility → List EventEnvelope
unfolding get_session_events filter same_visibility
list_events_by_visibility s session_id v =
    filter (λ e. same_visibility e.visibility v) (get_session_events s session_id)
