-- ===== src/Storage/Memory/Log.antt =====
-- The in-memory event store as an append-only log: a list of events and no index at all.
use deliberum.Prelude.{
  ℕ, ◌+◌, String, ◌≡◌, refl, Bool, true, not, Option, none, some, List, [], ◌∷◌, ◌++◌, ◌==◌,
  if◌then◌else◌, length, get, get_or, filter, find, get_last?,
}
use deliberum.Errors.{zod_error, duplicate_event_id, Result, ok, err}
use deliberum.Protocol.Events.{EventEnvelope, AppendEventInput, event_envelope_schema}
use deliberum.Protocol.Host.{Host}
use deliberum.Storage.Integrity.{attach_event_integrity}
use deliberum.Storage.Memory.{
  InMemoryEventStore, AppendEventResult, empty_store, create_idempotency_lookup_key, find_existing,
  replay_event, get_session_events, next_sequence,
}
use deliberum.Storage.Memory.Effect.{keyed}

-- The abstract store: every event in the order in which it was appended.
pub record Log : Type 0 where
  pub events : List EventEnvelope
  pub clock_reads : ℕ

abbrev pub empty_log : Log
empty_log = record { events = []; clock_reads = 0 }

abbrev pub of_session : String → EventEnvelope → Bool
of_session sid e = e.session_id == sid

abbrev pub has_id : String → EventEnvelope → Bool
has_id id e = e.id == id

abbrev pub has_key : String → EventEnvelope → Bool
has_key k e = keyed (create_idempotency_lookup_key e.input) k

abbrev pub log_find_key : Option String → List EventEnvelope → Option EventEnvelope
log_find_key none es = none
log_find_key (some k) es = find (has_key k) es

module _ (h : Host) (input : AppendEventInput) where
  -- The next event of the session, before and after it is linked to the last one.
  abbrev pub log_number : Log → EventEnvelope
  log_number l = record {
    input = input;
    sequence = length (filter (of_session input.session_id) l.events);
    recorded_at = h.store_clock l.clock_reads;
    integrity = none;
  }

  abbrev pub log_link : Log → EventEnvelope
  log_link l =
      attach_event_integrity h.digest (log_number l)
        (get_last? (filter (of_session input.session_id) l.events))

  abbrev pub log_new : Option EventEnvelope → Log → Result AppendEventResult × Log
  log_new (some x) l = (err (duplicate_event_id input.id), l)
  log_new none l =
      let l' = record l { clock_reads = l.clock_reads + 1 } in
      if not (event_envelope_schema (log_number l))
      then (err zod_error, l')
      else if not (event_envelope_schema (log_link l))
      then (err zod_error, l')
      else (
        ok (record { event = log_link l; appended = true }),
        record l' { events = l.events ++ log_link l ∷ [] },
      )

  abbrev pub log_replay : Option EventEnvelope → Log → Result AppendEventResult × Log
  log_replay (some x) l = (replay_event x input, l)
  log_replay none l = log_new (find (has_id input.id) l.events) l

  -- The append of the abstract store.
  abbrev pub log_append : Log → Result AppendEventResult × Log
  log_append l = log_replay (log_find_key (create_idempotency_lookup_key input) l.events) l

-- The maps of the store say of its events what the log says.
pub record Represents (s : InMemoryEventStore) (l : Log) : Type 0 where
  pub lists : (sid : String) → get_session_events s sid ≡ filter (of_session sid) l.events
  pub counts : (sid : String) → next_sequence s sid ≡ length (filter (of_session sid) l.events)
  pub finds : (id : String) → get s.events_by_id id ≡ find (has_id id) l.events
  pub keys : (k : String) → find_existing s (some k) ≡ find (has_key k) l.events
  pub reads : s.clock_reads ≡ l.clock_reads

pub Represents-empty : Represents empty_store empty_log
unfolding get_session_events next_sequence find_existing get get_or filter find
Represents-empty = record {
  lists = λ sid. refl;
  counts = λ sid. refl;
  finds = λ id. refl;
  keys = λ k. refl;
  reads = refl;
}
