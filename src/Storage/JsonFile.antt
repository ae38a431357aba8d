-- ===== src/Storage/JsonFile.antt =====
-- packages/storage/src/json-file-event-store.ts: the event store whose ledger is one JSON file.
-- Its four maps are those of the in-memory store.
pub mod Append
pub mod Ledger
pub mod Loaded
use deliberum.Prelude.{
  ℕ, zero, suc, ◌+◌, ◌-◌, ◌≤◌, ◌<◌, max, String, ◌+++◌, ◌≡◌, refl, sym, ap, ◌∙◌, ◌≢◌, ◌↔◌, ◌⊎◌, inl,
  inr, Bool, true, false, ◌&&◌, ◌||◌, not, Option, none, some, List, [], ◌∷◌, ◌++◌, map, arith,
  eq_iff, eq_refl, ltb, leb, nat_eq, ◌==◌, if◌then◌else◌, ltb→lt, leb→le, Bool-cases, Option-cases,
  String_discrete, ℕ_discrete, length, length-append, Map, get, set, get-set, get_or, filter, find,
  any, all, contains, get_last?, add_to_set, to_set, insert_by, sort_by, Never, In, In-append_left,
  In-append_last, In-append_one, In-filter, In-filter_intro, filter-append, get_last?-append_one,
  contains→In, In→contains, Distinct, Distinct-append_one, to_set-Distinct, In-to_set, all→In,
  In→all, Distinct-length-le,
}
use deliberum.Errors.{
  Error, JsonFileFault, Result, ok, err, and_then, Exec, ◌>>=◌, pure, zod_error,
  json_file_event_store_error, file_system_error, key_reused, range_invalid, unreadable,
  not_an_object, unsupported_version, events_not_an_array, event_invalid, chain_broken,
  duplicate_id, persisted_id_twice, conflicting_key, not_contiguous, sequence_twice,
}
use deliberum.Protocol.Events.{EventEnvelope, AppendEventInput, event_envelope_schema}
use deliberum.Protocol.Host.{Host}
use deliberum.Storage.Idempotency.{is_compatible_idempotent_event_input}
use deliberum.Storage.Integrity.{sort_events, validate_event_integrity_chain}
use deliberum.Storage.Memory.{
  InMemoryEventStore, AppendEventResult, empty_store, create_idempotency_lookup_key,
  get_session_events, next_sequence, has, find_existing, remember, number_event, link_event,
}

-- What `JSON.parse` makes of the file, as far as the store looks at it: an event of none does not
-- have the shape of one, and a version of none is no natural number.
pub data ParsedFile : Type 0 where
  no_object : ParsedFile
  ledger_object : Option ℕ → Option (List (Option EventEnvelope)) → ParsedFile

pub record JsonHost : Type 0 where
  -- none is a text that is not JSON
  pub parse_json : String → Option ParsedFile
  -- the text of a ledger of version 1 with these events
  pub stringify : List EventEnvelope → String
  -- `left.localeCompare(right) <= 0`
  pub locale_le : String → String → Bool
  -- whether the n-th attempt to replace the file throws before the file is renamed
  pub write_fails : ℕ → Bool

pub record JsonFileEventStore : Type 0 where
  pub memory : InMemoryEventStore
  pub file : Option String
  pub writes : ℕ

abbrev pub fault {ℓ} : {A : Type ℓ} → JsonFileFault → Result A
fault f = err (json_file_event_store_error f)

-- The writes of `storeEvent`; the session's list is sorted and the next sequence only grows.
unfoldable pub write_event : EventEnvelope → InMemoryEventStore → InMemoryEventStore
write_event e s = record s {
  events_by_session =
      set s.events_by_session e.session_id
        (sort_events (get_session_events s e.session_id ++ e ∷ []));
  events_by_id = set s.events_by_id e.id e;
  next_sequence_by_session =
      set s.next_sequence_by_session e.session_id
        (max (next_sequence s e.session_id) (e.sequence + 1));
  idempotency_by_session_and_key =
      remember (create_idempotency_lookup_key e.input) e s.idempotency_by_session_and_key;
}

-- `storeEvent` itself, with its guard.
unfoldable pub put_event : EventEnvelope → InMemoryEventStore → Result InMemoryEventStore
unfolding has write_event
put_event e s =
    if has s.events_by_id e.id then fault (persisted_id_twice e.id) else ok (write_event e s)

unfoldable pub put_events : List EventEnvelope → InMemoryEventStore → Result InMemoryEventStore
unfolding put_event
put_events [] s = ok s
put_events (e ∷ es) s = and_then (put_event e s) (put_events es)

module _ (j : JsonHost) where
  unfoldable pub compare_events : EventEnvelope → EventEnvelope → Bool
  compare_events left right =
      if left.session_id == right.session_id
      then leb left.sequence right.sequence
      else j.locale_le left.session_id right.session_id

  unfoldable pub insert_event : EventEnvelope → List EventEnvelope → List EventEnvelope
  unfolding compare_events
  insert_event e [] = e ∷ []
  insert_event e (x ∷ xs) = if compare_events e x then e ∷ x ∷ xs else x ∷ insert_event e xs

  unfoldable pub sort_ledger : List EventEnvelope → List EventEnvelope
  unfolding insert_event
  sort_ledger [] = []
  sort_ledger (e ∷ es) = insert_event e (sort_ledger es)

  -- A failed attempt leaves the file as it was.
  unfoldable pub persist : Exec JsonFileEventStore (Unit {0})
  unfolding sort_ledger
  persist s =
      let counted = record s { writes = s.writes + 1 } in
      if j.write_fails s.writes then (err file_system_error, counted) else (
        ok tt,
        record counted {
          file = some (j.stringify (sort_ledger (map (λ e. e.1) s.memory.events_by_id)));
        },
      )

-- A repeated key, as in the in-memory store but for the error.
unfoldable pub replay_persisted : EventEnvelope → AppendEventInput → Result AppendEventResult
unfolding is_compatible_idempotent_event_input
replay_persisted existing input =
    if is_compatible_idempotent_event_input existing.input input
    then ok (record { event = existing; appended = false })
    else fault key_reused

abbrev pub with_memory : JsonFileEventStore → InMemoryEventStore → JsonFileEventStore
with_memory s m = record s { memory = m }

-- What an append returns once the ledger is written, or is not.
abbrev pub finish_append :
    EventEnvelope
    → Result (Unit {0}) × JsonFileEventStore
    → Result AppendEventResult × JsonFileEventStore
finish_append e (ok u, s) = (ok (record { event = e; appended = true }), s)
finish_append e (err x, s) = (err x, s)

module _ (h : Host) (j : JsonHost) where
  -- `this.storeEvent(parsedEvent); this.persist();`
  abbrev pub store_and_persist :
      EventEnvelope
      → Result InMemoryEventStore
      → JsonFileEventStore
      → Result AppendEventResult × JsonFileEventStore
  store_and_persist e (err x) s = (err x, s)
  store_and_persist e (ok m) s = finish_append e (persist j (with_memory s m))

  unfoldable pub append_persisted : AppendEventInput → Exec JsonFileEventStore AppendEventResult
  append_persisted input s =
      let m = s.memory in
      let ticked = record m { clock_reads = m.clock_reads + 1 } in
      if has m.events_by_id input.id
      then (fault (duplicate_id input.id), s)
      else if not (event_envelope_schema (number_event h input m))
      then (err zod_error, with_memory s ticked)
      else if not (event_envelope_schema (link_event h input m))
      then (err zod_error, with_memory s ticked)
      else store_and_persist (link_event h input m) (put_event (link_event h input m) ticked)
          (with_memory s ticked)

  abbrev pub append_or_replay_persisted :
      Option EventEnvelope → AppendEventInput → Exec JsonFileEventStore AppendEventResult
  append_or_replay_persisted none input s = append_persisted input s
  append_or_replay_persisted (some existing) input s = (replay_persisted existing input, s)

  unfoldable pub append_json_event_result :
      AppendEventInput → Exec JsonFileEventStore AppendEventResult
  append_json_event_result input s =
      append_or_replay_persisted (find_existing s.memory (create_idempotency_lookup_key input))
        input s
