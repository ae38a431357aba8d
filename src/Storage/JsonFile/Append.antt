-- ===== src/Storage/JsonFile/Append.antt =====
-- appendEventResult of packages/storage/src/json-file-event-store.ts against the in-memory store.
use deliberum.Prelude.{
  ◌+◌, max, String, ◌≡◌, refl, sym, ap, ◌∙◌, inl, inr, true, false, Option, some, [], ◌∷◌, ◌++◌,
  arith, eq_iff, if◌then◌else◌, Bool-cases, Option-cases, length,
}
use deliberum.Errors.{
  Error, Result, ok, err, ok_injective, duplicate_event_id, invalid_event_input,
  json_file_event_store_error, file_system_error, key_reused, duplicate_id,
}
use deliberum.Protocol.Events.{EventEnvelope, AppendEventInput, event_envelope_schema}
use deliberum.Protocol.Host.{Host}
use deliberum.Storage.Idempotency.{is_compatible_idempotent_event_input}
use deliberum.Storage.Integrity.{sort_events}
use deliberum.Storage.Chain.{sort-Numbered}
use deliberum.Storage.Memory.{
  InMemoryEventStore, AppendEventResult, create_idempotency_lookup_key, find_existing, replay_event,
  get_session_events, next_sequence, has, store_event, number_event, link_event, append_new,
  append_or_replay, append_event_result, list_events,
}
use deliberum.Storage.Memory.Consistent.{IsConsistent, Numbered-append, sequence-link_event}
use deliberum.Storage.Memory.Preserve.{append_event_result-IsConsistent}
use deliberum.Storage.Memory.Append.{
  appended_event, append_event_result_retry, list_events-append_event_result,
}
use deliberum.Storage.JsonFile.{
  JsonHost, JsonFileEventStore, write_event, put_event, persist, replay_persisted, finish_append,
  append_persisted, append_json_event_result,
}

-- The error that the JSON file store throws where the in-memory store throws `e`.
abbrev pub json_error : Error → Error
json_error (duplicate_event_id id) = json_file_event_store_error (duplicate_id id)
json_error invalid_event_input = json_file_event_store_error key_reused
json_error e = e

-- The ledger is written after an event was appended, and only then.
abbrev pub after_memory :
    JsonHost
    → JsonFileEventStore
    → Result AppendEventResult × InMemoryEventStore
    → Result AppendEventResult × JsonFileEventStore
after_memory j s (err e, m) = (err (json_error e), record s { memory = m })
after_memory j s (ok r, m) =
    if r.appended
    then finish_append r.event (persist j (record s { memory = m }))
    else (ok r, record s { memory = m })

-- For an event that comes last in its session the two ways to store it agree.
same_write :
    (e : EventEnvelope) (s : InMemoryEventStore)
    → sort_events (get_session_events s e.session_id ++ e ∷ [])
      ≡ get_session_events s e.session_id ++ e ∷ []
    → max (next_sequence s e.session_id) (e.sequence + 1) ≡ e.sequence + 1
    → write_event e s ≡ store_event (create_idempotency_lookup_key e.input) e s
unfolding write_event store_event
same_write e s sorted next = rw (sorted, next) refl

module _ (h : Host) (input : AppendEventInput) (m : InMemoryEventStore)
    (consistent : IsConsistent h.digest m) where
  abbrev ticked : InMemoryEventStore
  ticked = record m { clock_reads = m.clock_reads + 1 }

  abbrev key : Option String
  key = create_idempotency_lookup_key input

  last_number : (link_event h input m).sequence ≡ length (get_session_events m input.session_id)
  last_number = sequence-link_event h input m ∙ consistent.next input.session_id

  session_sorted :
      sort_events (get_session_events m input.session_id ++ link_event h input m ∷ [])
      ≡ get_session_events m input.session_id ++ link_event h input m ∷ []
  unfolding link_event
  session_sorted =
      sort-Numbered input.session_id 0
        (get_session_events m input.session_id ++ link_event h input m ∷ [])
        (Numbered-append input.session_id 0 (get_session_events m input.session_id)
          (link_event h input m) (consistent.numbered input.session_id) (omega (arith, last_number))
          refl)

  next_grows :
      max (next_sequence m input.session_id) ((link_event h input m).sequence + 1)
      ≡ (link_event h input m).sequence + 1
  next_grows = omega (arith, sequence-link_event h input m)

  put_same :
      has m.events_by_id input.id ≡ false
      → put_event (link_event h input m) ticked ≡ ok (store_event key (link_event h input m) ticked)
  unfolding put_event link_event get_session_events next_sequence
  put_same new = rw new (ap ok (same_write (link_event h input m) ticked session_sorted next_grows))

module _ (h : Host) (j : JsonHost) (input : AppendEventInput) (s : JsonFileEventStore)
    (consistent : IsConsistent h.digest s.memory) where
  append_persisted-new :
      append_persisted h j input s
      ≡ after_memory j s (append_new h (create_idempotency_lookup_key input) input s.memory)
  unfolding append_persisted append_new
  append_persisted-new = elim (Bool-cases (has s.memory.events_by_id input.id)) [
    | inl e ↦ rw e refl
    | inr e ↦ elim (Bool-cases (event_envelope_schema (number_event h input s.memory))) [
      | inr bad ↦ rw (e, bad) refl
      | inl good ↦ elim (Bool-cases (event_envelope_schema (link_event h input s.memory))) [
        | inr bad ↦ rw (e, good, bad) refl
        | inl fine ↦ rw (e, good, fine, put_same h input s.memory consistent e) refl
      ]
    ]
  ]

  replay-same :
      (x : EventEnvelope)
      → (replay_persisted x input, s) ≡ after_memory j s (replay_event x input, s.memory)
  unfolding replay_persisted replay_event
  replay-same x = elim (Bool-cases (is_compatible_idempotent_event_input x.input input)) [
    | inl same ↦ rw same refl
    | inr other ↦ rw other refl
  ]

  -- While its maps are consistent, an append of the JSON file store is an append of the in-memory
  -- store, with the errors of its own class, followed by one attempt to write the ledger if and
  -- only if an event was appended.
  pub append_json_event_result-after_memory :
      append_json_event_result h j input s ≡ after_memory j s (append_event_result h input s.memory)
  unfolding append_json_event_result append_event_result append_or_replay
  append_json_event_result-after_memory =
      elim (Option-cases (find_existing s.memory (create_idempotency_lookup_key input))) [
        | inl free ↦ rw free append_persisted-new
        | inr x ↦ rw (x.1) (replay-same x.0)
      ]

not_written :
    (j : JsonHost) (s : JsonFileEventStore) (o : Result AppendEventResult × InMemoryEventStore)
    (r : AppendEventResult)
    → o.0 ≡ ok r
    → r.appended ≡ true
    → j.write_fails s.writes ≡ true
    → after_memory j s o
      ≡ (err file_system_error, record { memory = o.1; file = s.file; writes = s.writes + 1 })
unfolding persist
not_written j s (ok x, m) r done new fails =
    let appended : x.appended ≡ true =
      ap (λ (y : AppendEventResult). y.appended) (ok_injective x r done) ∙ new in
    rw (appended, fails) refl
not_written j s (err x, m) r done new fails = cc done

replayed :
    (j : JsonHost) (s : JsonFileEventStore) (e : EventEnvelope)
    → after_memory j s (ok (record { event = e; appended = false }), s.memory)
      ≡ (ok (record { event = e; appended = false }), s)
replayed j s e = refl

-- When the write of the ledger fails, an append that the maps accept throws and leaves the file as
-- it was, but the event is listed; and the same append under its idempotency key then returns
-- that event as one that was there, without another attempt to write it.
pub append_json_event_result_lost :
    (h : Host) (j : JsonHost) (input : AppendEventInput) (s : JsonFileEventStore)
    (r : AppendEventResult) (k : String)
    → IsConsistent h.digest s.memory
    → (append_event_result h input s.memory).0 ≡ ok r
    → r.appended ≡ true
    → create_idempotency_lookup_key input ≡ some k
    → j.write_fails s.writes ≡ true
    → let (out, t) = append_json_event_result h j input s in
      (out ≡ err file_system_error)
      × (t.file ≡ s.file)
      × (list_events t.memory r.event.session_id
          ≡ list_events s.memory r.event.session_id ++ r.event ∷ [])
      × (append_json_event_result h j input t
          ≡ (ok (record { event = r.event; appended = false }), t))
append_json_event_result_lost h j input s r k consistent done new key fails =
    let own =
      ap (λ (x : AppendEventInput). x.session_id) (appended_event h input s.memory r done new) in
    let after = (append_event_result h input s.memory).1 in
    let t : JsonFileEventStore = record { memory = after; file = s.file; writes = s.writes + 1 } in
    rw
      (append_json_event_result-after_memory h j input s consistent
        ∙ not_written j s (append_event_result h input s.memory) r done new fails)
      (
        refl,
        refl,
        list_events-append_event_result h input s.memory r r.event.session_id done
            ∙ rw (new, (eq_iff input.session_id r.event.session_id).1 (sym own)) refl,
        append_json_event_result-after_memory h j input t
              (append_event_result-IsConsistent h input s.memory consistent)
            ∙ (ap (after_memory j t)
                  (append_event_result_retry h input input s.memory r k done key key refl)
                ∙ replayed j t r.event),
      )
