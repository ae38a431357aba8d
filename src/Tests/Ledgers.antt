-- ===== src/Tests/Ledgers.antt =====
-- A JSON file store whose first write fails, and one that is loaded with one event.
use deliberum.Prelude.{◌≡◌, refl, true, false, none, some, [], ◌∷◌, ◌++◌, nat_eq}
use deliberum.Errors.{ok, err, file_system_error}
use deliberum.Protocol.Events.{AppendEventInput}
use deliberum.Storage.Memory.{
  append_event_result, AppendEventResult, create_idempotency_lookup_key, empty_store, list_events,
}
use deliberum.Storage.Memory.Consistent.{IsConsistent-empty}
use deliberum.Storage.JsonFile.{JsonHost, JsonFileEventStore, no_object, append_json_event_result}
use deliberum.Storage.JsonFile.Append.{
  after_memory, append_json_event_result-after_memory, append_json_event_result_lost,
}
use deliberum.Storage.JsonFile.{ledger_object, put_events}
use deliberum.Storage.JsonFile.Ledger.{load, parse_persisted_ledger}
use deliberum.Storage.JsonFile.Loaded.{get_event-load}
use deliberum.Protocol.Events.{EventEnvelope}
use deliberum.Storage.Memory.{get_event}
use deliberum.Errors.{Result, err}
use deliberum.Prelude.{inl, List, map}
use deliberum.Tests.Scenario.{host, note, result_of}

abbrev json_host : JsonHost
json_host = record {
  parse_json = λ t. some no_object;
  stringify = λ es. "ledger";
  locale_le = λ a b. true;
  write_fails = λ n. nat_eq n 0;
}

abbrev fresh : JsonFileEventStore
fresh = record { memory = empty_store; file = none; writes = 0 }

abbrev keyed_note : AppendEventInput
keyed_note = note "a" (some "k")

abbrev appended : AppendEventResult
appended = result_of (append_event_result host keyed_note empty_store).0

append_json_event_result-after_memory_example :
    append_json_event_result host json_host keyed_note fresh
    ≡ after_memory json_host fresh (append_event_result host keyed_note empty_store)
append_json_event_result-after_memory_example =
    append_json_event_result-after_memory host json_host keyed_note fresh
      (IsConsistent-empty host.digest)

appends : (append_event_result host keyed_note empty_store).0 ≡ ok appended
unfolding append_event_result
appends = refl

appends_new : appended.appended ≡ true
unfolding append_event_result
appends_new = refl

append_json_event_result_lost_example :
    let (out, t) = append_json_event_result host json_host keyed_note fresh in
    (out ≡ err file_system_error)
    × (t.file ≡ none)
    × (list_events t.memory appended.event.session_id
        ≡ list_events empty_store appended.event.session_id ++ appended.event ∷ [])
    × (append_json_event_result host json_host keyed_note t
        ≡ (ok (record { event = appended.event; appended = false }), t))
unfolding create_idempotency_lookup_key
append_json_event_result_lost_example =
    append_json_event_result_lost host json_host keyed_note fresh appended "s:k"
      (IsConsistent-empty host.digest) appends appends_new refl refl

abbrev stored : List EventEnvelope
stored = appended.event ∷ []

abbrev full_host : JsonHost
full_host = record json_host {
  parse_json = λ t. some (ledger_object (some 1) (some (map some stored)));
}

abbrev loaded_of : Result JsonFileEventStore → JsonFileEventStore
loaded_of (ok s) = s
loaded_of (err e) = fresh

abbrev loaded : JsonFileEventStore
loaded = loaded_of (load host full_host (some "text"))

loads : load host full_host (some "text") ≡ ok loaded
unfolding load append_event_result parse_persisted_ledger put_events
loads = refl

get_event-load_example : get_event loaded.memory appended.event.id ≡ some appended.event
get_event-load_example =
    get_event-load host full_host "text" stored loaded appended.event refl loads (inl refl)
