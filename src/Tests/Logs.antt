-- ===== src/Tests/Logs.antt =====
-- Three appends, the last of which repeats an id under another key.
use deliberum.Prelude.{String, ◌≡◌, none, some, List, [], ◌∷◌, filter, find}
use deliberum.Protocol.Events.{AppendEventInput}
use deliberum.Storage.Memory.{
  append_event_result, empty_store, list_events, get_event, find_existing,
}
use deliberum.Storage.Memory.Log.{log_append, empty_log, of_session, has_id, has_key}
use deliberum.Storage.Memory.Refinement.{run, append_event_result-refines}
use deliberum.Tests.Scenario.{host, note}

abbrev three : List AppendEventInput
three = note "a" none ∷ note "b" (some "k") ∷ note "a" (some "m") ∷ []

append_event_result-refines_example :
    let out = run (append_event_result host) three empty_store in
    let spec = run (log_append host) three empty_log in
    (out.0 ≡ spec.0)
    × ((sid : String) → list_events out.1 sid ≡ filter (of_session sid) spec.1.events)
    × ((id : String) → get_event out.1 id ≡ find (has_id id) spec.1.events)
    × ((k : String) → find_existing out.1 (some k) ≡ find (has_key k) spec.1.events)
append_event_result-refines_example = append_event_result-refines host three
