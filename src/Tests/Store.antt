-- ===== src/Tests/Store.antt =====
-- The event store with one event, to which the same append comes again.
use deliberum.Prelude.{
  ◌≡◌, ◌≢◌, refl, ap, eq_iff, ◌&&◌, ◌==◌, if◌then◌else◌, none, some, [], ◌∷◌, ◌++◌,
}
use deliberum.Errors.{ok, err, duplicate_event_id, invalid_event_input}
use deliberum.Protocol.Events.{AppendEventInput}
use deliberum.Storage.Idempotency.{to_comparable}
use deliberum.Storage.Integrity.{validate_event_integrity_chain}
use deliberum.Storage.Memory.{
  InMemoryEventStore, AppendEventResult, empty_store, append_event_result, list_events,
  create_idempotency_lookup_key,
}
use deliberum.Storage.Memory.Consistent.{IsConsistent, IsConsistent-empty}
use deliberum.Storage.Memory.Preserve.{append_event_result-IsConsistent}
use deliberum.Storage.Memory.Append.{
  append_event_result_error, list_events-append_event_result, append_event_result_conflict,
}
use deliberum.Storage.Chain.{validate-list_events}
use deliberum.Protocol.Common.{text, object, field, end}
use deliberum.Protocol.Events.{Payload, proposal_acceptance, json}
use deliberum.Tests.Scenario.{host, note, result_of}

abbrev first : AppendEventInput
first = note "e" (some "k")

abbrev second : AppendEventInput
second = note "f" (some "k")

abbrev one_event : InMemoryEventStore
one_event = (append_event_result host first empty_store).1

abbrev stored : AppendEventResult
stored = result_of (append_event_result host first empty_store).0

first_done : (append_event_result host first empty_store).0 ≡ ok stored
unfolding append_event_result
first_done = refl

one_event-IsConsistent : IsConsistent host.digest one_event
one_event-IsConsistent =
    append_event_result-IsConsistent host first empty_store (IsConsistent-empty host.digest)

append_event_result-IsConsistent_example :
    IsConsistent host.digest (append_event_result host first empty_store).1
append_event_result-IsConsistent_example =
    append_event_result-IsConsistent host first empty_store (IsConsistent-empty host.digest)

validate-list_events_example :
    validate_event_integrity_chain host.digest (list_events one_event "s") ≡ none
validate-list_events_example = validate-list_events host.digest one_event "s" one_event-IsConsistent

list_events-append_event_result_example :
    list_events (append_event_result host first empty_store).1 "s" ≡ (
      if stored.appended && first.session_id == "s"
      then list_events empty_store "s" ++ stored.event ∷ []
      else list_events empty_store "s")
list_events-append_event_result_example =
    list_events-append_event_result host first empty_store stored "s" first_done

-- The same id again, under no key.
third_fails : (append_event_result host (note "e" none) one_event).0 ≡ err (duplicate_event_id "e")
unfolding append_event_result
third_fails = refl

append_event_result_error_example :
    (append_event_result host (note "e" none) one_event).1 ≡ record one_event {
      clock_reads = (append_event_result host (note "e" none) one_event).1.clock_reads;
    }
append_event_result_error_example =
    append_event_result_error host (note "e" none) one_event (duplicate_event_id "e") third_fails

-- Another author under the same key.
abbrev other : AppendEventInput
other = record (note "f" (some "k")) { author_id = "bob" }

-- Keys of different sessions share one entry where the colon falls differently.
abbrev in_first_session : AppendEventInput
in_first_session = record (note "e" (some "b:c")) { session_id = "a" }

abbrev in_second_session : AppendEventInput
in_second_session = record (note "f" (some "c")) { session_id = "a:b" }

first_session_done :
    (append_event_result host in_first_session empty_store).0
    ≡ ok (result_of (append_event_result host in_first_session empty_store).0)
unfolding append_event_result
first_session_done = refl

first_session_key : create_idempotency_lookup_key in_first_session ≡ some "a:b:c"
unfolding create_idempotency_lookup_key
first_session_key = refl

second_session_key : create_idempotency_lookup_key in_second_session ≡ some "a:b:c"
unfolding create_idempotency_lookup_key
second_session_key = refl

other_session : to_comparable in_first_session ≢ to_comparable in_second_session
unfolding to_comparable
other_session q = cc ((eq_iff "a" "a:b").1 (ap (λ x. x.session_id) q))

keys_collide :
    (append_event_result host in_second_session
      (append_event_result host in_first_session empty_store).1).0
    ≡ err invalid_event_input
keys_collide =
    ap (λ o. o.0)
      (append_event_result_conflict host in_first_session in_second_session empty_store
        (result_of (append_event_result host in_first_session empty_store).0) "a:b:c"
        first_session_done first_session_key second_session_key other_session)

-- A payload that lacks the generated key repeats one that has it, in whatever order its keys are.
abbrev accepted : Payload → AppendEventInput
accepted payload = record (note "e" (some "k")) { type = "proposal_accepted"; payload = payload }

same_without_id :
    to_comparable (
      accepted (
        proposal_acceptance
          (record { id = "a"; target_proposal_event_id = "p"; rationale = "fine" })))
    ≡ to_comparable (
        accepted (
          json (
            object
              (field "targetProposalEventId" (text "p") (field "rationale" (text "fine") end)))))
unfolding to_comparable
same_without_id = refl
