-- ===== src/Storage/Memory/Refinement.antt =====
-- packages/storage/src/in-memory-event-store.ts: sequences of appends against the log.
use deliberum.Prelude.{String, ◌≡◌, refl, some, List, [], ◌∷◌, filter, find}
use deliberum.Errors.{Result}
use deliberum.Protocol.Events.{AppendEventInput}
use deliberum.Protocol.Host.{Host}
use deliberum.Storage.Memory.{
  InMemoryEventStore, AppendEventResult, empty_store, find_existing, append_event_result, get_event,
  list_events,
}
use deliberum.Storage.Memory.Log.{
  Log, empty_log, of_session, has_id, has_key, log_append, Represents, Represents-empty,
}
use deliberum.Storage.Memory.Simulate.{append_event_result-Simulates}

-- The results of a sequence of appends, each of which may throw, and the state after them.
abbrev pub run :
    {S : Type 0}
    → (AppendEventInput → S → Result AppendEventResult × S)
    → List AppendEventInput
    → S
    → List (Result AppendEventResult) × S
run step [] s = ([], s)
run step (x ∷ xs) s = let (r, t) = step x s in let (rs, u) = run step xs t in (r ∷ rs, u)

cons_same : {A : Type 0} {a b : A} {xs ys : List A} → a ≡ b → xs ≡ ys → a ∷ xs ≡ b ∷ ys
cons_same p q = rw (p, q) refl

module _ (h : Host) where
  runs_simulate :
      (inputs : List AppendEventInput) (s : InMemoryEventStore) (l : Log)
      → Represents s l
      → ((run (append_event_result h) inputs s).0 ≡ (run (log_append h) inputs l).0)
        × Represents (run (append_event_result h) inputs s).1 (run (log_append h) inputs l).1
  runs_simulate [] s l rep = (refl, rep)
  runs_simulate (x ∷ xs) s l rep =
      let (same, next) = append_event_result-Simulates h x s l rep in
      let (rest, last) = runs_simulate xs (append_event_result h x s).1 (log_append h x l).1 next in
      (cons_same same rest, last)

  -- The store refines an append-only log: any sequence of appends to the empty store returns and
  -- throws what it does on the empty log, and afterwards each session lists the events of the log
  -- that are its own, an id finds the event of the log that has it, and an idempotency key finds
  -- the event of the log that was appended under it.
  pub append_event_result-refines :
      (inputs : List AppendEventInput)
      → let out = run (append_event_result h) inputs empty_store in
        let spec = run (log_append h) inputs empty_log in
        (out.0 ≡ spec.0)
        × ((sid : String) → list_events out.1 sid ≡ filter (of_session sid) spec.1.events)
        × ((id : String) → get_event out.1 id ≡ find (has_id id) spec.1.events)
        × ((k : String) → find_existing out.1 (some k) ≡ find (has_key k) spec.1.events)
  unfolding list_events get_event
  append_event_result-refines inputs =
      let (same, rep) = runs_simulate inputs empty_store empty_log Represents-empty in
      (same, rep.lists, rep.finds, rep.keys)
