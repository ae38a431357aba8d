-- ===== src/Storage/Memory/Outcome.antt =====
-- The three ways in which an append ends, and what each leaves in the store.
use deliberum.Prelude.{
  ℕ, ◌+◌, String, ◌≡◌, inl, inr, true, false, none, some, arith, Bool-cases, Option-cases, Map, get,
}
use deliberum.Errors.{Error, zod_error, duplicate_event_id, invalid_event_input, Result, ok, err}
use deliberum.Protocol.Events.{EventEnvelope, AppendEventInput, event_envelope_schema}
use deliberum.Protocol.Host.{Host}
use deliberum.Storage.Idempotency.{is_compatible_idempotent_event_input}
use deliberum.Storage.Memory.{
  InMemoryEventStore, AppendEventResult, create_idempotency_lookup_key, find_existing, replay_event,
  has, store_event, number_event, link_event, append_new, append_event_result,
}

pub data Outcome (h : Host) (input : AppendEventInput) (s : InMemoryEventStore)
    (out : Result AppendEventResult × InMemoryEventStore) : Type 0 where
  refused :
      (e : Error) (n : ℕ) → out ≡ (err e, record s { clock_reads = n }) → Outcome h input s out
  replayed :
      (x : EventEnvelope)
      → find_existing s (create_idempotency_lookup_key input) ≡ some x
      → is_compatible_idempotent_event_input x.input input ≡ true
      → out ≡ (ok (record { event = x; appended = false }), s)
      → Outcome h input s out
  appended :
      find_existing s (create_idempotency_lookup_key input) ≡ none
      → get s.events_by_id input.id ≡ none
      → event_envelope_schema (link_event h input s) ≡ true
      → out ≡ (
        ok (record { event = link_event h input s; appended = true }),
        store_event
            (create_idempotency_lookup_key input)
            (link_event h input s)
            (record s { clock_reads = s.clock_reads + 1 }),
      )
      → Outcome h input s out

not_has : (m : Map EventEnvelope) (k : String) → has m k ≡ false → get m k ≡ none
unfolding has
not_has m k e = ground arith

module _ (h : Host) (input : AppendEventInput) (s : InMemoryEventStore) where
  Outcome-new :
      find_existing s (create_idempotency_lookup_key input) ≡ none
      → Outcome h input s (append_new h (create_idempotency_lookup_key input) input s)
  unfolding append_new
  Outcome-new free = elim (Bool-cases (has s.events_by_id input.id)) [
    | inl e ↦ refused (duplicate_event_id input.id) s.clock_reads (rw e)
    | inr e ↦ elim (Bool-cases (event_envelope_schema (number_event h input s))) [
      | inr bad ↦ refused zod_error (s.clock_reads + 1) (rw (e, bad))
      | inl good ↦ elim (Bool-cases (event_envelope_schema (link_event h input s))) [
        | inr bad ↦ refused zod_error (s.clock_reads + 1) (rw (e, good, bad))
        | inl fine ↦ appended free (not_has s.events_by_id input.id e) fine (rw (e, good, fine))
      ]
    ]
  ]

  Outcome-replay :
      (x : EventEnvelope)
      → find_existing s (create_idempotency_lookup_key input) ≡ some x
      → Outcome h input s (replay_event x input, s)
  unfolding replay_event
  Outcome-replay x found = elim (Bool-cases (is_compatible_idempotent_event_input x.input input)) [
    | inl same ↦ replayed x found same (rw same)
    | inr other ↦ refused invalid_event_input s.clock_reads (rw other)
  ]

  pub append-Outcome : Outcome h input s (append_event_result h input s)
  unfolding append_event_result
  append-Outcome = elim (Option-cases (find_existing s (create_idempotency_lookup_key input))) [
    | inl free ↦ rw free (Outcome-new free)
    | inr found ↦ rw (found.1) (Outcome-replay found.0 found.1)
  ]
