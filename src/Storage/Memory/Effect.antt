-- ===== src/Storage/Memory/Effect.antt =====
-- What storing one event changes in each of the store's maps.
use deliberum.Prelude.{
  ◌+◌, String, ◌≡◌, refl, inl, inr, Bool, false, Option, none, some, [], ◌∷◌, ◌++◌, arith, eq_iff,
  ◌==◌, if◌then◌else◌, Bool-cases, get, get-set, get_or,
}
use deliberum.Protocol.Events.{EventEnvelope}
use deliberum.Storage.Memory.{
  InMemoryEventStore, get_session_events, next_sequence, store_event, find_existing, remember,
}

module _ (key : Option String) (e : EventEnvelope) (s : InMemoryEventStore) where
  -- The event comes last in its own session, and no other session changes.
  pub get_session_events-store_event :
      (sid : String)
      → get_session_events (store_event key e s) sid ≡ (
          if e.session_id == sid
          then get_session_events s sid ++ e ∷ []
          else get_session_events s sid)
  unfolding get_session_events store_event get_or
  get_session_events-store_event sid = elim (Bool-cases (e.session_id == sid)) [
    | inl q ↦ rw (get-set, q, (eq_iff e.session_id sid).0 q)
    | inr q ↦ rw (get-set, q)
  ]

  pub next_sequence-store_event :
      (sid : String)
      → next_sequence (store_event key e s) sid
        ≡ (if e.session_id == sid then e.sequence + 1 else next_sequence s sid)
  unfolding next_sequence store_event get_or
  next_sequence-store_event sid = rw get-set (ground arith)

  pub by_id-store_event :
      (k : String)
      → get (store_event key e s).events_by_id k
        ≡ (if e.id == k then some e else get s.events_by_id k)
  unfolding store_event
  by_id-store_event k = get-set s.events_by_id e.id k e

abbrev pub keyed : Option String → String → Bool
keyed none k = false
keyed (some j) k = j == k

pub find_existing-store_event :
    (key : Option String) (e : EventEnvelope) (s : InMemoryEventStore) (k : String)
    → find_existing (store_event key e s) (some k)
      ≡ (if keyed key k then some e else find_existing s (some k))
unfolding store_event find_existing remember
find_existing-store_event none e s k = refl
find_existing-store_event (some j) e s k = get-set s.idempotency_by_session_and_key j k e
