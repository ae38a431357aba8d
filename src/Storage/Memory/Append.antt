-- ===== src/Storage/Memory/Append.antt =====
-- packages/storage/src/in-memory-event-store.ts: the result of appendEventResult, and repeated calls.
use deliberum.Prelude.{
  ◌+◌, String, ◌≡◌, refl, sym, ap, ◌∙◌, ◌≢◌, ◌↔◌, inl, inr, true, false, ◌&&◌, some, [], ◌∷◌, ◌++◌,
  eq_refl, ◌==◌, if◌then◌else◌, Bool-cases,
}
use deliberum.Errors.{Error, ok, err, ok_injective, invalid_event_input}
use deliberum.Protocol.Events.{EventEnvelope, AppendEventInput, AppendEventInput-discrete}
use deliberum.Protocol.Host.{Host}
use deliberum.Storage.Idempotency.{to_comparable, is_compatible_idempotent_event_input}
use deliberum.Storage.Memory.{
  InMemoryEventStore, AppendEventResult, create_idempotency_lookup_key, find_existing, replay_event,
  store_event, link_event, append_event_result, append_or_replay, list_events,
}
use deliberum.Storage.Memory.Outcome.{refused, replayed, appended, append-Outcome}
use deliberum.Storage.Memory.Effect.{get_session_events-store_event, find_existing-store_event}
use deliberum.Storage.Memory.Consistent.{input-link_event}

pub compatible_iff :
    (a b : AppendEventInput)
    → (is_compatible_idempotent_event_input a b ≡ true) ↔ (to_comparable a ≡ to_comparable b)
unfolding is_compatible_idempotent_event_input
compatible_iff a b =
    elim (AppendEventInput-discrete (to_comparable a) (to_comparable b))
      as (λ d.
        ((elim d [ yes _ ↦ true | no _ ↦ false ]) ≡ true) ↔ (to_comparable a ≡ to_comparable b)) [
          | yes p ↦ (λ _. p, λ _. refl)
          | no n ↦ (λ e. cc, λ p. absurd (n p))
        ]

-- An append that throws changes no map of the store.
pub append_event_result_error :
    (h : Host) (input : AppendEventInput) (s : InMemoryEventStore) (e : Error)
    → (append_event_result h input s).0 ≡ err e
    → (append_event_result h input s).1
      ≡ record s { clock_reads = (append_event_result h input s).1.clock_reads }
append_event_result_error h input s e failed = elim (append-Outcome h input s) [
  | refused x n out ↦ rw out
  | replayed x found same out ↦ rw out
  | appended free fresh fine out ↦ cc (ap (λ o. o.0) out)
]

pub list_events-store_event :
    (h : Host) (input : AppendEventInput) (s : InMemoryEventStore) (sid : String)
    → list_events
        (store_event
          (create_idempotency_lookup_key input)
          (link_event h input s)
          (record s { clock_reads = s.clock_reads + 1 }))
        sid
      ≡ (if input.session_id == sid
          then list_events s sid ++ link_event h input s ∷ []
          else list_events s sid)
unfolding list_events link_event
list_events-store_event h input s sid =
    get_session_events-store_event (create_idempotency_lookup_key input) (link_event h input s)
      (record s { clock_reads = s.clock_reads + 1 }) sid

-- Only the event that is returned as appended comes to the end of its session.
pub list_events-append_event_result :
    (h : Host) (input : AppendEventInput) (s : InMemoryEventStore) (r : AppendEventResult)
    (sid : String)
    → (append_event_result h input s).0 ≡ ok r
    → list_events (append_event_result h input s).1 sid ≡ (
        if r.appended && input.session_id == sid
        then list_events s sid ++ r.event ∷ []
        else list_events s sid)
list_events-append_event_result h input s r sid done = elim (append-Outcome h input s) [
  | refused x n out ↦ cc (ap (λ o. o.0) out)
  | replayed x found same out ↦
      let p =
        ok_injective (record { event = x; appended = false }) r (sym (ap (λ o. o.0) out) ∙ done) in
      rw (out, ← p)
  | appended free fresh fine out ↦
      let p =
        ok_injective (record { event = link_event h input s; appended = true }) r
          (sym (ap (λ o. o.0) out) ∙ done) in
      rw (out, ← p) (list_events-store_event h input s sid)
]

-- The event that an append returns as appended holds the input.
pub appended_event :
    (h : Host) (x : AppendEventInput) (s : InMemoryEventStore) (r : AppendEventResult)
    → (append_event_result h x s).0 ≡ ok r
    → r.appended ≡ true
    → r.event.input ≡ x
appended_event h x s r done new = elim (append-Outcome h x s) [
  | refused e n out ↦ cc (ap (λ o. o.0) out)
  | replayed e found same out ↦
      let p =
        ok_injective (record { event = e; appended = false }) r (sym (ap (λ o. o.0) out) ∙ done) in
      cc (ap (λ y. y.appended) p)
  | appended free fresh fine out ↦
      let p =
        ok_injective (record { event = link_event h x s; appended = true }) r
          (sym (ap (λ o. o.0) out) ∙ done) in
      ap (λ y. y.event.input) (sym p) ∙ input-link_event h x s
]

module _ (h : Host) (again : AppendEventInput) (t : InMemoryEventStore) (x : EventEnvelope)
    (k : String) where
  replay_found :
      find_existing t (some k) ≡ some x
      → create_idempotency_lookup_key again ≡ some k
      → to_comparable x.input ≡ to_comparable again
      → append_event_result h again t ≡ (ok (record { event = x; appended = false }), t)
  unfolding append_event_result append_or_replay replay_event
  replay_found found key same = rw (key, found, (compatible_iff x.input again).1 same)

found_after :
    (h : Host) (input : AppendEventInput) (s : InMemoryEventStore) (k : String)
    → create_idempotency_lookup_key input ≡ some k
    → find_existing
        (store_event
          (create_idempotency_lookup_key input)
          (link_event h input s)
          (record s { clock_reads = s.clock_reads + 1 }))
        (some k)
      ≡ some (link_event h input s)
found_after h input s k key = rw (
  find_existing-store_event (create_idempotency_lookup_key input) (link_event h input s)
      (record s { clock_reads = s.clock_reads + 1 }) k,
  key,
  eq_refl k,
)

pub append_event_result_retry :
    (h : Host) (input again : AppendEventInput) (s : InMemoryEventStore) (r : AppendEventResult)
    (k : String)
    → (append_event_result h input s).0 ≡ ok r
    → create_idempotency_lookup_key input ≡ some k
    → create_idempotency_lookup_key again ≡ some k
    → to_comparable input ≡ to_comparable again
    → append_event_result h again (append_event_result h input s).1
      ≡ (ok (record { event = r.event; appended = false }), (append_event_result h input s).1)
append_event_result_retry h input again s r k done key key' same = elim (append-Outcome h input s) [
  | refused x n out ↦ cc (ap (λ o. o.0) out)
  | replayed x found fits out ↦
      let p =
        ok_injective (record { event = x; appended = false }) r (sym (ap (λ o. o.0) out) ∙ done) in
      rw (out, ← p)
        (replay_found h again s x k (rw key at found) key'
          ((compatible_iff x.input input).0 fits ∙ same))
  | appended free fresh fine out ↦
      let p =
        ok_injective (record { event = link_event h input s; appended = true }) r
          (sym (ap (λ o. o.0) out) ∙ done) in
      rw (out, ← p)
        (replay_found h again
          (store_event (create_idempotency_lookup_key input) (link_event h input s)
            (record s { clock_reads = s.clock_reads + 1 }))
          (link_event h input s) k
          (rw (
            find_existing-store_event (create_idempotency_lookup_key input) (link_event h input s)
                (record s { clock_reads = s.clock_reads + 1 }) k,
            key,
            eq_refl k,
          ))
          key' (rw (input-link_event h input s) same))
]

module _ (h : Host) (again : AppendEventInput) (t : InMemoryEventStore) (x : EventEnvelope)
    (k : String) where
  conflict_found :
      find_existing t (some k) ≡ some x
      → create_idempotency_lookup_key again ≡ some k
      → to_comparable x.input ≢ to_comparable again
      → append_event_result h again t ≡ (err invalid_event_input, t)
  unfolding append_event_result append_or_replay replay_event
  conflict_found found key other =
      elim (Bool-cases (is_compatible_idempotent_event_input x.input again)) [
        | inl same ↦ absurd (other ((compatible_iff x.input again).0 same))
        | inr differs ↦ rw (key, found, differs)
      ]

pub append_event_result_conflict :
    (h : Host) (input again : AppendEventInput) (s : InMemoryEventStore) (r : AppendEventResult)
    (k : String)
    → (append_event_result h input s).0 ≡ ok r
    → create_idempotency_lookup_key input ≡ some k
    → create_idempotency_lookup_key again ≡ some k
    → to_comparable input ≢ to_comparable again
    → append_event_result h again (append_event_result h input s).1
      ≡ (err invalid_event_input, (append_event_result h input s).1)
append_event_result_conflict h input again s r k done key key' other =
    elim (append-Outcome h input s) [
      | refused x n out ↦ cc (ap (λ o. o.0) out)
      | replayed x found fits out ↦ rw out (
          conflict_found h again s x k (rw key at found) key'
            (λ q. other (sym ((compatible_iff x.input input).0 fits) ∙ q)))
      | appended free fresh fine out ↦ rw out (
          conflict_found h again
            (store_event (create_idempotency_lookup_key input) (link_event h input s)
              (record s { clock_reads = s.clock_reads + 1 }))
            (link_event h input s) k (found_after h input s k key) key'
            (λ q. other (ap to_comparable (sym (input-link_event h input s)) ∙ q)))
    ]
