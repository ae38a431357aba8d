-- ===== src/Core/Session/Published.antt =====
-- createSession of packages/core/src/session.ts on a consistent store.
use deliberum.Prelude.{
  ◌+◌, ◌≡◌, refl, sym, ap, ◌∙◌, inl, inr, true, Option, none, some, [], ◌∷◌, ◌++◌, eq_refl,
  Bool-cases, length,
}
use deliberum.Errors.{ok, Result-cases, ok_injective}
use deliberum.Protocol.Core.{TopicContract, topic_contract_schema}
use deliberum.Protocol.Events.{AppendEventInput, topic_contract}
use deliberum.Protocol.Host.{Host}
use deliberum.Storage.Memory.{
  InMemoryEventStore, AppendEventResult, append_event_result, list_events, link_event,
  create_idempotency_lookup_key, find_existing,
}
use deliberum.Storage.Memory.Outcome.{refused, replayed, appended, append-Outcome}
use deliberum.Storage.Memory.Consistent.{IsConsistent, input-link_event, sequence-link_event}
use deliberum.Storage.Memory.Append.{list_events-append_event_result}
use deliberum.Core.World.{World, assert_options-cases, append, next_id, get_clock}
use deliberum.Core.Session.{
  CreateSessionInput, CreateSessionResult, parse_topic_contract, published_input, create_session,
}

-- An append without a key that returns has stored a new event.
appended_unkeyed :
    (h : Host) (x : AppendEventInput) (s : InMemoryEventStore) (r : AppendEventResult)
    → IsConsistent h.digest s
    → x.idempotency_key ≡ none
    → (append_event_result h x s).0 ≡ ok r
    → (r.appended ≡ true)
      × (r.event.input ≡ x)
      × (r.event.sequence ≡ length (list_events s x.session_id))
unfolding create_idempotency_lookup_key find_existing list_events
appended_unkeyed h x s r c unkeyed done = elim (append-Outcome h x s) [
  | refused e n out ↦ cc (ap (λ o. o.0) out)
  | replayed e found same out ↦ cc (rw unkeyed at found)
  | appended free fresh fine out ↦
      let p =
        ok_injective (record { event = link_event h x s; appended = true }) r
          (sym (ap (λ o. o.0) out) ∙ done) in
      (
        ap (λ y. y.appended) (sym p),
        ap (λ y. y.event.input) (sym p) ∙ input-link_event h x s,
        ap (λ y. y.event.sequence) (sym p) ∙ (sequence-link_event h x s ∙ c.next x.session_id),
      )
]

-- The input that a session is created with.
abbrev first_input : Host → World → TopicContract → AppendEventInput
first_input h w c =
    published_input h (h.id_generator w.id_calls) (h.id_generator (w.id_calls + 1))
      (h.clock w.clock_calls) c

parsed_contract :
    (o : Option TopicContract) (c : TopicContract) → parse_topic_contract o ≡ ok c → o ≡ some c
unfolding parse_topic_contract
parsed_contract none c e = cc e
parsed_contract (some d) c e = elim (Bool-cases (topic_contract_schema d)) [
  | inl y ↦ cc (rw y at e)
  | inr n ↦ cc (rw n at e)
]

unkeyed_input :
    (h : Host) (w : World) (c : TopicContract) → (first_input h w c).idempotency_key ≡ none
unfolding published_input
unkeyed_input h w c = refl

module _ (h : Host) (input : CreateSessionInput) (w : World) (out : CreateSessionResult) where
  create_passes :
      (create_session h input w).0 ≡ ok out
      → (c : TopicContract) × (r : AppendEventResult) × (input.topic_contract ≡ some c)
        × ((append_event_result h (first_input h w c) w.store).0 ≡ ok r)
        × (out ≡ record { session_id = h.id_generator w.id_calls; initial_event = r.event })
        × ((create_session h input w).1.store
            ≡ (append_event_result h (first_input h w c) w.store).1)
  unfolding create_session next_id get_clock append
  create_passes done = elim (assert_options-cases h w) [
    | inr e ↦ cc (rw e at done)
    | inl e ↦ elim (Result-cases (parse_topic_contract input.topic_contract)) [
      | inr bad ↦ cc (rw (e, bad.1) at done)
      | inl good ↦ elim (Result-cases (append_event_result h (first_input h w good.0) w.store).0) [
        | inr bad ↦ cc (rw (e, good.1, bad.1) at done)
        | inl r ↦ (
          good.0,
          r.0,
          parsed_contract input.topic_contract good.0 good.1,
          r.1,
          sym (
              ok_injective
                (record { session_id = h.id_generator w.id_calls; initial_event = r.0.event }) out
                (rw (e, good.1, r.1) at done)),
          rw (e, good.1, r.1) refl,
        )
      ]
    ]
  ]

-- On a consistent store, a session that is created bears the first generated id, and its initial
-- event, which publishes the contract, comes last in it and is numbered by the events before it.
pub create_session-publishes :
    (h : Host) (input : CreateSessionInput) (w : World) (out : CreateSessionResult)
    → IsConsistent h.digest w.store
    → (create_session h input w).0 ≡ ok out
    → (c : TopicContract) × (input.topic_contract ≡ some c)
      × (out.session_id ≡ h.id_generator w.id_calls)
      × (out.initial_event.payload ≡ topic_contract c)
      × (out.initial_event.sequence ≡ length (list_events w.store out.session_id))
      × (list_events (create_session h input w).1.store out.session_id
          ≡ list_events w.store out.session_id ++ out.initial_event ∷ [])
unfolding published_input
create_session-publishes h input w out consistent done =
    let p = create_passes h input w out done in
    let x = first_input h w p.0 in
    let u = appended_unkeyed h x w.store p.1 consistent (unkeyed_input h w p.0) p.3 in
    let id : out.session_id ≡ h.id_generator w.id_calls =
      ap (λ (o : CreateSessionResult). o.session_id) p.4 in
    (
      p.0,
      p.2,
      id,
      ap (λ (o : CreateSessionResult). o.initial_event.payload) p.4
          ∙ ap (λ (i : AppendEventInput). i.payload) u.1,
      ap (λ (o : CreateSessionResult). o.initial_event.sequence) p.4
          ∙ (u.2 ∙ ap (λ i. length (list_events w.store i)) (sym id)),
      ap (λ (o : CreateSessionResult). list_events (create_session h input w).1.store o.session_id)
            p.4
          ∙ (ap (λ s. list_events s (h.id_generator w.id_calls)) p.5
              ∙ (list_events-append_event_result h x w.store p.1 (h.id_generator w.id_calls) p.3
                  ∙ (rw (u.0, eq_refl (h.id_generator w.id_calls)) refl
                      ∙ sym (
                          ap
                            (λ (o : CreateSessionResult).
                              list_events w.store o.session_id ++ o.initial_event ∷ [])
                            p.4)))),
    )
