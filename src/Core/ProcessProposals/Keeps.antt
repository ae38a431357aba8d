-- ===== src/Core/ProcessProposals/Keeps.antt =====
-- What an append to the store keeps of the checks that came before it.
use deliberum.Prelude.{
  ◌+◌, String, ◌≡◌, refl, ap, inl, inr, Bool, true, false, some, List, [], ◌∷◌, arith, eq_iff,
  Bool-cases, Option-cases,
}
use deliberum.Errors.{ok, ◌>>◌, require, missing_session_dependency}
use deliberum.Protocol.Events.{AppendEventInput, EventEnvelope}
use deliberum.Protocol.Host.{Host}
use deliberum.Storage.Memory.{
  InMemoryEventStore, get_event, append_event_result, link_event, create_idempotency_lookup_key,
}
use deliberum.Storage.Memory.Outcome.{refused, replayed, appended, append-Outcome}
use deliberum.Storage.Memory.Effect.{by_id-store_event}
use deliberum.Storage.Memory.Consistent.{input-link_event}
use deliberum.Core.World.{World, assert_options}
use deliberum.Core.ProcessProposals.{
  is_in_session, assert_basis_events_exist, get_target_process_proposal_event,
}

same_flags :
    (a b : Bool) (w v : World)
    → (require a missing_session_dependency >> require b missing_session_dependency) w ≡ (ok tt, w)
    → (require a missing_session_dependency >> require b missing_session_dependency) v ≡ (ok tt, v)
same_flags true true w v e = refl
same_flags true false w v e = cc (ap (λ o. o.0) e)
same_flags false b w v e = cc (ap (λ o. o.0) e)

pub same_options :
    (h : Host) (w v : World) → assert_options h w ≡ (ok tt, w) → assert_options h v ≡ (ok tt, v)
unfolding assert_options
same_options h w v e = same_flags h.has_event_store h.has_id_generator w v e

-- An append forgets no event.
pub get_event-append :
    (h : Host) (input : AppendEventInput) (s : InMemoryEventStore) (k : String) (e : EventEnvelope)
    → get_event s k ≡ some e
    → get_event (append_event_result h input s).1 k ≡ some e
unfolding get_event
get_event-append h input s k e found = elim (append-Outcome h input s) [
  | refused x n out ↦ rw out found
  | replayed x f same out ↦ rw out found
  | appended free fresh fine out ↦ rw out (
      ground (
        arith,
        by_id-store_event (create_idempotency_lookup_key input) (link_event h input s)
            (record s { clock_reads = s.clock_reads + 1 }) k,
        eq_iff (link_event h input s).id k,
        ap (λ x. x.id) (input-link_event h input s),
      ))
]

pub basis-append :
    (h : Host) (input : AppendEventInput) (s : InMemoryEventStore) (sid : String)
    (ids : List String)
    → assert_basis_events_exist s sid ids ≡ ok tt
    → assert_basis_events_exist (append_event_result h input s).1 sid ids ≡ ok tt
unfolding assert_basis_events_exist
basis-append h input s sid [] done = refl
basis-append h input s sid (i ∷ ids) done = elim (Option-cases (get_event s i)) [
  | inl n ↦ cc (rw n at done)
  | inr y ↦ elim (Bool-cases (is_in_session sid (some y.0))) [
    | inl q ↦
        rw (get_event-append h input s i y.0 y.1, q)
          (basis-append h input s sid ids (rw (y.1, q) at done))
    | inr q ↦ cc (rw (y.1, q) at done)
  ]
]

pub target-append :
    (h : Host) (input : AppendEventInput) (s : InMemoryEventStore) (sid target : String)
    (e : EventEnvelope)
    → get_target_process_proposal_event s sid target ≡ ok e
    → get_target_process_proposal_event (append_event_result h input s).1 sid target ≡ ok e
unfolding get_target_process_proposal_event
target-append h input s sid target e done = elim (Option-cases (get_event s target)) [
  | inl n ↦ cc (rw n at done)
  | inr y ↦ rw (get_event-append h input s target y.0 y.1) (rw y.1 at done)
]
