-- ===== src/Core/ExtractionProposals/Again.antt =====
-- acceptProposal of packages/core/src/extraction-proposals.ts, called again under its key.
use deliberum.Prelude.{
  ◌+◌, String, ◌+++◌, ◌≡◌, refl, sym, ap, ◌∙◌, inl, inr, true, false, some, arith, ◌==◌,
  Option-cases,
}
use deliberum.Errors.{ok}
use deliberum.Protocol.Common.{non_empty_string}
use deliberum.Protocol.Proposals.{proposal_acceptance_payload_schema}
use deliberum.Protocol.Events.{AppendEventInput, EventEnvelope}
use deliberum.Protocol.Host.{Host}
use deliberum.Storage.Idempotency.{to_comparable}
use deliberum.Storage.Memory.{
  InMemoryEventStore, AppendEventResult, get_event, append_event_result,
  create_idempotency_lookup_key,
}
use deliberum.Storage.Memory.Append.{append_event_result_retry}
use deliberum.Core.World.{World}
use deliberum.Core.ProcessProposals.Keeps.{same_options, get_event-append}
use deliberum.Core.ProcessProposals.Retry.{written}
use deliberum.Core.ExtractionProposals.Accept.{event_of, Accepts, accept_run, accept_passes}
use deliberum.Core.ExtractionProposals.{
  AcceptProposalInput, acceptance_payload, accepted_input, accept_proposal,
  get_target_extraction_proposal_event,
}

target-append :
    (h : Host) (x : AppendEventInput) (s : InMemoryEventStore) (sid target : String)
    (e : EventEnvelope)
    → get_target_extraction_proposal_event s sid target ≡ ok e
    → get_target_extraction_proposal_event (append_event_result h x s).1 sid target ≡ ok e
unfolding get_target_extraction_proposal_event
target-append h x s sid target e done = elim (Option-cases (get_event s target)) [
  | inl n ↦ cc (rw n at done)
  | inr y ↦ rw (get_event-append h x s target y.0 y.1) (rw y.1 at done)
]

-- Another payload id passes as well if it is not empty.
schema_other :
    (input : AcceptProposalInput) (target : EventEnvelope) (i j : String)
    → proposal_acceptance_payload_schema (acceptance_payload input target i) ≡ true
    → non_empty_string j ≡ true
    → proposal_acceptance_payload_schema (acceptance_payload input target j) ≡ true
unfolding proposal_acceptance_payload_schema
schema_other input target i j e filled = ground arith

module _ (h : Host) (input : AcceptProposalInput) (target : EventEnvelope) where
  same_event :
      (w v : World)
      → to_comparable (event_of h input w target) ≡ to_comparable (event_of h input v target)
  unfolding to_comparable accepted_input
  same_event w v = refl

  lookup_key :
      (w : World) (k : String)
      → input.idempotency_key ≡ some k
      → (k == "") ≡ false
      → create_idempotency_lookup_key (event_of h input w target)
        ≡ some (input.session_id +++ (":" +++ k))
  unfolding create_idempotency_lookup_key accepted_input
  lookup_key w k key named = rw (key, named) refl

  accept_again :
      (w : World) (r : AppendEventResult) (k : String)
      → Accepts h input w target
      → (append_event_result h (event_of h input w target) w.store).0 ≡ ok r
      → input.idempotency_key ≡ some k
      → (k == "") ≡ false
      → non_empty_string (h.id_generator (w.id_calls + 1 + 1)) ≡ true
      → let out = append_event_result h (event_of h input w target) w.store in
        accept_proposal h input (written out (w.id_calls + 1 + 1) (w.clock_calls + 1)).1
        ≡ written
            (ok (record { event = r.event; appended = false }), out.1)
            (w.id_calls + 1 + 1 + 1 + 1)
            (w.clock_calls + 1 + 1)
  accept_again w r k passes done key named filled =
      let a = event_of h input w target in
      let v =
        (written (append_event_result h a w.store) (w.id_calls + 1 + 1) (w.clock_calls + 1)).1 in
      accept_run h input v target (
        same_options h w v passes.0,
        target-append h a w.store input.session_id input.target_proposal_event_id target passes.1,
        schema_other input target (h.id_generator w.id_calls) (h.id_generator (w.id_calls + 1 + 1))
            passes.2 filled,
      )
      ∙ ap (λ o. written o (w.id_calls + 1 + 1 + 1 + 1) (w.clock_calls + 1 + 1))
          (append_event_result_retry h a (event_of h input v target) w.store r
            (input.session_id +++ (":" +++ k)) done (lookup_key w k key named)
            (lookup_key v k key named) (same_event w v))

-- Repeating an acceptance under its own non-empty key returns the stored event as not appended and
-- leaves the event store as it is, if the generator gives the second payload a non-empty id.
pub accept_proposal_retry :
    (h : Host) (input : AcceptProposalInput) (w : World) (r : AppendEventResult) (k : String)
    → (accept_proposal h input w).0 ≡ ok r
    → input.idempotency_key ≡ some k
    → (k == "") ≡ false
    → non_empty_string (h.id_generator (w.id_calls + 1 + 1)) ≡ true
    → ((accept_proposal h input (accept_proposal h input w).1).0
        ≡ ok (record { event = r.event; appended = false }))
      × ((accept_proposal h input (accept_proposal h input w).1).1.store
          ≡ (accept_proposal h input w).1.store)
accept_proposal_retry h input w r k done key named filled =
    let passed = accept_passes h input w r done in
    let first = accept_run h input w passed.0 passed.1 in
    let again =
      accept_again h input passed.0 w r k passed.1 (ap (λ o. o.0) (sym first) ∙ done) key named
        filled in
    rw (first, again) (refl, refl)
