-- ===== src/Core/ProcessProposals/Conflict.antt =====
-- challengeProcessProposal of packages/core/src/process-proposals.ts, called again under its key.
use deliberum.Prelude.{
  ℕ, ◌+◌, String, ◌+++◌, ◌≡◌, refl, sym, ap, ◌∙◌, ◌≢◌, inl, inr, true, false, some, arith, ◌==◌,
  Bool-cases,
}
use deliberum.Errors.{Result-cases, ok, err, invalid_event_input}
use deliberum.Protocol.Common.{non_empty_string}
use deliberum.Protocol.Proposals.{
  ProcessProposalChallengePayload, process_proposal_challenge_payload_schema,
}
use deliberum.Protocol.Common.{text, object, field}
use deliberum.Protocol.Events.{json}
use deliberum.Protocol.Events.{Payload, AppendEventInput, EventEnvelope}
use deliberum.Protocol.Host.{Host}
use deliberum.Storage.Memory.{AppendEventResult, append_event_result, create_idempotency_lookup_key}
use deliberum.Storage.Memory.Append.{append_event_result_conflict}
use deliberum.Storage.Idempotency.{to_comparable}
use deliberum.Core.ProcessProposals.Keeps.{same_options, target-append}
use deliberum.Core.ProcessProposals.Retry.{written}
use deliberum.Core.World.{World, assert_options, assert_options-cases, append, next_id, get_clock}
use deliberum.Core.ProcessProposals.{
  ChallengeProcessProposalInput, parse_process_proposal_challenge_payload,
  get_target_process_proposal_event, challenged_input, challenge_payload,
  challenge_process_proposal,
}

-- The first of a compared challenge's keys is its id.
abbrev payload_id : Payload → String
payload_id (json (object (field k (text id) fs))) = id
payload_id _ = ""

abbrev challenge_event_of :
    Host → ChallengeProcessProposalInput → EventEnvelope → ℕ → ℕ → AppendEventInput
challenge_event_of h input target n m =
    challenged_input h input target (h.id_generator (n + 1)) (h.clock m)
      (challenge_payload input target (h.id_generator n))

-- What a challenge that succeeds has passed.
abbrev Challenges : Host → ChallengeProcessProposalInput → World → EventEnvelope → Type 0
Challenges h input w target =
    (assert_options h w ≡ (ok tt, w))
    × (get_target_process_proposal_event w.store input.session_id
          input.target_process_proposal_event_id
        ≡ ok target)
    × (parse_process_proposal_challenge_payload
          (challenge_payload input target (h.id_generator w.id_calls))
        ≡ ok (challenge_payload input target (h.id_generator w.id_calls)))

parsed_payload :
    (p q : ProcessProposalChallengePayload)
    → parse_process_proposal_challenge_payload p ≡ ok q
    → q ≡ p
unfolding parse_process_proposal_challenge_payload
parsed_payload p q e = elim (Bool-cases (process_proposal_challenge_payload_schema p)) [
  | inl y ↦ cc (rw y at e)
  | inr n ↦ cc (rw n at e)
]

-- Another payload id passes as well if it is not empty.
parse_other :
    (input : ChallengeProcessProposalInput) (target : EventEnvelope) (i j : String)
    → parse_process_proposal_challenge_payload (challenge_payload input target i)
      ≡ ok (challenge_payload input target i)
    → non_empty_string j ≡ true
    → parse_process_proposal_challenge_payload (challenge_payload input target j)
      ≡ ok (challenge_payload input target j)
unfolding parse_process_proposal_challenge_payload process_proposal_challenge_payload_schema
parse_other input target i j e filled = ground arith

module _ (h : Host) (input : ChallengeProcessProposalInput) where
  challenge_run :
      (w : World) (target : EventEnvelope)
      → Challenges h input w target
      → challenge_process_proposal h input w
        ≡ written
            (append_event_result h
              (challenge_event_of h input target w.id_calls w.clock_calls)
              w.store)
            (w.id_calls + 1 + 1)
            (w.clock_calls + 1)
  unfolding challenge_process_proposal next_id get_clock append
  challenge_run w target passes = rw (passes.0, passes.1, passes.2) refl

  challenge_passes :
      (w : World) (r : AppendEventResult)
      → (challenge_process_proposal h input w).0 ≡ ok r
      → (target : EventEnvelope) × Challenges h input w target
  unfolding challenge_process_proposal next_id
  challenge_passes w r done = elim (assert_options-cases h w) [
    | inr e ↦ cc (rw e at done)
    | inl e ↦
        elim (Result-cases (
          get_target_process_proposal_event w.store input.session_id
            input.target_process_proposal_event_id)) [
              | inr bad ↦ cc (rw (e, bad.1) at done)
              | inl good ↦
                  elim (Result-cases (
                    parse_process_proposal_challenge_payload
                      (challenge_payload input good.0 (h.id_generator w.id_calls)))) [
                        | inr bad ↦ cc (rw (e, good.1, bad.1) at done)
                        | inl fine ↦ (
                          good.0,
                          (
                            e,
                            good.1,
                            fine.1
                                ∙ ap ok (
                                    parsed_payload
                                      (challenge_payload input good.0 (h.id_generator w.id_calls))
                                      fine.0 fine.1),
                          ),
                        )
                      ]
            ]
  ]

  lookup_key :
      (target : EventEnvelope) (n m : ℕ) (k : String)
      → input.idempotency_key ≡ some k
      → (k == "") ≡ false
      → create_idempotency_lookup_key (challenge_event_of h input target n m)
        ≡ some (input.session_id +++ (":" +++ k))
  unfolding create_idempotency_lookup_key challenged_input
  lookup_key target n m k key named = rw (key, named) refl

  -- The comparison sees the payload id.
  other_event :
      (target : EventEnvelope) (n m i j : ℕ)
      → h.id_generator n ≢ h.id_generator i
      → to_comparable (challenge_event_of h input target n m)
        ≢ to_comparable (challenge_event_of h input target i j)
  unfolding to_comparable challenged_input
  other_event target n m i j other q = other (ap (λ e. payload_id e.payload) q)

  challenge_again :
      (w : World) (target : EventEnvelope) (r : AppendEventResult) (k : String)
      → Challenges h input w target
      → (append_event_result h
          (challenge_event_of h input target w.id_calls w.clock_calls)
          w.store).0
        ≡ ok r
      → input.idempotency_key ≡ some k
      → (k == "") ≡ false
      → non_empty_string (h.id_generator (w.id_calls + 1 + 1)) ≡ true
      → h.id_generator w.id_calls ≢ h.id_generator (w.id_calls + 1 + 1)
      → let out =
          append_event_result h
            (challenge_event_of h input target w.id_calls w.clock_calls)
            w.store in
        challenge_process_proposal h input (written out (w.id_calls + 1 + 1) (w.clock_calls + 1)).1
        ≡ written
            (err invalid_event_input, out.1)
            (w.id_calls + 1 + 1 + 1 + 1)
            (w.clock_calls + 1 + 1)
  challenge_again w target r k passes done key named filled other =
      let a = challenge_event_of h input target w.id_calls w.clock_calls in
      let b = challenge_event_of h input target (w.id_calls + 1 + 1) (w.clock_calls + 1) in
      let v =
        (written (append_event_result h a w.store) (w.id_calls + 1 + 1) (w.clock_calls + 1)).1 in
      challenge_run v target (
        same_options h w v passes.0,
        target-append h a w.store input.session_id input.target_process_proposal_event_id target
            passes.1,
        parse_other input target (h.id_generator w.id_calls) (h.id_generator (w.id_calls + 1 + 1))
            passes.2 filled,
      )
      ∙ ap (λ o. written o (w.id_calls + 1 + 1 + 1 + 1) (w.clock_calls + 1 + 1))
          (append_event_result_conflict h a b w.store r (input.session_id +++ (":" +++ k)) done
            (lookup_key target w.id_calls w.clock_calls k key named)
            (lookup_key target (w.id_calls + 1 + 1) (w.clock_calls + 1) k key named)
            (other_event target w.id_calls w.clock_calls (w.id_calls + 1 + 1) (w.clock_calls + 1)
              other))

-- Repeating a challenge under its own non-empty key throws when the generator gives the second
-- payload an id that is neither empty nor the first one's.
pub challenge_process_proposal_retry :
    (h : Host) (input : ChallengeProcessProposalInput) (w : World) (r : AppendEventResult)
    (k : String)
    → (challenge_process_proposal h input w).0 ≡ ok r
    → input.idempotency_key ≡ some k
    → (k == "") ≡ false
    → non_empty_string (h.id_generator (w.id_calls + 1 + 1)) ≡ true
    → h.id_generator w.id_calls ≢ h.id_generator (w.id_calls + 1 + 1)
    → (challenge_process_proposal h input (challenge_process_proposal h input w).1).0
      ≡ err invalid_event_input
challenge_process_proposal_retry h input w r k done key named filled other =
    let passed = challenge_passes h input w r done in
    let first = challenge_run h input w passed.0 passed.1 in
    let again =
      challenge_again h input w passed.0 r k passed.1 (ap (λ o. o.0) (sym first) ∙ done) key named
        filled other in
    rw (first, again) refl
