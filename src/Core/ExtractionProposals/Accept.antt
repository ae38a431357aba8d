-- ===== src/Core/ExtractionProposals/Accept.antt =====
-- acceptProposal of packages/core/src/extraction-proposals.ts: its checks and what it stores.
use deliberum.Prelude.{
  ◌+◌, String, ◌≡◌, refl, ap, ◌∙◌, inl, inr, true, some, eq_iff, ◌==◌, Bool-cases, Option-cases,
}
use mathlib.Core.Path.{subst}
use deliberum.Errors.{ok, Result-cases, ok_injective}
use deliberum.Protocol.Proposals.{
  ExtractionProposal, ProposalAcceptancePayload, proposal_acceptance_payload_schema,
}
use deliberum.Protocol.Events.{AppendEventInput, EventEnvelope}
use deliberum.Protocol.Host.{Host}
use deliberum.Storage.Memory.{InMemoryEventStore, AppendEventResult, get_event, append_event_result}
use deliberum.Core.World.{World, assert_options, assert_options-cases, append, next_id, get_clock}
use deliberum.Core.Projections.{safe_parse_extraction_proposal, extraction_proposed}
use deliberum.Core.ExtractionProposals.{
  AcceptProposalInput, acceptance_payload, accepted_input, accept_proposal,
  parse_proposal_acceptance_payload, check_extraction_target, get_target_extraction_proposal_event,
}

abbrev pub event_of : Host → AcceptProposalInput → World → EventEnvelope → AppendEventInput
event_of h input w target =
    accepted_input h input target (h.id_generator (w.id_calls + 1)) (h.clock w.clock_calls)
      (acceptance_payload input target (h.id_generator w.id_calls))

-- What an acceptance that succeeds has passed.
abbrev pub Accepts : Host → AcceptProposalInput → World → EventEnvelope → Type 0
Accepts h input w target =
    (assert_options h w ≡ (ok tt, w))
    × (get_target_extraction_proposal_event w.store input.session_id input.target_proposal_event_id
        ≡ ok target)
    × (proposal_acceptance_payload_schema
          (acceptance_payload input target (h.id_generator w.id_calls))
        ≡ true)

parsed_payload :
    (p q : ProposalAcceptancePayload)
    → parse_proposal_acceptance_payload p ≡ ok q
    → proposal_acceptance_payload_schema p ≡ true
unfolding parse_proposal_acceptance_payload
parsed_payload p q e = elim (Bool-cases (proposal_acceptance_payload_schema p)) [
  | inl y ↦ y
  | inr n ↦ cc (rw n at e)
]

parse_fine :
    (p : ProposalAcceptancePayload)
    → proposal_acceptance_payload_schema p ≡ true
    → parse_proposal_acceptance_payload p ≡ ok p
unfolding parse_proposal_acceptance_payload
parse_fine p e = rw e refl

module _ (h : Host) (input : AcceptProposalInput) (w : World) where
  pub accept_run :
      (target : EventEnvelope)
      → Accepts h input w target
      → accept_proposal h input w ≡ (
        (append_event_result h (event_of h input w target) w.store).0,
        record {
          store = (append_event_result h (event_of h input w target) w.store).1;
          id_calls = w.id_calls + 1 + 1;
          clock_calls = w.clock_calls + 1;
        },
      )
  unfolding accept_proposal next_id get_clock append
  accept_run target passes =
      rw
        (
          passes.0,
          passes.1,
          parse_fine (acceptance_payload input target (h.id_generator w.id_calls)) passes.2,
        )
        refl

  pub accept_passes :
      (r : AppendEventResult)
      → (accept_proposal h input w).0 ≡ ok r
      → (target : EventEnvelope) × Accepts h input w target
  unfolding accept_proposal next_id get_clock
  accept_passes r done = elim (assert_options-cases h w) [
    | inr e ↦ cc (rw e at done)
    | inl e ↦
        elim (Result-cases (
          get_target_extraction_proposal_event w.store input.session_id
            input.target_proposal_event_id)) [
              | inr bad ↦ cc (rw (e, bad.1) at done)
              | inl good ↦
                  elim (Result-cases (
                    parse_proposal_acceptance_payload
                      (acceptance_payload input good.0 (h.id_generator w.id_calls)))) [
                        | inr bad ↦ cc (rw (e, good.1, bad.1) at done)
                        | inl fine ↦ (
                          good.0,
                          (
                            e,
                            good.1,
                            parsed_payload
                                (acceptance_payload input good.0 (h.id_generator w.id_calls)) fine.0
                                fine.1,
                          ),
                        )
                      ]
            ]
  ]

-- The event is a well-formed proposal event of the session.
abbrev pub IsProposal : String → EventEnvelope → Type 0
IsProposal sid e =
    (e.session_id ≡ sid)
    × (e.type ≡ extraction_proposed)
    × ((q : ExtractionProposal) × (safe_parse_extraction_proposal e.payload ≡ some q))

checked_target :
    (sid target : String) (y e : EventEnvelope)
    → check_extraction_target sid target (some y) ≡ ok e
    → (y ≡ e) × IsProposal sid y
unfolding check_extraction_target
checked_target sid target y e done = elim (Bool-cases (y.session_id == sid)) [
  | inr n ↦ cc (rw n at done)
  | inl a ↦ elim (Bool-cases (y.type == extraction_proposed)) [
    | inr n ↦ cc (rw (a, n) at done)
    | inl b ↦ elim (Option-cases (safe_parse_extraction_proposal y.payload)) [
      | inl n ↦ cc (rw (a, b, n) at done)
      | inr q ↦ (
        ok_injective y e (rw (a, b, q.1) at done),
        ((eq_iff y.session_id sid).0 a, (eq_iff y.type extraction_proposed).0 b, q),
      )
    ]
  ]
]

pub target_found :
    (s : InMemoryEventStore) (sid target : String) (e : EventEnvelope)
    → get_target_extraction_proposal_event s sid target ≡ ok e
    → (get_event s target ≡ some e) × IsProposal sid e
unfolding get_target_extraction_proposal_event
target_found s sid target e done = elim (Option-cases (get_event s target)) [
  | inl n ↦ cc (rw n at done)
  | inr y ↦
      let (same, proposal) = checked_target sid target y.0 e (rw y.1 at done) in
      (y.1 ∙ ap some same, subst (λ z. IsProposal sid z) same proposal)
]
