-- ===== src/Core/ProcessProposals/Retry.antt =====
-- proposeProcessProposal of packages/core/src/process-proposals.ts, called again under its key.
use deliberum.Prelude.{
  ℕ, ◌+◌, String, ◌+++◌, ◌≡◌, refl, sym, ap, ◌∙◌, inl, inr, false, some, List, [], ◌==◌, get_or,
}
use deliberum.Errors.{Result-cases, Result, ok}
use deliberum.Protocol.Proposals.{ProcessProposal}
use deliberum.Protocol.Events.{AppendEventInput}
use deliberum.Protocol.Host.{Host}
use deliberum.Storage.Memory.{
  InMemoryEventStore, AppendEventResult, append_event_result, create_idempotency_lookup_key,
}
use deliberum.Storage.Memory.Append.{append_event_result_retry}
use deliberum.Storage.Idempotency.{to_comparable}
use deliberum.Core.ProcessProposals.Keeps.{same_options, basis-append}
use deliberum.Core.World.{World, assert_options, assert_options-cases, append, next_id, get_clock}
use deliberum.Core.ProcessProposals.{
  ProposeProcessProposalInput, parse_proposed_process_proposal, normalize_basis_event_ids,
  assert_basis_events_exist, proposed_input, propose_process_proposal,
}

abbrev basis_of : ProposeProcessProposalInput → List String
basis_of input = normalize_basis_event_ids (get_or [] input.based_on_event_ids)

-- The event that the n-th id and the m-th reading of the clock go into.
abbrev event_of : Host → ProposeProcessProposalInput → ℕ → ℕ → ProcessProposal → AppendEventInput
event_of h input n m p = proposed_input h input (basis_of input) (h.id_generator n) (h.clock m) p

abbrev pub written :
    Result AppendEventResult × InMemoryEventStore → ℕ → ℕ → Result AppendEventResult × World
written out i c = (out.0, record { store = out.1; id_calls = i; clock_calls = c })

-- What a proposal that succeeds has passed.
abbrev Proposes : Host → ProposeProcessProposalInput → World → ProcessProposal → Type 0
Proposes h input w p =
    (assert_options h w ≡ (ok tt, w))
    × (parse_proposed_process_proposal input.proposal ≡ ok p)
    × (assert_basis_events_exist w.store input.session_id (basis_of input) ≡ ok tt)

module _ (h : Host) (input : ProposeProcessProposalInput) where
  propose_run :
      (w : World) (p : ProcessProposal)
      → Proposes h input w p
      → propose_process_proposal h input w
        ≡ written
            (append_event_result h (event_of h input w.id_calls w.clock_calls p) w.store)
            (w.id_calls + 1)
            (w.clock_calls + 1)
  unfolding propose_process_proposal next_id get_clock append
  propose_run w p passes = rw (passes.0, passes.1, passes.2) refl

  propose_passes :
      (w : World) (r : AppendEventResult)
      → (propose_process_proposal h input w).0 ≡ ok r
      → (p : ProcessProposal) × Proposes h input w p
  unfolding propose_process_proposal
  propose_passes w r done = elim (assert_options-cases h w) [
    | inr e ↦ cc (rw e at done)
    | inl e ↦ elim (Result-cases (parse_proposed_process_proposal input.proposal)) [
      | inr bad ↦ cc (rw (e, bad.1) at done)
      | inl good ↦
          elim (Result-cases
            (assert_basis_events_exist w.store input.session_id (basis_of input))) [
              | inr bad ↦ cc (rw (e, good.1, bad.1) at done)
              | inl (tt, fine) ↦ (good.0, (e, good.1, fine))
            ]
    ]
  ]

  same_event :
      (n m i j : ℕ) (p : ProcessProposal)
      → to_comparable (event_of h input n m p) ≡ to_comparable (event_of h input i j p)
  unfolding to_comparable proposed_input
  same_event n m i j p = refl

  lookup_key :
      (n m : ℕ) (p : ProcessProposal) (k : String)
      → input.idempotency_key ≡ some k
      → (k == "") ≡ false
      → create_idempotency_lookup_key (event_of h input n m p)
        ≡ some (input.session_id +++ (":" +++ k))
  unfolding create_idempotency_lookup_key proposed_input
  lookup_key n m p k key named = rw (key, named) refl

  propose_again :
      (w : World) (p : ProcessProposal) (r : AppendEventResult) (k : String)
      → Proposes h input w p
      → (append_event_result h (event_of h input w.id_calls w.clock_calls p) w.store).0 ≡ ok r
      → input.idempotency_key ≡ some k
      → (k == "") ≡ false
      → let out = append_event_result h (event_of h input w.id_calls w.clock_calls p) w.store in
        propose_process_proposal h input (written out (w.id_calls + 1) (w.clock_calls + 1)).1
        ≡ written
            (ok (record { event = r.event; appended = false }), out.1)
            (w.id_calls + 1 + 1)
            (w.clock_calls + 1 + 1)
  propose_again w p r k passes done key named =
      let a = event_of h input w.id_calls w.clock_calls p in
      let b = event_of h input (w.id_calls + 1) (w.clock_calls + 1) p in
      let v = (written (append_event_result h a w.store) (w.id_calls + 1) (w.clock_calls + 1)).1 in
      propose_run v p (
        same_options h w v passes.0,
        passes.1,
        basis-append h a w.store input.session_id (basis_of input) passes.2,
      )
      ∙ ap (λ o. written o (w.id_calls + 1 + 1) (w.clock_calls + 1 + 1))
          (append_event_result_retry h a b w.store r (input.session_id +++ (":" +++ k)) done
            (lookup_key w.id_calls w.clock_calls p k key named)
            (lookup_key (w.id_calls + 1) (w.clock_calls + 1) p k key named)
            (same_event w.id_calls w.clock_calls (w.id_calls + 1) (w.clock_calls + 1) p))

-- Proposing again under the same non-empty key returns the stored event and appends nothing.
pub propose_process_proposal_retry :
    (h : Host) (input : ProposeProcessProposalInput) (w : World) (r : AppendEventResult)
    (k : String)
    → (propose_process_proposal h input w).0 ≡ ok r
    → input.idempotency_key ≡ some k
    → (k == "") ≡ false
    → ((propose_process_proposal h input (propose_process_proposal h input w).1).0
        ≡ ok (record { event = r.event; appended = false }))
      × ((propose_process_proposal h input (propose_process_proposal h input w).1).1.store
          ≡ (propose_process_proposal h input w).1.store)
propose_process_proposal_retry h input w r k done key named =
    let passed = propose_passes h input w r done in
    let first = propose_run h input w passed.0 passed.1 in
    let again =
      propose_again h input w passed.0 r k passed.1 (ap (λ o. o.0) (sym first) ∙ done) key named in
    rw (first, again) (refl, refl)
