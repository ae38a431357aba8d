-- ===== src/Core/ExtractionProposals/Shown.antt =====
-- acceptProposal of packages/core/src/extraction-proposals.ts together with the projections.
use deliberum.Prelude.{
  ◌≡◌, refl, sym, ap, ◌∙◌, true, false, ◌&&◌, List, [], ◌∷◌, ◌++◌, eq_refl, ◌==◌, filter, In,
  In-append_last, In-filter_intro,
}
use mathlib.Core.List.{append_assoc}
use deliberum.Prelude.{In-map_intro, any-In, In-split}
use deliberum.Errors.{ok}
use deliberum.Protocol.Proposals.{ExtractionProposal, proposal_acceptance_payload_schema}
use deliberum.Protocol.Events.{AppendEventInput, EventEnvelope}
use deliberum.Protocol.Host.{Host}
use deliberum.Storage.Memory.{
  InMemoryEventStore, AppendEventResult, get_event, list_events, append_event_result,
}
use deliberum.Storage.Memory.Consistent.{IsConsistent}
use deliberum.Storage.Memory.Preserve.{append_event_result-IsConsistent}
use deliberum.Storage.Memory.Append.{list_events-append_event_result, appended_event}
use deliberum.Core.World.{World}
use deliberum.Core.Projections.{
  from_store, ExtractionProposalState, ExtractionProposalStatesProjection, new_state,
  project_extraction_proposal_states, safe_parse_proposal_acceptance, proposal_accepted,
}
use deliberum.Core.Projections.Lifecycle.{accepts, targets_acceptance, after_events}
use deliberum.Core.Projections.States.{project_extraction_proposal_states-later}
use deliberum.Core.ExtractionProposals.Accept.{
  event_of, Accepts, accept_run, accept_passes, target_found,
}
use deliberum.Core.ExtractionProposals.{
  AcceptProposalInput, acceptance_payload, accepted_input, accept_proposal,
}

-- The stored acceptance counts as one of its target.
accepts_event :
    (h : Host) (input : AcceptProposalInput) (w : World) (target : EventEnvelope)
    (e : EventEnvelope)
    → e.input ≡ event_of h input w target
    → proposal_acceptance_payload_schema
        (acceptance_payload input target (h.id_generator w.id_calls))
      ≡ true
    → accepts target.id e ≡ true
unfolding accepts targets_acceptance accepted_input safe_parse_proposal_acceptance
accepts_event h input w target e p fine =
    ap
      (λ (x : AppendEventInput).
        x.type == proposal_accepted
        && targets_acceptance target.id (safe_parse_proposal_acceptance x.payload))
      p
    ∙ rw (fine, eq_refl target.id) refl

module _ (h : Host) (input : AcceptProposalInput) (w : World) (r : AppendEventResult)
    (target : EventEnvelope) (passes : Accepts h input w target)
    (consistent : IsConsistent h.digest w.store)
    (done : (append_event_result h (event_of h input w target) w.store).0 ≡ ok r)
    (new : r.appended ≡ true) where
  abbrev later : InMemoryEventStore
  later = (append_event_result h (event_of h input w target) w.store).1

  target_listed : In target (list_events w.store input.session_id)
  unfolding list_events get_event
  target_listed =
      let (found, proposal) =
        target_found w.store input.session_id input.target_proposal_event_id target passes.1 in
      rw (← proposal.0) (consistent.listed input.target_proposal_event_id target found).1

  target_id : target.id ≡ input.target_proposal_event_id
  unfolding get_event
  target_id =
      let (found, proposal) =
        target_found w.store input.session_id input.target_proposal_event_id target passes.1 in
      (consistent.listed input.target_proposal_event_id target found).0

  listed_after :
      list_events later input.session_id ≡ list_events w.store input.session_id ++ r.event ∷ []
  unfolding accepted_input
  listed_after =
      let e =
        ap (λ (x : AppendEventInput). x.session_id)
          (appended_event h (event_of h input w target) w.store r done new) in
      list_events-append_event_result h (event_of h input w target) w.store r input.session_id done
      ∙ rw (new, eq_refl input.session_id) refl

  later-IsConsistent : IsConsistent h.digest later
  later-IsConsistent =
      append_event_result-IsConsistent h (event_of h input w target) w.store consistent

  -- The state that the projection of the new store has for the target.
  abbrev state_after : List EventEnvelope → ExtractionProposal → ExtractionProposalState
  state_after zs q = after_events target.id (new_state target q) (zs ++ r.event ∷ [])

  accepts_new : accepts target.id r.event ≡ true
  accepts_new =
      accepts_event h input w target r.event
        (appended_event h (event_of h input w target) w.store r done new) passes.2

  accepted_after :
      (zs : List EventEnvelope) (q : ExtractionProposal)
      → (state_after zs q).is_accepted_for_now ≡ true
  unfolding after_events
  accepted_after zs q =
      any-In (accepts target.id) r.event (zs ++ r.event ∷ []) (In-append_last zs r.event)
        accepts_new

  id_after :
      (zs : List EventEnvelope) (q : ExtractionProposal)
      → In r.event.id (state_after zs q).acceptance_event_ids
  unfolding after_events
  id_after zs q =
      In-map_intro (λ (e : EventEnvelope). e.id) r.event
        (filter (accepts target.id) (zs ++ r.event ∷ []))
        (In-filter_intro (accepts target.id) r.event (zs ++ r.event ∷ [])
          (In-append_last zs r.event) accepts_new)

  pub shown :
      (input.session_id == "") ≡ false
      → (p : ExtractionProposalStatesProjection) × (st : ExtractionProposalState)
        × (project_extraction_proposal_states (from_store later input.session_id) ≡ ok p)
        × In st p.proposal_states
        × (st.proposal_event_id ≡ input.target_proposal_event_id)
        × (st.is_accepted_for_now ≡ true)
        × In r.event.id st.acceptance_event_ids
  unfolding after_events
  shown named =
      let (found, proposal) =
        target_found w.store input.session_id input.target_proposal_event_id target passes.1 in
      let q = proposal.2 in
      let at = In-split target (list_events w.store input.session_id) target_listed in
      let split : list_events later input.session_id ≡ at.0 ++ target ∷ (at.1 ++ r.event ∷ []) =
        listed_after
        ∙ (ap (λ l. l ++ r.event ∷ []) at.2 ∙ append_assoc at.0 (target ∷ at.1) (r.event ∷ [])) in
      let projected =
        project_extraction_proposal_states-later h.digest later input.session_id at.0 target
          (at.1 ++ r.event ∷ []) q.0 later-IsConsistent named split proposal.1 q.1 in
      (
        projected.0,
        state_after at.1 q.0,
        projected.1,
        projected.2,
        target_id,
        accepted_after at.1 q.0,
        id_after at.1 q.0,
      )

-- On a consistent store and in a session with a name, an acceptance that is appended shows: the
-- projection of the new store has a state for its target that is accepted for now and lists the
-- new event among its acceptances.
pub accept_proposal-shown :
    (h : Host) (input : AcceptProposalInput) (w : World) (r : AppendEventResult)
    → IsConsistent h.digest w.store
    → (input.session_id == "") ≡ false
    → (accept_proposal h input w).0 ≡ ok r
    → r.appended ≡ true
    → (p : ExtractionProposalStatesProjection) × (st : ExtractionProposalState)
      × (project_extraction_proposal_states
            (from_store (accept_proposal h input w).1.store input.session_id)
          ≡ ok p)
      × In st p.proposal_states
      × (st.proposal_event_id ≡ input.target_proposal_event_id)
      × (st.is_accepted_for_now ≡ true)
      × In r.event.id st.acceptance_event_ids
accept_proposal-shown h input w r consistent named done new =
    let passed = accept_passes h input w r done in
    let run = accept_run h input w passed.0 passed.1 in
    rw run
      (shown h input w r passed.0 passed.1 consistent (ap (λ o. o.0) (sym run) ∙ done) new named)
