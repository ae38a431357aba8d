-- ===== src/Core/FinalOutcome/Recorded.antt =====
-- recordEvidenceResult of packages/core/src/final-outcome.ts and the outcome compiled after it.
use deliberum.Prelude.{
  ◌+◌, String, ◌≡◌, refl, sym, ap, ◌∙◌, inl, inr, true, false, none, some, List, [], ◌∷◌, ◌++◌, map,
  eq_iff, eq_refl, ◌==◌, if◌then◌else◌, Bool-cases, Option-cases, filter, find, In, In-append_last,
}
use mathlib.Core.Path.{subst}
use deliberum.Prelude.{In-map_intro, In-find}
use deliberum.Errors.{ok, Result-cases, ok_injective}
use deliberum.Protocol.Deliberation.{EvidenceNeed, EvidenceResult, evidence_result_schema}
use deliberum.Protocol.Events.{AppendEventInput}
use deliberum.Protocol.Host.{Host}
use deliberum.Storage.Memory.{
  InMemoryEventStore, AppendEventResult, append_event_result, list_events,
}
use deliberum.Storage.Memory.Consistent.{IsConsistent}
use deliberum.Storage.Memory.Preserve.{append_event_result-IsConsistent}
use deliberum.Storage.Memory.Append.{list_events-append_event_result, appended_event}
use deliberum.Core.World.{World, assert_options-cases, append, next_id, get_clock}
use deliberum.Core.Projections.{
  from_store, Derived, AcceptedDeliberationObjectsProjection, accepted_objects_of, frontier_of,
  states_of, project_events, derive, project_accepted_deliberation_objects, extraction_proposed,
  proposal_challenged, proposal_accepted,
}
use deliberum.Core.Projections.States.{project_events-append}
use deliberum.Core.FinalOutcome.{
  RecordEvidenceResultInput, record_evidence_result, result_input, result_to_record,
  parse_evidence_result, find_evidence_need, evidence_result_recorded, safe_parse_evidence_result,
}
use deliberum.Core.FinalOutcome.Outcome.{
  OutcomeCompilationResult, OutcomeEvidenceNeedStatus, EvidenceResultRecord, reported, flat_map,
  only_one, get_valid_final_candidate_proposal_events, select_final_candidate_proposal_event,
}
use deliberum.Core.FinalOutcome.Evidence.{evidence_need_status, check_of}
use deliberum.Core.FinalOutcome.Compile.{outcome_of, compile_outcome}
use deliberum.Core.FinalOutcome.Reported.{reports, In-flat_map_intro, names_need}
use deliberum.Core.FinalOutcome.Draft.{status_in, build-status}
use deliberum.Core.FinalOutcome.Total.{
  objects, compile_selected, project_objects-from_store, project_event-other,
}

abbrev result_of_call :
    Host → RecordEvidenceResultInput → World → Derived EvidenceNeed → EvidenceResult
result_of_call h input w need = result_to_record input need (h.id_generator w.id_calls)

abbrev event_of : Host → RecordEvidenceResultInput → World → Derived EvidenceNeed → AppendEventInput
event_of h input w need =
    result_input h input need (h.id_generator (w.id_calls + 1)) (h.clock w.clock_calls)
      (result_of_call h input w need)

parsed_result :
    (p q : EvidenceResult)
    → parse_evidence_result p ≡ ok q
    → (p ≡ q) × (evidence_result_schema p ≡ true)
unfolding parse_evidence_result
parsed_result p q e = elim (Bool-cases (evidence_result_schema p)) [
  | inl y ↦ (ok_injective p q (rw y at e), y)
  | inr n ↦ cc (rw n at e)
]

-- What a recording that succeeds has found, and the append that it runs.
record Recorded (h : Host) (input : RecordEvidenceResultInput) (w : World) : Type 0 where
  found : AcceptedDeliberationObjectsProjection
  need : Derived EvidenceNeed
  projected : project_accepted_deliberation_objects (from_store w.store input.session_id) ≡ ok found
  accepted : find_evidence_need input.evidence_need_id found ≡ ok need
  fine : evidence_result_schema (result_of_call h input w need) ≡ true
  run :
      record_evidence_result h input w
      ≡ append h
          (event_of h input w need)
          (record w { id_calls = w.id_calls + 1 + 1; clock_calls = w.clock_calls + 1 })

record_evidence_result-Recorded :
    (h : Host) (input : RecordEvidenceResultInput) (w : World) (r : AppendEventResult)
    → (record_evidence_result h input w).0 ≡ ok r
    → Recorded h input w
unfolding record_evidence_result next_id get_clock
record_evidence_result-Recorded h input w r done = elim (assert_options-cases h w) [
  | inr e ↦ cc (rw e at done)
  | inl e ↦
      elim (Result-cases
        (project_accepted_deliberation_objects (from_store w.store input.session_id))) [
          | inr bad ↦ cc (rw (e, bad.1) at done)
          | inl objects ↦
              elim (Result-cases (find_evidence_need input.evidence_need_id objects.0)) [
                | inr bad ↦ cc (rw (e, objects.1, bad.1) at done)
                | inl need ↦
                    elim (Result-cases (parse_evidence_result (result_of_call h input w need.0))) [
                      | inr bad ↦ cc (rw (e, objects.1, need.1, bad.1) at done)
                      | inl p ↦
                          let (same, fine) =
                            parsed_result (result_of_call h input w need.0) p.0 p.1 in
                          record {
                            found = objects.0;
                            need = need.0;
                            projected = objects.1;
                            accepted = need.1;
                            fine = fine;
                            run = rw (e, objects.1, need.1, p.1, ← same) refl;
                          }
                    ]
              ]
        ]
]

found_need :
    (id : String) (found : AcceptedDeliberationObjectsProjection) (n : Derived EvidenceNeed)
    → find_evidence_need id found ≡ ok n
    → In n found.evidence_needs × (n.object.id ≡ id)
unfolding find_evidence_need
found_need id found n e = elim (Option-cases (find (λ m. m.object.id == id) found.evidence_needs)) [
  | inl missing ↦ cc (rw (find_evidence_need, missing) at e)
  | inr there ↦
      let same = ok_injective there.0 n (rw (find_evidence_need, there.1) at e) in
      let m = In-find (λ m. m.object.id == id) found.evidence_needs n (there.1 ∙ ap some same) in
      (m.0, (eq_iff n.object.id id).0 m.1)
]

reported-check :
    (x : EvidenceResultRecord) (rs : List EvidenceResultRecord) → In x rs → check_of rs ≡ reported
unfolding check_of
reported-check x [] m = elim m [ ]
reported-check x (y ∷ rs) m = refl

module _ (h : Host) (input : RecordEvidenceResultInput) (w : World) (r : AppendEventResult)
    (c : Recorded h input w) (consistent : IsConsistent h.digest w.store)
    (named : (input.session_id == "") ≡ false)
    (done : (append_event_result h (event_of h input w c.need) w.store).0 ≡ ok r)
    (new : r.appended ≡ true) where
  abbrev later : InMemoryEventStore
  later = (append_event_result h (event_of h input w c.need) w.store).1

  later-IsConsistent : IsConsistent h.digest later
  later-IsConsistent =
      append_event_result-IsConsistent h (event_of h input w c.need) w.store consistent

  same_input : r.event.input ≡ event_of h input w c.need
  same_input = appended_event h (event_of h input w c.need) w.store r done new

  listed_after :
      list_events later input.session_id ≡ list_events w.store input.session_id ++ r.event ∷ []
  unfolding result_input
  listed_after =
      list_events-append_event_result h (event_of h input w c.need) w.store r input.session_id done
      ∙ rw (new, eq_refl input.session_id) refl

  -- The accepted objects stay those of the store before.
  same_states :
      project_events [] (list_events later input.session_id)
      ≡ project_events [] (list_events w.store input.session_id)
  unfolding result_input project_events
  same_states =
      let states = project_events [] (list_events w.store input.session_id) in
      let e : r.event.type ≡ evidence_result_recorded =
        ap (λ (x : AppendEventInput). x.type) same_input in
      ap (project_events []) listed_after
      ∙ (project_events-append [] (list_events w.store input.session_id) (r.event ∷ [])
          ∙ project_event-other states r.event (ap (λ t. t == extraction_proposed) e)
              (ap (λ t. t == proposal_challenged) e) (ap (λ t. t == proposal_accepted) e))

  abbrev here : EvidenceResultRecord
  here = record { event_id = r.event.id; result = result_of_call h input w c.need }

  reported_here : reports c.need.object.id r.event ≡ some here
  unfolding reports result_input names_need safe_parse_evidence_result
  reported_here =
      ap
        (λ (x : AppendEventInput).
          if x.type == evidence_result_recorded
          then names_need c.need.object.id r.event (safe_parse_evidence_result x.payload)
          else none)
        same_input
      ∙ rw (c.fine, eq_refl c.need.object.id) refl

  same_needs :
      (objects h.digest later input.session_id later-IsConsistent named).evidence_needs
      ≡ c.found.evidence_needs
  unfolding accepted_objects_of states_of
  same_needs =
      let same : c.found ≡ objects h.digest w.store input.session_id consistent named =
        ok_injective c.found (objects h.digest w.store input.session_id consistent named) (
          sym c.projected
          ∙ project_objects-from_store h.digest w.store input.session_id consistent named) in
      ap
        (λ m.
          derive (λ (n : EvidenceNeed). n.source_event_ids) (λ q. q.evidence_needs)
            (filter (λ st. st.is_accepted_for_now) (map (λ p. p.1) m)))
        same_states
      ∙ ap (λ (o : AcceptedDeliberationObjectsProjection). o.evidence_needs) (sym same)

  abbrev outcome_after : OutcomeCompilationResult
  outcome_after =
      let found = objects h.digest later input.session_id later-IsConsistent named in
      outcome_of (list_events later input.session_id) found (frontier_of found)
        (only_one (get_valid_final_candidate_proposal_events (list_events later input.session_id)))

  compiles :
      compile_outcome (record {
        events = from_store later input.session_id;
        final_candidate_proposal_event_id = none;
      })
      ≡ ok outcome_after
  unfolding select_final_candidate_proposal_event
  compiles =
      compile_selected h.digest later input.session_id later-IsConsistent named none
        (only_one (get_valid_final_candidate_proposal_events (list_events later input.session_id)))
        refl

  abbrev status_after : OutcomeEvidenceNeedStatus
  status_after = status_in (list_events later input.session_id) c.need

  In-records : In here (flat_map (reports c.need.object.id) (list_events later input.session_id))
  In-records =
      In-flat_map_intro (reports c.need.object.id) r.event here (list_events later input.session_id)
        (subst (λ l. In r.event l) (sym listed_after)
          (In-append_last (list_events w.store input.session_id) r.event))
        reported_here

  In-statuses : In status_after outcome_after.evidence_status
  unfolding outcome_of
  In-statuses =
      rw
        (
          build-status (list_events later input.session_id)
              (objects h.digest later input.session_id later-IsConsistent named).evidence_needs,
          same_needs,
        )
        (In-map_intro (status_in (list_events later input.session_id)) c.need c.found.evidence_needs
          (found_need input.evidence_need_id c.found c.need c.accepted).0)

  reported_after :
      (status_after.status ≡ reported) × In r.event.id status_after.evidence_result_event_ids
  unfolding evidence_need_status
  reported_after = (
    reported-check here (flat_map (reports c.need.object.id) (list_events later input.session_id))
        In-records,
    In-map_intro (λ (x : EvidenceResultRecord). x.event_id) here
        (flat_map (reports c.need.object.id) (list_events later input.session_id)) In-records,
  )

-- On a consistent store and in a session with a name, a result that is appended shows: the
-- outcome compiled from the new store without a choice of a proposal exists, and in it the
-- evidence need is reported, with the new event among its results.
pub record_evidence_result-shown :
    (h : Host) (input : RecordEvidenceResultInput) (w : World) (r : AppendEventResult)
    → IsConsistent h.digest w.store
    → (input.session_id == "") ≡ false
    → (record_evidence_result h input w).0 ≡ ok r
    → r.appended ≡ true
    → (out : OutcomeCompilationResult) × (st : OutcomeEvidenceNeedStatus) × (compile_outcome
          (record {
            events = from_store (record_evidence_result h input w).1.store input.session_id;
            final_candidate_proposal_event_id = none;
          })
        ≡ ok out)
      × In st out.evidence_status
      × (st.evidence_need.object.id ≡ input.evidence_need_id)
      × (st.status ≡ reported)
      × In r.event.id st.evidence_result_event_ids
unfolding append evidence_need_status
record_evidence_result-shown h input w r consistent named done new =
    let c = record_evidence_result-Recorded h input w r done in
    let stored = ap (λ o. o.0) (sym c.run) ∙ done in
    rw c.run (
      outcome_after h input w r c consistent named stored new,
      status_after h input w r c consistent named stored new,
      compiles h input w r c consistent named stored new,
      In-statuses h input w r c consistent named stored new,
      (found_need input.evidence_need_id c.found c.need c.accepted).1,
      (reported_after h input w r c consistent named stored new).0,
      (reported_after h input w r c consistent named stored new).1,
    )
