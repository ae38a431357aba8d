-- ===== src/Core/FinalOutcome/Draft.antt =====
-- The draft status that compileOutcome of packages/core/src/final-outcome.ts gives.
use deliberum.Prelude.{
  String, ◌≡◌, refl, sym, ap, ◌∙◌, ◌↔◌, inl, inr, Bool, true, false, ◌||◌, Option, none, some, List,
  [], ◌∷◌, map, if◌then◌else◌, Bool-cases, filter, any, In,
}
use deliberum.Prelude.{In-map, In-map_intro, any-In}
use deliberum.Errors.{ok, Result-cases, ok_injective}
use deliberum.Protocol.Deliberation.{EvidenceNeed, Objection, QualityObligation}
use deliberum.Protocol.Events.{EventEnvelope}
use deliberum.Core.Projections.{
  Derived, AcceptedDeliberationObjectsProjection, CandidateFrontierProjection,
  project_candidate_frontier, project_accepted_deliberation_objects,
}
use deliberum.Core.FinalOutcome.Outcome.{
  CompileOutcomeInput, OutcomeCompilationResult, OutcomeEvidenceNeedStatus, EvidenceResultRecord,
  ResolvedOutcomeEvents, FinalProposalEvent, draft, provisional, resolve_outcome_events,
  projection_input, flat_map, get_valid_final_candidate_proposal_events,
  select_final_candidate_proposal_event,
}
use deliberum.Core.FinalOutcome.Evidence.{
  check_of, evidence_need_status, build_evidence_status, is_unchecked, non_empty,
  is_unresolved_objection, is_unfinished_quality_obligation,
}
use deliberum.Core.FinalOutcome.Compile.{
  draft_status_of, is_none, outcome_of, compile_resolved, compile_outcome,
}
use deliberum.Core.FinalOutcome.Reported.{
  reports, records_of_need, In-flat_map, In-flat_map_intro, IsReported,
}

module _ {A : Type 0} (p : A → Bool) where
  non_empty-filter : (xs : List A) → non_empty (filter p xs) ≡ any p xs
  unfolding filter any non_empty
  non_empty-filter [] = refl
  non_empty-filter (x ∷ xs) = elim (Bool-cases (p x)) [
    | inl t ↦ rw t refl
    | inr f ↦ rw f (non_empty-filter xs)
  ]

  any-false : (xs : List A) → any p xs ≡ false → (x : A) → In x xs → p x ≡ false
  any-false xs e x m = elim (Bool-cases (p x)) [ inl t ↦ cc (e, any-In p x xs m t) | inr f ↦ f ]

  none_any : (xs : List A) → ((x : A) → In x xs → p x ≡ false) → any p xs ≡ false
  unfolding any
  none_any [] f = refl
  none_any (x ∷ xs) f = rw (f x (inl refl)) (none_any xs (λ y m. f y (inr m)))

  pub none_kept :
      (xs : List A) → (non_empty (filter p xs) ≡ false) ↔ ((x : A) → In x xs → p x ≡ false)
  none_kept xs =
      (λ e. any-false xs (sym (non_empty-filter xs) ∙ e), λ f. non_empty-filter xs ∙ none_any xs f)

-- A need counts as checked when it has a record.
checked_record :
    (n : Derived EvidenceNeed) (rs : List EvidenceResultRecord)
    → (is_unchecked (evidence_need_status rs n) ≡ false) ↔ ((r : EvidenceResultRecord) × In r rs)
unfolding evidence_need_status is_unchecked check_of
checked_record n [] = (λ e. cc e, λ m. elim m.1 [ ])
checked_record n (r ∷ rs) = (λ e. (r, inl refl), λ m. refl)

module _ (events : List EventEnvelope) where
  abbrev pub status_in : Derived EvidenceNeed → OutcomeEvidenceNeedStatus
  status_in n = evidence_need_status (flat_map (reports n.object.id) events) n

  pub build-status :
      (needs : List (Derived EvidenceNeed))
      → build_evidence_status needs events ≡ map status_in needs
  unfolding build_evidence_status
  build-status [] = refl
  build-status (n ∷ needs) = rw (records_of_need events n.object.id, build-status needs) refl

  checked :
      (n : Derived EvidenceNeed)
      → (is_unchecked (status_in n) ≡ false) ↔ IsReported events n.object.id
  checked n =
      let on = checked_record n (flat_map (reports n.object.id) events) in
      (
        λ e.
            let (r, m) = on.0 e in
            let at = In-flat_map (reports n.object.id) r events m in (at.0, r, at.1, at.2),
        λ m. on.1 (m.1, In-flat_map_intro (reports n.object.id) m.0 m.1 events m.2 m.3),
      )

  all_checked :
      (needs : List (Derived EvidenceNeed))
      → (any is_unchecked (build_evidence_status needs events) ≡ false)
        ↔ ((n : Derived EvidenceNeed) → In n needs → IsReported events n.object.id)
  all_checked needs = (
    λ e n m. (checked n).0 (
        any-false is_unchecked (map status_in needs)
          (ap (any is_unchecked) (sym (build-status needs)) ∙ e) (status_in n)
          (In-map_intro status_in n needs m)),
    λ f.
        ap (any is_unchecked) (build-status needs)
        ∙ none_any is_unchecked (map status_in needs) (λ st m.
          let at = In-map status_in st needs m in
          ap is_unchecked at.2 ∙ (checked at.0).1 (f at.0 at.1)),
  )

draft_tests :
    (a b c d : Bool)
    → ((if a || (b || (c || d)) then provisional else draft) ≡ draft)
      ↔ ((a ≡ false) × (b ≡ false) × (c ≡ false) × (d ≡ false))
draft_tests true b c d = (λ e. cc e, λ e. cc e.0)
draft_tests false true c d = (λ e. cc e, λ e. cc e.1)
draft_tests false false true d = (λ e. cc e, λ e. cc e.2)
draft_tests false false false true = (λ e. cc e, λ e. cc e.3)
draft_tests false false false false = (λ e. (refl, refl, refl, refl), λ e. refl)

selected_iff : {A : Type 0} (o : Option A) → (is_none o ≡ false) ↔ ((a : A) × (o ≡ some a))
unfolding is_none
selected_iff none = (λ e. cc e, λ e. cc (e.1))
selected_iff (some a) = (λ e. (a, refl), λ e. refl)

-- What a compilation that returns has read.
pub record Compiled (input : CompileOutcomeInput) (r : ResolvedOutcomeEvents)
    (out : OutcomeCompilationResult) : Type 0 where
  pub objects : AcceptedDeliberationObjectsProjection
  pub frontier : CandidateFrontierProjection
  pub selected : Option FinalProposalEvent
  pub projected : project_accepted_deliberation_objects (projection_input r) ≡ ok objects
  pub ahead : project_candidate_frontier (projection_input r) ≡ ok frontier
  pub chosen :
      select_final_candidate_proposal_event
        (get_valid_final_candidate_proposal_events r.events)
        input.final_candidate_proposal_event_id
      ≡ ok selected
  pub result : out ≡ outcome_of r.events objects frontier selected

pub compile_outcome-Compiled :
    (input : CompileOutcomeInput) (r : ResolvedOutcomeEvents) (out : OutcomeCompilationResult)
    → resolve_outcome_events input.events ≡ ok r
    → compile_outcome input ≡ ok out
    → Compiled input r out
unfolding compile_outcome compile_resolved
compile_outcome-Compiled input r out resolved done =
    elim (Result-cases (project_accepted_deliberation_objects (projection_input r))) [
      | inr bad ↦ cc (rw (resolved, bad.1) at done)
      | inl objects ↦ elim (Result-cases (project_candidate_frontier (projection_input r))) [
        | inr bad ↦ cc (rw (resolved, objects.1, bad.1) at done)
        | inl frontier ↦
            elim (Result-cases (
              select_final_candidate_proposal_event
                (get_valid_final_candidate_proposal_events r.events)
                input.final_candidate_proposal_event_id)) [
                  | inr bad ↦ cc (rw (resolved, objects.1, frontier.1, bad.1) at done)
                  | inl selected ↦ record {
                    objects = objects.0;
                    frontier = frontier.0;
                    selected = selected.0;
                    projected = objects.1;
                    ahead = frontier.1;
                    chosen = selected.1;
                    result = sym (
                        ok_injective (outcome_of r.events objects.0 frontier.0 selected.0) out
                          (rw (resolved, objects.1, frontier.1, selected.1) at done));
                  }
                ]
      ]
    ]

-- A proposal is selected, and nothing that is accepted is open.
abbrev pub Settled :
    List EventEnvelope → AcceptedDeliberationObjectsProjection → OutcomeCompilationResult → Type 0
Settled events objects out =
    ((id : String) × (out.provenance.final_candidate_proposal_event_id ≡ some id))
    × ((o : Derived Objection) → In o objects.objections → is_unresolved_objection o ≡ false)
    × ((q : Derived QualityObligation)
        → In q objects.quality_obligations
        → is_unfinished_quality_obligation q ≡ false)
    × ((n : Derived EvidenceNeed) → In n objects.evidence_needs → IsReported events n.object.id)

module _ (events : List EventEnvelope) (objects : AcceptedDeliberationObjectsProjection)
    (frontier : CandidateFrontierProjection) (selected : Option FinalProposalEvent) where
  abbrev the_outcome : OutcomeCompilationResult
  the_outcome = outcome_of events objects frontier selected

  has_id :
      (is_none selected ≡ false)
      ↔ ((id : String) × (the_outcome.provenance.final_candidate_proposal_event_id ≡ some id))
  unfolding outcome_of is_none
  has_id = by_selected selected
    where
      by_selected :
          (o : Option FinalProposalEvent)
          → (is_none o ≡ false)
            ↔ ((id : String) × ((elim o [ none ↦ none | some p ↦ some p.event.id ]) ≡ some id))
      by_selected none = (λ e. cc e, λ e. cc e.1)
      by_selected (some p) = (λ e. (p.event.id, refl), λ e. refl)

  outcome_of-draft_iff : (the_outcome.draft_status ≡ draft) ↔ Settled events objects the_outcome
  unfolding outcome_of draft_status_of
  outcome_of-draft_iff =
      let tests =
        draft_tests (non_empty (filter is_unresolved_objection objects.objections))
          (non_empty (filter is_unfinished_quality_obligation objects.quality_obligations))
          (any is_unchecked (build_evidence_status objects.evidence_needs events))
          (is_none selected) in
      (
        λ e.
            let (a, b, c, d) = tests.0 e in
            (
              has_id.0 d,
              (none_kept is_unresolved_objection objects.objections).0 a,
              (none_kept is_unfinished_quality_obligation objects.quality_obligations).0 b,
              (all_checked events objects.evidence_needs).0 c,
            ),
        λ s. tests.1 (
          (none_kept is_unresolved_objection objects.objections).1 s.1,
          (none_kept is_unfinished_quality_obligation objects.quality_obligations).1 s.2,
          (all_checked events objects.evidence_needs).1 s.3,
          has_id.1 s.0,
        ),
      )

-- The outcome of a session is a draft, no longer provisional, just in case a final candidate
-- proposal is selected, no accepted objection is unresolved, no accepted quality obligation is
-- unfinished, and some event reports a result for each accepted evidence need.
pub compile_outcome-draft_iff :
    (input : CompileOutcomeInput) (r : ResolvedOutcomeEvents) (out : OutcomeCompilationResult)
    (objects : AcceptedDeliberationObjectsProjection)
    → resolve_outcome_events input.events ≡ ok r
    → project_accepted_deliberation_objects (projection_input r) ≡ ok objects
    → compile_outcome input ≡ ok out
    → (out.draft_status ≡ draft) ↔ Settled r.events objects out
compile_outcome-draft_iff input r out objects resolved projected done =
    let c = compile_outcome-Compiled input r out resolved done in
    let same = ok_injective c.objects objects (sym c.projected ∙ projected) in
    rw (c.result, ← same) (outcome_of-draft_iff r.events c.objects c.frontier c.selected)
