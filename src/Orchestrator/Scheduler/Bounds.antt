-- ===== src/Orchestrator/Scheduler/Bounds.antt =====
-- suggestAdaptivePrimitiveProposals of
-- packages/orchestrator/src/adaptive-primitive-scheduler.ts: what its proposals have in common.
use deliberum.Prelude.{
  ◌≤◌, String, ◌≡◌, ◌≢◌, ◌⊎◌, inl, inr, true, Option, some, List, [], arith, length, In,
}
use mathlib.Core.Path.{subst}
use deliberum.Errors.{ok, Result-cases, ok_injective}
use deliberum.Protocol.Proposals.{ProcessProposal, ProcessProposalStatus, process_proposal_schema}
use deliberum.Storage.Memory.{InMemoryEventStore, list_events}
use deliberum.Storage.Integrity.{sort_events}
use deliberum.Core.Projections.{
  from_events, ProjectionInput, AcceptedDeliberationObjectsProjection, CandidateFrontierProjection,
  project_accepted_deliberation_objects, project_candidate_frontier,
}
use deliberum.Core.ProcessProposals.States.{project_process_proposal_states}
use deliberum.Prelude.{none, some, false, ℕ, ltb, suc, zero, arith}
use deliberum.Orchestrator.Scheduler.Settled.{Settles, nothing_open-Settles}
use deliberum.Orchestrator.Gaps.{
  natural, other_number, DeliberationRunRecord, GivenNumber, Suggestions,
  AdaptivePrimitiveSchedulerResult, normalize_max_proposals, open_evidence_need_ids, repair_targets,
}
use deliberum.Orchestrator.Scheduler.{
  suggest_for_round, create_result, suggest_adaptive_primitive_proposals,
}
use deliberum.Orchestrator.Scheduler.Keeps.{IsSuggested, IsWithin, suggest_for_round-Keeps}

abbrev pub scheduler_input : DeliberationRunRecord → InMemoryEventStore → ProjectionInput
scheduler_input run store =
    from_events (sort_events (list_events store run.session_id)) (some run.session_id)

record Within (run : DeliberationRunRecord) (store : InMemoryEventStore)
    (max_proposals : Option GivenNumber) (proposals : List ProcessProposal) : Type 0 where
  objects : AcceptedDeliberationObjectsProjection
  frontier : CandidateFrontierProjection
  projected : project_accepted_deliberation_objects (scheduler_input run store) ≡ ok objects
  front : project_candidate_frontier (scheduler_input run store) ≡ ok frontier
  size : length proposals ≤ normalize_max_proposals max_proposals
  suggested :
      (p : ProcessProposal)
      → In p proposals
      → IsSuggested (open_evidence_need_ids objects) (repair_targets frontier objects) p

suggest_for_round-Within :
    (stable_hash : List String → String → String → String) (run : DeliberationRunRecord)
    (store : InMemoryEventStore) (max_proposals : Option GivenNumber)
    (objects : AcceptedDeliberationObjectsProjection) (frontier : CandidateFrontierProjection)
    (s : Suggestions)
    → project_accepted_deliberation_objects (scheduler_input run store) ≡ ok objects
    → project_candidate_frontier (scheduler_input run store) ≡ ok frontier
    → suggest_for_round stable_hash run
        (normalize_max_proposals max_proposals)
        (sort_events (list_events store run.session_id))
        objects
        frontier
        (project_process_proposal_states (scheduler_input run store)).proposal_states
        run.sealed_divergence_round
        (record { proposals = []; observations = [] })
      ≡ ok s
    → Within run store max_proposals s.proposals
suggest_for_round-Within stable_hash run store max_proposals objects frontier s eo ef done =
    let w : IsWithin stable_hash run (normalize_max_proposals max_proposals)
        (open_evidence_need_ids objects) (repair_targets frontier objects) s =
      suggest_for_round-Keeps stable_hash run (normalize_max_proposals max_proposals) _ objects
        frontier _ run.sealed_divergence_round (record { proposals = []; observations = [] }) s
        (omega arith, λ p m. elim m [ ]) done in
    record {
      objects = objects;
      frontier = frontier;
      projected = eo;
      front = ef;
      size = w.0;
      suggested = w.1;
    }

suggest_adaptive_primitive_proposals-Within :
    (stable_hash : List String → String → String → String) (run : DeliberationRunRecord)
    (store : InMemoryEventStore) (max_proposals : Option GivenNumber)
    (out : AdaptivePrimitiveSchedulerResult)
    → suggest_adaptive_primitive_proposals stable_hash run store max_proposals ≡ ok out
    → Within run store max_proposals out.proposals
unfolding suggest_adaptive_primitive_proposals create_result
suggest_adaptive_primitive_proposals-Within stable_hash run store max_proposals out done =
    elim (Result-cases (project_accepted_deliberation_objects (scheduler_input run store))) [
      | inr bad ↦ cc (rw bad.1 at done)
      | inl objects ↦ elim (Result-cases (project_candidate_frontier (scheduler_input run store))) [
        | inr bad ↦ cc (rw (objects.1, bad.1) at done)
        | inl frontier ↦
            elim (Result-cases (
              suggest_for_round stable_hash run (normalize_max_proposals max_proposals)
                (sort_events (list_events store run.session_id)) objects.0 frontier.0
                (project_process_proposal_states (scheduler_input run store)).proposal_states
                run.sealed_divergence_round (record { proposals = []; observations = [] }))) [
                  | inr bad ↦ cc (rw (objects.1, frontier.1, bad.1) at done)
                  | inl s ↦
                      subst (λ o. Within run store max_proposals o.proposals)
                        (ok_injective _ out (rw (objects.1, frontier.1, s.1) at done))
                        (suggest_for_round-Within stable_hash run store max_proposals objects.0
                          frontier.0 s.0 objects.1 frontier.1 s.1)
                ]
      ]
    ]

-- No more than the number asked for if it is whole and positive, and otherwise than five.
abbrev pub IsAtMost : Option GivenNumber → ℕ → Type 0
IsAtMost none k = k ≤ 5
IsAtMost (some other_number) k = k ≤ 5
IsAtMost (some (natural zero)) k = k ≤ 5
IsAtMost (some (natural (suc n))) k = k ≤ suc n

normalize_max_proposals-IsAtMost :
    (asked : Option GivenNumber) (k : ℕ) → k ≤ normalize_max_proposals asked → IsAtMost asked k
unfolding normalize_max_proposals
normalize_max_proposals-IsAtMost none k e = e
normalize_max_proposals-IsAtMost (some other_number) k e = e
normalize_max_proposals-IsAtMost (some (natural zero)) k e = e
normalize_max_proposals-IsAtMost (some (natural (suc n))) k e =
    let whole : ltb (suc n) 1 ≡ false = ground arith in rw whole at e

-- When the scheduler returns, it has no more proposals than the whole positive number asked for,
-- and at most five without one.
pub suggest_adaptive_primitive_proposals-bounds :
    (stable_hash : List String → String → String → String) (run : DeliberationRunRecord)
    (store : InMemoryEventStore) (max_proposals : Option GivenNumber)
    (out : AdaptivePrimitiveSchedulerResult)
    → suggest_adaptive_primitive_proposals stable_hash run store max_proposals ≡ ok out
    → (length out.proposals ≤ normalize_max_proposals max_proposals)
      × IsAtMost max_proposals (length out.proposals)
suggest_adaptive_primitive_proposals-bounds stable_hash run store max_proposals out done =
    let w : Within run store max_proposals out.proposals =
      suggest_adaptive_primitive_proposals-Within stable_hash run store max_proposals out done in
    (w.size, normalize_max_proposals-IsAtMost max_proposals (length out.proposals) w.size)

-- Each proposal that the scheduler returns is well-formed and has the status proposed; and unless
-- it is no final contest, no evidence need is open and no candidate is to be repaired: each
-- accepted evidence need is satisfied or waived, each accepted objection to a candidate of the
-- frontier is answered, downgraded or archived, and each accepted quality obligation of such a
-- candidate is answered or waived.
pub suggest_adaptive_primitive_proposals-IsSuggested :
    (stable_hash : List String → String → String → String) (run : DeliberationRunRecord)
    (store : InMemoryEventStore) (max_proposals : Option GivenNumber)
    (out : AdaptivePrimitiveSchedulerResult) (p : ProcessProposal)
    → suggest_adaptive_primitive_proposals stable_hash run store max_proposals ≡ ok out
    → In p out.proposals
    → (objects : AcceptedDeliberationObjectsProjection) × (frontier : CandidateFrontierProjection)
      × (project_accepted_deliberation_objects (scheduler_input run store) ≡ ok objects)
      × (project_candidate_frontier (scheduler_input run store) ≡ ok frontier)
      × (process_proposal_schema p ≡ true)
      × (p.status ≡ ProcessProposalStatus.proposed)
      × ((p.primitive ≢ "final_contest")
          ⊎ ((open_evidence_need_ids objects ≡ [])
              × (repair_targets frontier objects ≡ [])
              × Settles objects frontier))
suggest_adaptive_primitive_proposals-IsSuggested stable_hash run store max_proposals out p done m =
    let w : Within run store max_proposals out.proposals =
      suggest_adaptive_primitive_proposals-Within stable_hash run store max_proposals out done in
    let fine : IsSuggested (open_evidence_need_ids w.objects) (repair_targets w.frontier w.objects)
        p =
      w.suggested p m in
    (
      w.objects,
      w.frontier,
      w.projected,
      w.front,
      fine.0,
      fine.1,
      settled w.objects w.frontier fine.2,
    )
  where
    settled :
        (objects : AcceptedDeliberationObjectsProjection) (frontier : CandidateFrontierProjection)
        → (p.primitive ≢ "final_contest")
          ⊎ ((open_evidence_need_ids objects ≡ []) × (repair_targets frontier objects ≡ []))
        → (p.primitive ≢ "final_contest")
          ⊎ ((open_evidence_need_ids objects ≡ [])
              × (repair_targets frontier objects ≡ [])
              × Settles objects frontier)
    settled objects frontier (inl other) = inl other
    settled objects frontier (inr (e, f)) = inr (e, f, nothing_open-Settles objects frontier e f)
