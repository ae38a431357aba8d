-- ===== src/Orchestrator/Scheduler.antt =====
-- packages/orchestrator/src/adaptive-primitive-scheduler.ts: which process steps to propose next.
pub mod Settled
pub mod Keeps
pub mod Bounds
use deliberum.Prelude.{
  ℕ, zero, suc, ◌+◌, ◌-◌, ◌≤◌, ◌<◌, max, String, ◌+++◌, ◌≡◌, refl, sym, ap, ◌∙◌, ◌≢◌, ◌↔◌, ◌⊎◌, inl,
  inr, Bool, true, false, ◌&&◌, ◌||◌, not, Option, none, some, List, [], ◌∷◌, ◌++◌, map, arith,
  eq_iff, eq_refl, ltb, leb, nat_eq, ◌==◌, if◌then◌else◌, ltb→lt, leb→le, Bool-cases, Option-cases,
  String_discrete, ℕ_discrete, length, length-append, Map, get, set, get-set, get_or, filter, find,
  any, all, contains, get_last?, add_to_set, to_set, insert_by, sort_by, Never, In, In-append_left,
  In-append_last, In-append_one, In-filter, In-filter_intro, filter-append, get_last?-append_one,
  contains→In, In→contains, Distinct, Distinct-append_one, to_set-Distinct, In-to_set, all→In,
  In→all, Distinct-length-le,
}
use deliberum.Errors.{Result, ok, err, and_then, zod_error}
use deliberum.Protocol.Core.{BudgetLease}
use deliberum.Protocol.Common.{end}
use deliberum.Protocol.Deliberation.{
  Candidate, EvidenceNeed, Objection, QualityObligation, EvidenceNeedStatus,
}
use deliberum.Protocol.Proposals.{ProcessProposal, ProcessProposalStatus, process_proposal_schema}
use deliberum.Protocol.Events.{EventEnvelope, EventVisibility}
use deliberum.Storage.Memory.{InMemoryEventStore, list_events, in_batch, same_visibility}
use deliberum.Storage.Integrity.{sort_events}
use deliberum.Core.SealedDivergence.{sealed_contribution_submitted}
use deliberum.Core.Projections.{
  from_events, Derived, EventRange, ProjectionInput, AcceptedDeliberationObjectsProjection,
  CandidateFrontierProjection, project_accepted_deliberation_objects, project_candidate_frontier,
}
use deliberum.Core.ProcessProposals.States.{ProcessProposalState, project_process_proposal_states}
use deliberum.Core.FinalOutcome.Evidence.{is_open_objection, is_open_obligation}
use deliberum.Core.FinalOutcome.Compile.{get_event_range}
use deliberum.Orchestrator.Gaps.{
  AdaptivePrimitiveSchedulerResult, DeliberationRunRecord, FinalizationRoundState, GivenNumber,
  ProposalDraft, SealedDivergenceRoundState, Suggestions, batch_fits, budget,
  find_revealed_contribution_event_ids, has_active_process_proposal_target, is_only, is_open_need,
  is_rejected, last_of, natural, normalize_max_proposals, objection_targets, open_evidence_need_ids,
  other_number, quality_target, quality_targets, repair_targets,
}

-- `stable_hash` is the FNV-1a hash of the draft's target ids, gain and risk, as eight digits.
module _ (stable_hash : List String → String → String → String) (run : DeliberationRunRecord)
    (max_proposals : ℕ) where
  unfoldable pub create_stable_proposal_id : ProposalDraft → String
  create_stable_proposal_id d =
      "adaptive:"
      +++ (run.id
          +++ (":"
              +++ (d.primitive
                  +++ (":"
                      +++ stable_hash d.target_ids d.expected_quality_gain d.risk_if_skipped))))

  abbrev pub proposal_of : ProposalDraft → ProcessProposal
  proposal_of d = record {
    id = create_stable_proposal_id d;
    primitive = d.primitive;
    target_ids = d.target_ids;
    expected_quality_gain = d.expected_quality_gain;
    risk_if_skipped = d.risk_if_skipped;
    requested_budget = some d.requested_budget;
    status = ProcessProposalStatus.proposed;
  }

  unfoldable pub create_process_proposal : ProposalDraft → Result ProcessProposal
  create_process_proposal d =
      if process_proposal_schema (proposal_of d) then ok (proposal_of d) else err zod_error

  unfoldable pub add_proposal : ProposalDraft → Suggestions → Result Suggestions
  add_proposal d s =
      if leb max_proposals (length s.proposals)
      then ok s
      else and_then (create_process_proposal d)
          (λ p. ok (record s { proposals = s.proposals ++ p ∷ [] }))

  unfoldable pub observe : String → Suggestions → Result Suggestions
  observe text s = ok (record s { observations = s.observations ++ text ∷ [] })

  -- Every proposal is added together with an observation.
  unfoldable pub suggest : ProposalDraft → String → Suggestions → Result Suggestions
  suggest d text s = and_then (add_proposal d s) (observe text)

  unfoldable pub suggest_divergence : Suggestions → Result Suggestions
  suggest_divergence =
      suggest
        (record {
          primitive = "sealed_divergence";
          target_ids = run.topic_contract_event_id ∷ [];
          expected_quality_gain =
              "Collect independent initial positions before convergence pressure appears.";
          risk_if_skipped =
              "The run may collapse into a single framing without preserved divergence.";
          requested_budget = budget (some (run.participant_count + 2)) (some run.participant_count);
        })
        "No sealed divergence round is recorded for this run."

  unfoldable pub suggest_retry : SealedDivergenceRoundState → Suggestions → Result Suggestions
  suggest_retry round =
      suggest
        (record {
          primitive = "sealed_divergence";
          target_ids = round.round_id ∷ [];
          expected_quality_gain = "Retry or replace the failed independent divergence step.";
          risk_if_skipped = "The run cannot establish independently generated starting material.";
          requested_budget = budget (some (run.participant_count + 2)) none;
        })
        "The sealed divergence round is failed."

  unfoldable pub mapping_targets : List EventEnvelope → SealedDivergenceRoundState → List String
  mapping_targets events round =
      elim (find_revealed_contribution_event_ids events run.current_batch_id) [
        | [] ↦ get_or round.round_id round.revealed_event_id ∷ []
        | id ∷ ids ↦ id ∷ ids
      ]

  unfoldable pub suggest_mapping :
      List EventEnvelope → SealedDivergenceRoundState → Suggestions → Result Suggestions
  suggest_mapping events round =
      suggest
        (record {
          primitive = "relation_mapping";
          target_ids = mapping_targets events round;
          expected_quality_gain =
              "Convert revealed contributions into traceable candidates, claims, objections, and quality obligations.";
          risk_if_skipped =
              "Raw contributions remain unstructured and later review cannot trace deliberation objects.";
          requested_budget = budget (some 2) (some 1);
        })
        "No extraction proposal round with proposal events is available."

  unfoldable pub is_reviewed : Option String → Bool
  is_reviewed none = false
  is_reviewed (some status) = status == "completed"

  unfoldable pub suggest_review : List String → Suggestions → Result Suggestions
  suggest_review proposal_event_ids s =
      if is_reviewed (last_of run.proposal_review_rounds)
      then ok s
      else suggest
          (record {
            primitive = "red_team";
            target_ids = proposal_event_ids;
            expected_quality_gain =
                "Challenge extraction proposal material before it changes derived deliberation state.";
            risk_if_skipped =
                "Weak candidates, unsupported claims, or missing objections may be accepted without adversarial review.";
            requested_budget = budget (some (length proposal_event_ids + 1)) (some 1);
          })
          "Extraction proposal material has not completed proposal review." s

  unfoldable pub suggest_evidence : List String → Suggestions → Result Suggestions
  suggest_evidence [] s = ok s
  suggest_evidence (id ∷ ids) s =
      suggest
        (record {
          primitive = "evidence_check";
          target_ids = id ∷ ids;
          expected_quality_gain =
              "Route unresolved evidence needs to verifiable checks instead of relying on discussion alone.";
          risk_if_skipped =
              "The outcome may present unresolved or unverified claims as sufficiently supported.";
          requested_budget = budget (some (length (id ∷ ids))) none;
        })
        "Accepted proposal material contains open evidence needs." s

  unfoldable pub suggest_repair : List String → Suggestions → Result Suggestions
  suggest_repair [] s = ok s
  suggest_repair (id ∷ ids) s =
      suggest
        (record {
          primitive = "candidate_repair";
          target_ids = id ∷ ids;
          expected_quality_gain =
              "Repair candidates against unresolved objections or unanswered quality obligations.";
          risk_if_skipped =
              "Known candidate weaknesses remain unresolved before finalization pressure increases.";
          requested_budget = budget (some (length (id ∷ ids) + 1)) (some 1);
        })
        "Accepted proposal material contains unresolved objections or quality obligations." s

  unfoldable pub suggest_audit :
      List ProcessProposalState → String → List String → Suggestions → Result Suggestions
  suggest_audit states final_id [] s =
      suggest
        (record {
          primitive = "final_audit";
          target_ids = final_id ∷ [];
          expected_quality_gain =
              "Audit final candidate proposal material before outcome compilation.";
          risk_if_skipped =
              "The compiled outcome may omit unresolved limitations or audit findings.";
          requested_budget = budget (some 1) (some 1);
        })
        "A final candidate proposal exists without recorded final audit events." s
  suggest_audit states final_id (a ∷ audits) s =
      if has_active_process_proposal_target states "omission_audit" final_id
      then ok s
      else suggest
          (record {
            primitive = "omission_audit";
            target_ids = final_id ∷ [];
            expected_quality_gain =
                "Check whether audited final candidate material dropped important insights before outcome compilation.";
            risk_if_skipped =
                "The compiled outcome may preserve a coherent summary while omitting relevant accepted material or unresolved limitations.";
            requested_budget = budget (some 1) (some 1);
          })
          "Audited final candidate material is available without an active omission audit proposal."
          s

  -- Only without open evidence needs and repair targets.
  unfoldable pub suggest_contest :
      List (Derived Candidate) → List String → List String → Suggestions → Result Suggestions
  suggest_contest (c ∷ cs) [] [] s =
      suggest
        (record {
          primitive = "final_contest";
          target_ids = map (λ x. x.object.id) (c ∷ cs);
          expected_quality_gain =
              "Generate final candidate proposal material from the accepted active candidate frontier.";
          risk_if_skipped =
              "The run may stop before final candidate alternatives are explicitly proposed and auditable.";
          requested_budget = budget (some 2) (some 1);
        })
        "Accepted active candidates are available without open evidence or repair targets." s
  suggest_contest _ _ _ s = ok s

  -- The id of the final candidate proposal, if it is there and not empty, and its audits.
  unfoldable pub final_of_round : Option FinalizationRoundState → Option (String × List String)
  final_of_round none = none
  final_of_round (some r) = elim r.final_candidate_proposal_event_id [
    | none ↦ none
    | some id ↦ if id == "" then none else some (id, r.audit_event_ids)
  ]

  unfoldable pub suggest_final :
      List ProcessProposalState
      → Option (String × List String)
      → List (Derived Candidate)
      → List String
      → List String
      → Suggestions
      → Result Suggestions
  suggest_final states (some (id, audits)) candidates needs repairs = suggest_audit states id audits
  suggest_final states none candidates needs repairs = suggest_contest candidates needs repairs

  unfoldable pub observe_no_gap : Suggestions → Result Suggestions
  observe_no_gap s = elim s.proposals [
    | [] ↦ observe "No explicit adaptive primitive gap was detected." s
    | p ∷ ps ↦ ok s
  ]

  module _ (events : List EventEnvelope) (objects : AcceptedDeliberationObjectsProjection)
      (frontier : CandidateFrontierProjection) (states : List ProcessProposalState) where
    -- What is suggested once there are extraction proposals.
    unfoldable pub suggest_after_extraction : List String → Suggestions → Result Suggestions
    suggest_after_extraction proposal_event_ids s =
        let needs = open_evidence_need_ids objects in
        let repairs = repair_targets frontier objects in
        and_then (suggest_review proposal_event_ids s) (λ s1.
          and_then (suggest_evidence needs s1) (λ s2. and_then (suggest_repair repairs s2) (λ s3.
            and_then
              (suggest_final states (final_of_round (last_of run.finalization_rounds))
                frontier.candidates needs repairs s3)
              observe_no_gap)))

    unfoldable pub suggest_after_reveal :
        SealedDivergenceRoundState → Option (List String) → Suggestions → Result Suggestions
    suggest_after_reveal round none s = suggest_mapping events round s
    suggest_after_reveal round (some []) s = suggest_mapping events round s
    suggest_after_reveal round (some (id ∷ ids)) s = suggest_after_extraction (id ∷ ids) s

    unfoldable pub suggest_for_round :
        Option SealedDivergenceRoundState → Suggestions → Result Suggestions
    suggest_for_round none s = suggest_divergence s
    suggest_for_round (some round) s =
        if round.status == "failed"
        then suggest_retry round s
        else if not (round.status == "revealed")
        then observe "The sealed divergence round is not revealed yet." s
        else suggest_after_reveal round (last_of run.extraction_rounds) s

unfoldable pub create_result :
    DeliberationRunRecord → List EventEnvelope → Suggestions → AdaptivePrimitiveSchedulerResult
unfolding get_event_range
create_result run events s = record {
  run_id = run.id;
  session_id = run.session_id;
  proposals = s.proposals;
  observations = s.observations;
  event_range = get_event_range events;
  event_ids = map (λ e. e.id) events;
}

unfoldable pub suggest_adaptive_primitive_proposals :
    (List String → String → String → String)
    → DeliberationRunRecord
    → InMemoryEventStore
    → Option GivenNumber
    → Result AdaptivePrimitiveSchedulerResult
suggest_adaptive_primitive_proposals stable_hash run store max_proposals =
    let events = sort_events (list_events store run.session_id) in
    let input = from_events events (some run.session_id) in
    and_then (project_accepted_deliberation_objects input) (λ objects.
      and_then (project_candidate_frontier input) (λ frontier.
        and_then
          (suggest_for_round stable_hash run (normalize_max_proposals max_proposals) events objects
            frontier (project_process_proposal_states input).proposal_states
            run.sealed_divergence_round (record { proposals = []; observations = [] }))
          (λ s. ok (create_result run events s))))
