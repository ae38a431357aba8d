-- ===== src/Orchestrator/Gaps.antt =====
-- What packages/orchestrator/src/adaptive-primitive-scheduler.ts reads of a run and finds missing.
use deliberum.Prelude.{
  ℕ, String, Bool, true, false, ◌&&◌, ◌||◌, not, Option, none, some, List, [], ◌∷◌, ◌++◌, map, ltb,
  ◌==◌, if◌then◌else◌, filter, any, contains, get_last?, to_set,
}
use deliberum.Protocol.Core.{BudgetLease}
use deliberum.Protocol.Common.{end}
use deliberum.Protocol.Deliberation.{
  QualityObligationStatus, Objection, QualityObligation, EvidenceNeedStatus,
}
use deliberum.Protocol.Proposals.{ProcessProposal, ProcessProposalStatus}
use deliberum.Protocol.Events.{EventEnvelope, EventVisibility}
use deliberum.Storage.Memory.{in_batch, same_visibility}
use deliberum.Core.SealedDivergence.{sealed_contribution_submitted}
use deliberum.Core.Projections.{
  Derived, EventRange, AcceptedDeliberationObjectsProjection, CandidateFrontierProjection,
}
use deliberum.Core.ProcessProposals.States.{ProcessProposalState}
use deliberum.Core.FinalOutcome.Evidence.{is_open_objection, is_open_obligation}

-- What the scheduler reads of a run: the fields of the rounds that it does not read are left out.
pub record SealedDivergenceRoundState : Type 0 where
  pub round_id : String
  pub status : String
  pub revealed_event_id : Option String

pub record FinalizationRoundState : Type 0 where
  pub final_candidate_proposal_event_id : Option String
  pub audit_event_ids : List String

pub record DeliberationRunRecord : Type 0 where
  pub id : String
  pub session_id : String
  pub topic_contract_event_id : String
  pub participant_count : ℕ
  pub current_batch_id : Option String
  pub sealed_divergence_round : Option SealedDivergenceRoundState
  -- of each extraction round its proposal events, of each review round its status
  pub extraction_rounds : Option (List (List String))
  pub proposal_review_rounds : Option (List String)
  pub finalization_rounds : Option (List FinalizationRoundState)

pub data GivenNumber : Type 0 where
  natural : ℕ → GivenNumber
  other_number : GivenNumber

pub record ProposalDraft : Type 0 where
  pub primitive : String
  pub target_ids : List String
  pub expected_quality_gain : String
  pub risk_if_skipped : String
  pub requested_budget : BudgetLease

pub record Suggestions : Type 0 where
  pub proposals : List ProcessProposal
  pub observations : List String

pub record AdaptivePrimitiveSchedulerResult : Type 0 where
  pub run_id : String
  pub session_id : String
  pub proposals : List ProcessProposal
  pub observations : List String
  pub event_range : Option EventRange
  pub event_ids : List String

abbrev pub budget : Option ℕ → Option ℕ → BudgetLease
budget max_events max_provider_calls = record {
  max_events = max_events;
  max_provider_calls = max_provider_calls;
  max_estimated_cost_cents = none;
  max_run_seconds = none;
  participant_timeout_ms = none;
  overall_timeout_ms = none;
  extra = end;
}

unfoldable pub normalize_max_proposals : Option GivenNumber → ℕ
normalize_max_proposals (some (natural n)) = if ltb n 1 then 5 else n
normalize_max_proposals _ = 5

unfoldable pub is_open_need : EvidenceNeedStatus → Bool
is_open_need EvidenceNeedStatus.open_status = true
is_open_need EvidenceNeedStatus.in_progress = true
is_open_need EvidenceNeedStatus.unresolved = true
is_open_need _ = false

unfoldable pub is_rejected : ProcessProposalStatus → Bool
is_rejected ProcessProposalStatus.rejected = true
is_rejected _ = false

unfoldable pub is_only : String → List String → Bool
is_only target (x ∷ []) = x == target
is_only target _ = false

unfoldable pub has_active_process_proposal_target :
    List ProcessProposalState → String → String → Bool
unfolding any is_rejected is_only
has_active_process_proposal_target states primitive target =
    any
      (λ st.
        not (is_rejected st.latest_status)
        && (st.proposal.primitive == primitive && is_only target st.proposal.target_ids))
      states

unfoldable pub batch_fits : Option String → EventEnvelope → Bool
unfolding in_batch
batch_fits none e = true
batch_fits (some b) e = b == "" || in_batch b e

unfoldable pub find_revealed_contribution_event_ids :
    List EventEnvelope → Option String → List String
unfolding filter same_visibility batch_fits
find_revealed_contribution_event_ids events batch_id =
    map (λ e. e.id)
      (filter
        (λ e.
          e.type == sealed_contribution_submitted
          && (same_visibility e.visibility EventVisibility.sealed && batch_fits batch_id e))
        events)

-- `rounds?.at(-1)`
unfoldable pub last_of : {A : Type 0} → Option (List A) → Option A
unfolding get_last?
last_of none = none
last_of (some rounds) = get_last? rounds

-- The target of an unresolved obligation, if it is an active candidate.
unfoldable pub unresolved_target :
    List String → QualityObligationStatus → Option String → List String
unfolding contains is_open_obligation
unresolved_target active_ids status none = []
unresolved_target active_ids status (some target) =
    if not (target == "") && (contains active_ids target && is_open_obligation status)
    then target ∷ []
    else []

unfoldable pub quality_target : List String → Derived QualityObligation → List String
unfolding unresolved_target
quality_target active_ids q =
    unresolved_target active_ids q.object.status q.object.target_candidate_id

unfoldable pub quality_targets : List String → List (Derived QualityObligation) → List String
unfolding quality_target
quality_targets active_ids [] = []
quality_targets active_ids (q ∷ qs) = quality_target active_ids q ++ quality_targets active_ids qs

unfoldable pub objection_targets : List String → List (Derived Objection) → List String
unfolding filter contains is_open_objection
objection_targets active_ids objections =
    map (λ o. o.object.target_id)
      (filter (λ o. contains active_ids o.object.target_id && is_open_objection o.object.status)
        objections)

unfoldable pub repair_targets :
    CandidateFrontierProjection → AcceptedDeliberationObjectsProjection → List String
unfolding to_set objection_targets quality_targets
repair_targets frontier objects =
    let active_ids = to_set (map (λ c. c.object.id) frontier.candidates) in
    to_set (
      to_set (objection_targets active_ids objects.objections)
      ++ to_set (quality_targets active_ids objects.quality_obligations))

unfoldable pub open_evidence_need_ids : AcceptedDeliberationObjectsProjection → List String
unfolding filter is_open_need
open_evidence_need_ids objects =
    map (λ n. n.object.id) (filter (λ n. is_open_need n.object.status) objects.evidence_needs)
