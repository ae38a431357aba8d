-- ===== src/Protocol/Encode/Deliberation.antt =====
-- packages/protocol/src/deliberation.ts: the values of the schemas as JSON objects, under their keys.
use deliberum.Protocol.Common.{Json, text, object, Fields, end, field}
use deliberum.Protocol.Encode.{texts, put_optional}
use deliberum.Protocol.Deliberation.{
  CandidateStatus, ClaimScope, ObjectionSeverityClaim, ObjectionStatus, QualityObligationScope,
  QualityObligationStatus, EvidenceNeedRequiredKind, EvidenceNeedPriority, EvidenceNeedStatus,
  Candidate, Claim, Objection, QualityObligation, EvidenceNeed, EvidenceResult,
}

unfoldable pub candidate_status_json : CandidateStatus → Json
candidate_status_json CandidateStatus.active = text "active"
candidate_status_json CandidateStatus.revised = text "revised"
candidate_status_json CandidateStatus.absorbed = text "absorbed"
candidate_status_json CandidateStatus.rejected = text "rejected"
candidate_status_json CandidateStatus.forked = text "forked"
candidate_status_json CandidateStatus.archived = text "archived"

unfoldable pub claim_scope_json : ClaimScope → Json
claim_scope_json ClaimScope.factual = text "factual"
claim_scope_json ClaimScope.design = text "design"
claim_scope_json ClaimScope.preference = text "preference"
claim_scope_json ClaimScope.risk = text "risk"
claim_scope_json ClaimScope.process = text "process"
claim_scope_json ClaimScope.definition = text "definition"

unfoldable pub objection_severity_claim_json : ObjectionSeverityClaim → Json
objection_severity_claim_json ObjectionSeverityClaim.minor = text "minor"
objection_severity_claim_json ObjectionSeverityClaim.major = text "major"
objection_severity_claim_json ObjectionSeverityClaim.blocking = text "blocking"

unfoldable pub objection_status_json : ObjectionStatus → Json
objection_status_json ObjectionStatus.open_status = text "open"
objection_status_json ObjectionStatus.answered = text "answered"
objection_status_json ObjectionStatus.partially_answered = text "partially_answered"
objection_status_json ObjectionStatus.accepted = text "accepted"
objection_status_json ObjectionStatus.downgraded = text "downgraded"
objection_status_json ObjectionStatus.unresolved = text "unresolved"
objection_status_json ObjectionStatus.archived = text "archived"

unfoldable pub quality_obligation_scope_json : QualityObligationScope → Json
quality_obligation_scope_json QualityObligationScope.topic = text "topic"
quality_obligation_scope_json QualityObligationScope.candidate = text "candidate"
quality_obligation_scope_json QualityObligationScope.branch = text "branch"
quality_obligation_scope_json QualityObligationScope.final_output = text "final_output"

unfoldable pub quality_obligation_status_json : QualityObligationStatus → Json
quality_obligation_status_json QualityObligationStatus.unanswered = text "unanswered"
quality_obligation_status_json QualityObligationStatus.answered = text "answered"
quality_obligation_status_json QualityObligationStatus.partially_answered =
    text "partially_answered"
quality_obligation_status_json QualityObligationStatus.challenged = text "challenged"
quality_obligation_status_json QualityObligationStatus.waived = text "waived"
quality_obligation_status_json QualityObligationStatus.unresolved = text "unresolved"

unfoldable pub evidence_need_required_kind_json : EvidenceNeedRequiredKind → Json
evidence_need_required_kind_json EvidenceNeedRequiredKind.web = text "web"
evidence_need_required_kind_json EvidenceNeedRequiredKind.paper = text "paper"
evidence_need_required_kind_json EvidenceNeedRequiredKind.file = text "file"
evidence_need_required_kind_json EvidenceNeedRequiredKind.code = text "code"
evidence_need_required_kind_json EvidenceNeedRequiredKind.calculation = text "calculation"
evidence_need_required_kind_json EvidenceNeedRequiredKind.human_confirmation =
    text "human_confirmation"
evidence_need_required_kind_json EvidenceNeedRequiredKind.tool = text "tool"

unfoldable pub evidence_need_priority_json : EvidenceNeedPriority → Json
evidence_need_priority_json EvidenceNeedPriority.low = text "low"
evidence_need_priority_json EvidenceNeedPriority.medium = text "medium"
evidence_need_priority_json EvidenceNeedPriority.high = text "high"

unfoldable pub evidence_need_status_json : EvidenceNeedStatus → Json
evidence_need_status_json EvidenceNeedStatus.open_status = text "open"
evidence_need_status_json EvidenceNeedStatus.in_progress = text "in_progress"
evidence_need_status_json EvidenceNeedStatus.satisfied = text "satisfied"
evidence_need_status_json EvidenceNeedStatus.waived = text "waived"
evidence_need_status_json EvidenceNeedStatus.unresolved = text "unresolved"

unfoldable pub candidate_fields : Candidate → Fields
unfolding candidate_status_json texts put_optional
candidate_fields r = field "id" (text r.id) (
    field "title" (text r.title) (
      field "description" (text r.description) (
        field "sourceEventIds" (texts r.source_event_ids) (
          field "status" (candidate_status_json r.status) (
            field "supportedBy" (texts r.supported_by) (
              field "attackedBy" (texts r.attacked_by) (
                field "qualityObligationIds" (texts r.quality_obligation_ids) (
                  field "assumptions" (texts r.assumptions) (
                    field "tradeoffs" (texts r.tradeoffs)
                      (put_optional "applicableWhen" texts r.applicable_when end))))))))))

unfoldable pub candidate_json : Candidate → Json
unfolding candidate_fields
candidate_json r = object (candidate_fields r)

unfoldable pub claim_fields : Claim → Fields
unfolding claim_scope_json texts put_optional
claim_fields r = field "id" (text r.id) (
    field "content" (text r.content) (
      field "scope" (claim_scope_json r.scope) (
        field "sourceEventIds" (texts r.source_event_ids) (
          put_optional "supports" texts r.supports (
            put_optional "dependsOn" texts r.depends_on
              (put_optional "challengedBy" texts r.challenged_by end))))))

unfoldable pub claim_json : Claim → Json
unfolding claim_fields
claim_json r = object (claim_fields r)

unfoldable pub objection_fields : Objection → Fields
unfolding objection_severity_claim_json objection_status_json texts put_optional
objection_fields r = field "id" (text r.id) (
    field "targetId" (text r.target_id) (
      field "failureMode" (text r.failure_mode) (
        field "consequence" (text r.consequence) (
          field "severityClaim" (objection_severity_claim_json r.severity_claim) (
            field "status" (objection_status_json r.status) (
              field "sourceEventIds" (texts r.source_event_ids)
                (put_optional "responses" texts r.responses end)))))))

unfoldable pub objection_json : Objection → Json
unfolding objection_fields
objection_json r = object (objection_fields r)

unfoldable pub quality_obligation_fields : QualityObligation → Fields
unfolding quality_obligation_scope_json quality_obligation_status_json texts put_optional
quality_obligation_fields r = field "id" (text r.id) (
    field "scope" (quality_obligation_scope_json r.scope) (
      put_optional "targetCandidateId" text r.target_candidate_id (
        field "requirement" (text r.requirement) (
          field "status" (quality_obligation_status_json r.status) (
            field "sourceEventIds" (texts r.source_event_ids) (
              field "supportingRefIds" (texts r.supporting_ref_ids) (
                field "unresolvedObjectionIds" (texts r.unresolved_objection_ids)
                  (put_optional "waiverReason" text r.waiver_reason end))))))))

unfoldable pub quality_obligation_json : QualityObligation → Json
unfolding quality_obligation_fields
quality_obligation_json r = object (quality_obligation_fields r)

unfoldable pub evidence_need_fields : EvidenceNeed → Fields
unfolding evidence_need_priority_json evidence_need_required_kind_json evidence_need_status_json
    texts
evidence_need_fields r = field "id" (text r.id) (
    field "targetClaimId" (text r.target_claim_id) (
      field "requiredKind" (evidence_need_required_kind_json r.required_kind) (
        field "reason" (text r.reason) (
          field "priority" (evidence_need_priority_json r.priority) (
            field "status" (evidence_need_status_json r.status)
              (field "sourceEventIds" (texts r.source_event_ids) end))))))

unfoldable pub evidence_need_json : EvidenceNeed → Json
unfolding evidence_need_fields
evidence_need_json r = object (evidence_need_fields r)

unfoldable pub evidence_result_fields : EvidenceResult → Fields
unfolding texts put_optional
evidence_result_fields r = field "id" (text r.id) (
    field "evidenceNeedId" (text r.evidence_need_id) (
      field "source" (text r.source) (
        field "summary" (text r.summary) (
          put_optional "resourceIds" texts r.resource_ids (
            field "limitations" (texts r.limitations)
              (put_optional "challengedBy" texts r.challenged_by end))))))

unfoldable pub evidence_result_json : EvidenceResult → Json
unfolding evidence_result_fields
evidence_result_json r = object (evidence_result_fields r)
