-- ===== src/Protocol/Encode/Proposals.antt =====
-- packages/protocol/src/proposals.ts: the values of the schemas as JSON objects, under their keys.
use deliberum.Protocol.Common.{Json, text, object, Fields, end, field}
use deliberum.Protocol.Encode.{list_of, texts, put_optional}
use deliberum.Protocol.Encode.Core.{budget_lease_json}
use deliberum.Protocol.Encode.Deliberation.{
  candidate_json, claim_json, objection_json, evidence_need_json, quality_obligation_json,
}
use deliberum.Protocol.Proposals.{
  SemanticProposalStatus, ProcessProposalStatus, ProcessProposalDecisionStatus, ProcessProposal,
  ProcessProposalChallengePayload, ProcessProposalDecisionPayload, ExtractionProposal,
  ProposalChallengePayload, ProposalAcceptancePayload, FinalCandidateProposal, FinalAudit,
}

unfoldable pub semantic_proposal_status_json : SemanticProposalStatus → Json
semantic_proposal_status_json SemanticProposalStatus.proposed = text "proposed"
semantic_proposal_status_json SemanticProposalStatus.challenged = text "challenged"
semantic_proposal_status_json SemanticProposalStatus.accepted_for_now = text "accepted_for_now"
semantic_proposal_status_json SemanticProposalStatus.superseded = text "superseded"
semantic_proposal_status_json SemanticProposalStatus.rejected = text "rejected"

unfoldable pub process_proposal_status_json : ProcessProposalStatus → Json
process_proposal_status_json ProcessProposalStatus.proposed = text "proposed"
process_proposal_status_json ProcessProposalStatus.accepted = text "accepted"
process_proposal_status_json ProcessProposalStatus.challenged = text "challenged"
process_proposal_status_json ProcessProposalStatus.deferred = text "deferred"
process_proposal_status_json ProcessProposalStatus.rejected = text "rejected"

unfoldable pub process_proposal_decision_status_json : ProcessProposalDecisionStatus → Json
process_proposal_decision_status_json ProcessProposalDecisionStatus.accepted = text "accepted"
process_proposal_decision_status_json ProcessProposalDecisionStatus.deferred = text "deferred"
process_proposal_decision_status_json ProcessProposalDecisionStatus.rejected = text "rejected"

unfoldable pub process_proposal_fields : ProcessProposal → Fields
unfolding budget_lease_json process_proposal_status_json texts put_optional
process_proposal_fields r = field "id" (text r.id) (
    field "primitive" (text r.primitive) (
      field "targetIds" (texts r.target_ids) (
        field "expectedQualityGain" (text r.expected_quality_gain) (
          field "riskIfSkipped" (text r.risk_if_skipped) (
            put_optional "requestedBudget" budget_lease_json r.requested_budget
              (field "status" (process_proposal_status_json r.status) end))))))

unfoldable pub process_proposal_json : ProcessProposal → Json
unfolding process_proposal_fields
process_proposal_json r = object (process_proposal_fields r)

unfoldable pub process_proposal_challenge_payload_fields : ProcessProposalChallengePayload → Fields
process_proposal_challenge_payload_fields r = field "id" (text r.id) (
    field "targetProcessProposalEventId" (text r.target_process_proposal_event_id)
      (field "reason" (text r.reason) end))

unfoldable pub process_proposal_challenge_payload_json : ProcessProposalChallengePayload → Json
unfolding process_proposal_challenge_payload_fields
process_proposal_challenge_payload_json r = object (process_proposal_challenge_payload_fields r)

unfoldable pub process_proposal_decision_payload_fields : ProcessProposalDecisionPayload → Fields
unfolding process_proposal_decision_status_json
process_proposal_decision_payload_fields r = field "id" (text r.id) (
    field "targetProcessProposalEventId" (text r.target_process_proposal_event_id) (
      field "rationale" (text r.rationale)
        (field "status" (process_proposal_decision_status_json r.status) end)))

unfoldable pub process_proposal_decision_payload_json : ProcessProposalDecisionPayload → Json
unfolding process_proposal_decision_payload_fields
process_proposal_decision_payload_json r = object (process_proposal_decision_payload_fields r)

unfoldable pub extraction_proposal_fields : ExtractionProposal → Fields
unfolding candidate_json claim_json evidence_need_json list_of objection_json
    quality_obligation_json semantic_proposal_status_json texts
extraction_proposal_fields r = field "id" (text r.id) (
    field "sourceEventIds" (texts r.source_event_ids) (
      field "candidates" (list_of candidate_json r.candidates) (
        field "claims" (list_of claim_json r.claims) (
          field "objections" (list_of objection_json r.objections) (
            field "evidenceNeeds" (list_of evidence_need_json r.evidence_needs) (
              field "qualityObligations" (list_of quality_obligation_json r.quality_obligations) (
                field "rationale" (text r.rationale)
                  (field "status" (semantic_proposal_status_json r.status) end))))))))

unfoldable pub extraction_proposal_json : ExtractionProposal → Json
unfolding extraction_proposal_fields
extraction_proposal_json r = object (extraction_proposal_fields r)

unfoldable pub proposal_challenge_payload_fields : ProposalChallengePayload → Fields
proposal_challenge_payload_fields r = field "id" (text r.id) (
    field "targetProposalEventId" (text r.target_proposal_event_id)
      (field "reason" (text r.reason) end))

unfoldable pub proposal_challenge_payload_json : ProposalChallengePayload → Json
unfolding proposal_challenge_payload_fields
proposal_challenge_payload_json r = object (proposal_challenge_payload_fields r)

unfoldable pub proposal_acceptance_payload_fields : ProposalAcceptancePayload → Fields
proposal_acceptance_payload_fields r = field "id" (text r.id) (
    field "targetProposalEventId" (text r.target_proposal_event_id)
      (field "rationale" (text r.rationale) end))

unfoldable pub proposal_acceptance_payload_json : ProposalAcceptancePayload → Json
unfolding proposal_acceptance_payload_fields
proposal_acceptance_payload_json r = object (proposal_acceptance_payload_fields r)

unfoldable pub final_candidate_proposal_fields : FinalCandidateProposal → Fields
unfolding semantic_proposal_status_json texts
final_candidate_proposal_fields r = field "id" (text r.id) (
    field "candidateIds" (texts r.candidate_ids) (
      field "alternativeCandidateIds" (texts r.alternative_candidate_ids) (
        field "sourceEventIds" (texts r.source_event_ids) (
          field "recommendation" (text r.recommendation) (
            field "applicabilityConditions" (texts r.applicability_conditions) (
              field "rationale" (text r.rationale) (
                field "limitations" (texts r.limitations)
                  (field "status" (semantic_proposal_status_json r.status) end))))))))

unfoldable pub final_candidate_proposal_json : FinalCandidateProposal → Json
unfolding final_candidate_proposal_fields
final_candidate_proposal_json r = object (final_candidate_proposal_fields r)

unfoldable pub final_audit_fields : FinalAudit → Fields
unfolding texts
final_audit_fields r = field "id" (text r.id) (
    field "targetFinalCandidateProposalEventId" (text r.target_final_candidate_proposal_event_id) (
      field "findings" (texts r.findings) (
        field "risks" (texts r.risks) (
          field "unresolvedObjectionIds" (texts r.unresolved_objection_ids) (
            field "qualityObligationIds" (texts r.quality_obligation_ids) (
              field "evidenceNeedIds" (texts r.evidence_need_ids) (
                field "omissions" (texts r.omissions) (
                  field "compressionProblems" (texts r.compression_problems) (
                    field "limitations" (texts r.limitations) (
                      field "continuationSuggestions" (texts r.continuation_suggestions)
                        end))))))))))

unfoldable pub final_audit_json : FinalAudit → Json
unfolding final_audit_fields
final_audit_json r = object (final_audit_fields r)
