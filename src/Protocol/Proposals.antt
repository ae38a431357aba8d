-- ===== src/Protocol/Proposals.antt =====
-- packages/protocol/src/proposals.ts: the payloads of proposals and of what is said about them.
use deliberum.Prelude.{String, Bool, ◌&&◌, not, Option, List}
use deliberum.Protocol.Common.{non_empty_string, array_of, optional, ids}
use deliberum.Protocol.Core.{BudgetLease, budget_lease_schema, is_empty}
use deliberum.Protocol.Deliberation.{
  Candidate, Claim, Objection, EvidenceNeed, QualityObligation, candidate_schema, claim_schema,
  objection_schema, evidence_need_schema, quality_obligation_schema,
}

pub data SemanticProposalStatus : Type 0 where
  proposed challenged accepted_for_now superseded rejected : SemanticProposalStatus

pub data ProcessProposalStatus : Type 0 where
  proposed accepted challenged deferred rejected : ProcessProposalStatus

pub record ProcessProposal : Type 0 where
  pub id : String
  pub primitive : String
  pub target_ids : List String
  pub expected_quality_gain : String
  pub risk_if_skipped : String
  pub requested_budget : Option BudgetLease
  pub status : ProcessProposalStatus

unfoldable pub process_proposal_schema : ProcessProposal → Bool
unfolding non_empty_string optional ids budget_lease_schema
process_proposal_schema p =
    non_empty_string p.id
    && (non_empty_string p.primitive
        && (ids p.target_ids
            && (non_empty_string p.expected_quality_gain
                && (non_empty_string p.risk_if_skipped
                    && optional budget_lease_schema p.requested_budget))))

-- The field `status` is the literal "challenged".
pub record ProcessProposalChallengePayload : Type 0 where
  pub id : String
  pub target_process_proposal_event_id : String
  pub reason : String

unfoldable pub process_proposal_challenge_payload_schema : ProcessProposalChallengePayload → Bool
unfolding non_empty_string
process_proposal_challenge_payload_schema p =
    non_empty_string p.id
    && (non_empty_string p.target_process_proposal_event_id && non_empty_string p.reason)

pub data ProcessProposalDecisionStatus : Type 0 where
  accepted deferred rejected : ProcessProposalDecisionStatus

pub record ProcessProposalDecisionPayload : Type 0 where
  pub id : String
  pub target_process_proposal_event_id : String
  pub rationale : String
  pub status : ProcessProposalDecisionStatus

unfoldable pub process_proposal_decision_payload_schema : ProcessProposalDecisionPayload → Bool
unfolding non_empty_string
process_proposal_decision_payload_schema p =
    non_empty_string p.id
    && (non_empty_string p.target_process_proposal_event_id && non_empty_string p.rationale)

-- `SourceEventIdsSchema.min(1)`
unfoldable pub non_empty_source_event_ids : List String → Bool
unfolding ids is_empty
non_empty_source_event_ids xs = not (is_empty xs) && ids xs

unfoldable pub extraction_candidate_schema : Candidate → Bool
unfolding candidate_schema non_empty_source_event_ids
extraction_candidate_schema c = candidate_schema c && non_empty_source_event_ids c.source_event_ids

unfoldable pub extraction_claim_schema : Claim → Bool
unfolding claim_schema non_empty_source_event_ids
extraction_claim_schema c = claim_schema c && non_empty_source_event_ids c.source_event_ids

unfoldable pub extraction_objection_schema : Objection → Bool
unfolding objection_schema non_empty_source_event_ids
extraction_objection_schema o = objection_schema o && non_empty_source_event_ids o.source_event_ids

unfoldable pub extraction_evidence_need_schema : EvidenceNeed → Bool
unfolding evidence_need_schema non_empty_source_event_ids
extraction_evidence_need_schema n =
    evidence_need_schema n && non_empty_source_event_ids n.source_event_ids

unfoldable pub extraction_quality_obligation_schema : QualityObligation → Bool
unfolding quality_obligation_schema non_empty_source_event_ids
extraction_quality_obligation_schema q =
    quality_obligation_schema q && non_empty_source_event_ids q.source_event_ids

pub record ExtractionProposal : Type 0 where
  pub id : String
  pub source_event_ids : List String
  pub candidates : List Candidate
  pub claims : List Claim
  pub objections : List Objection
  pub evidence_needs : List EvidenceNeed
  pub quality_obligations : List QualityObligation
  pub rationale : String
  pub status : SemanticProposalStatus

unfoldable pub extraction_proposal_schema : ExtractionProposal → Bool
unfolding non_empty_string array_of non_empty_source_event_ids extraction_candidate_schema
    extraction_claim_schema extraction_objection_schema extraction_evidence_need_schema
    extraction_quality_obligation_schema
extraction_proposal_schema p =
    non_empty_string p.id
    && (non_empty_source_event_ids p.source_event_ids
        && (array_of extraction_candidate_schema p.candidates
            && (array_of extraction_claim_schema p.claims
                && (array_of extraction_objection_schema p.objections
                    && (array_of extraction_evidence_need_schema p.evidence_needs
                        && (array_of extraction_quality_obligation_schema p.quality_obligations
                            && non_empty_string p.rationale))))))

-- The field `status` is the literal "challenged".
pub record ProposalChallengePayload : Type 0 where
  pub id : String
  pub target_proposal_event_id : String
  pub reason : String

unfoldable pub proposal_challenge_payload_schema : ProposalChallengePayload → Bool
unfolding non_empty_string
proposal_challenge_payload_schema p =
    non_empty_string p.id
    && (non_empty_string p.target_proposal_event_id && non_empty_string p.reason)

-- The field `status` is the literal "accepted_for_now".
pub record ProposalAcceptancePayload : Type 0 where
  pub id : String
  pub target_proposal_event_id : String
  pub rationale : String

unfoldable pub proposal_acceptance_payload_schema : ProposalAcceptancePayload → Bool
unfolding non_empty_string
proposal_acceptance_payload_schema p =
    non_empty_string p.id
    && (non_empty_string p.target_proposal_event_id && non_empty_string p.rationale)

pub record FinalCandidateProposal : Type 0 where
  pub id : String
  pub candidate_ids : List String
  pub alternative_candidate_ids : List String
  pub source_event_ids : List String
  pub recommendation : String
  pub applicability_conditions : List String
  pub rationale : String
  pub limitations : List String
  pub status : SemanticProposalStatus

unfoldable pub final_candidate_proposal_schema : FinalCandidateProposal → Bool
unfolding non_empty_string ids is_empty non_empty_source_event_ids
final_candidate_proposal_schema p =
    non_empty_string p.id
    && (not (is_empty p.candidate_ids)
        && (ids p.candidate_ids
            && (ids p.alternative_candidate_ids
                && (non_empty_source_event_ids p.source_event_ids
                    && (non_empty_string p.recommendation
                        && (ids p.applicability_conditions
                            && (non_empty_string p.rationale && ids p.limitations)))))))

-- The field `status` is the literal "recorded".
pub record FinalAudit : Type 0 where
  pub id : String
  pub target_final_candidate_proposal_event_id : String
  pub findings : List String
  pub risks : List String
  pub unresolved_objection_ids : List String
  pub quality_obligation_ids : List String
  pub evidence_need_ids : List String
  pub omissions : List String
  pub compression_problems : List String
  pub limitations : List String
  pub continuation_suggestions : List String

unfoldable pub final_audit_schema : FinalAudit → Bool
unfolding non_empty_string ids
final_audit_schema a =
    non_empty_string a.id
    && (non_empty_string a.target_final_candidate_proposal_event_id
        && (ids a.findings
            && (ids a.risks
                && (ids a.unresolved_objection_ids
                    && (ids a.quality_obligation_ids
                        && (ids a.evidence_need_ids
                            && (ids a.omissions
                                && (ids a.compression_problems
                                    && (ids a.limitations && ids a.continuation_suggestions)))))))))
