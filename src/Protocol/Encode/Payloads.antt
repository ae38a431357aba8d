-- ===== src/Protocol/Encode/Payloads.antt =====
-- packages/protocol/src: a payload of a known shape as the JSON value that it is.
use deliberum.Protocol.Common.{Json}
use deliberum.Protocol.Encode.Core.{topic_contract_json, sealed_batch_json}
use deliberum.Protocol.Encode.Proposals.{
  extraction_proposal_json, proposal_challenge_payload_json, proposal_acceptance_payload_json,
  process_proposal_json, process_proposal_challenge_payload_json,
  process_proposal_decision_payload_json, final_candidate_proposal_json, final_audit_json,
}
use deliberum.Protocol.Encode.Deliberation.{evidence_result_json}
use deliberum.Protocol.Events.{
  Payload, json, topic_contract, sealed_batch, extraction_proposal, proposal_challenge,
  proposal_acceptance, process_proposal, process_proposal_challenge, process_proposal_decision,
  final_candidate_proposal, final_audit, evidence_result,
}

unfoldable pub payload_json : Payload → Json
unfolding topic_contract_json sealed_batch_json extraction_proposal_json
    proposal_challenge_payload_json proposal_acceptance_payload_json process_proposal_json
    process_proposal_challenge_payload_json process_proposal_decision_payload_json
    final_candidate_proposal_json final_audit_json evidence_result_json
payload_json (topic_contract x) = topic_contract_json x
payload_json (sealed_batch x) = sealed_batch_json x
payload_json (extraction_proposal x) = extraction_proposal_json x
payload_json (proposal_challenge x) = proposal_challenge_payload_json x
payload_json (proposal_acceptance x) = proposal_acceptance_payload_json x
payload_json (process_proposal x) = process_proposal_json x
payload_json (process_proposal_challenge x) = process_proposal_challenge_payload_json x
payload_json (process_proposal_decision x) = process_proposal_decision_payload_json x
payload_json (final_candidate_proposal x) = final_candidate_proposal_json x
payload_json (final_audit x) = final_audit_json x
payload_json (evidence_result x) = evidence_result_json x
payload_json (json v) = v
