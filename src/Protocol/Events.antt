-- ===== src/Protocol/Events.antt =====
-- packages/protocol/src/events.ts: the event envelope. `payload` is `z.unknown()` there; here it is
-- the sum of the shapes that the program's schemas accept and of all other JSON values.
use deliberum.Prelude.{ℕ, String, Bool, ◌&&◌, Option, none, List, ℕ_discrete, String_discrete}
use deliberum.Protocol.Common.{Json, non_empty_string, optional, ids}
use deliberum.Protocol.Core.{TopicContract, SealedBatch}
use deliberum.Protocol.Deliberation.{EvidenceResult}
use deliberum.Protocol.Proposals.{
  ProcessProposal, ProcessProposalChallengePayload, ProcessProposalDecisionPayload,
  ExtractionProposal, ProposalChallengePayload, ProposalAcceptancePayload, FinalCandidateProposal,
  FinalAudit,
}

pub data EventVisibility : Type 0 where
  public sealed private redacted : EventVisibility

pub record EventTrace : Type 0 where
  pub adapter_id : Option String
  pub participant_id : Option String
  pub model_id : Option String
  pub context_capsule_id : Option String
  pub resource_delivery_ids : Option (List String)
  pub prompt_hash : Option String
  pub raw_output_hash : Option String

-- `trace: {}`
abbrev pub empty_trace : EventTrace
empty_trace = record {
  adapter_id = none;
  participant_id = none;
  model_id = none;
  context_capsule_id = none;
  resource_delivery_ids = none;
  prompt_hash = none;
  raw_output_hash = none;
}

unfoldable pub event_trace_schema : EventTrace → Bool
unfolding non_empty_string optional ids
event_trace_schema t =
    optional non_empty_string t.adapter_id
    && (optional non_empty_string t.participant_id
        && (optional non_empty_string t.model_id
            && (optional non_empty_string t.context_capsule_id
                && (optional ids t.resource_delivery_ids
                    && (optional non_empty_string t.prompt_hash
                        && optional non_empty_string t.raw_output_hash)))))

pub record EventIntegrity : Type 0 where
  pub previous_event_hash : Option String
  pub event_hash : Option String

unfoldable pub event_integrity_schema : EventIntegrity → Bool
unfolding non_empty_string optional
event_integrity_schema i =
    optional non_empty_string i.previous_event_hash && optional non_empty_string i.event_hash

pub data Payload : Type 0 where
  topic_contract : TopicContract → Payload
  sealed_batch : SealedBatch → Payload
  extraction_proposal : ExtractionProposal → Payload
  proposal_challenge : ProposalChallengePayload → Payload
  proposal_acceptance : ProposalAcceptancePayload → Payload
  process_proposal : ProcessProposal → Payload
  process_proposal_challenge : ProcessProposalChallengePayload → Payload
  process_proposal_decision : ProcessProposalDecisionPayload → Payload
  final_candidate_proposal : FinalCandidateProposal → Payload
  final_audit : FinalAudit → Payload
  evidence_result : EvidenceResult → Payload
  json : Json → Payload

-- What a caller hands to the store: `AppendEventInput` of packages/storage/src/event-store.ts.
pub record AppendEventInput : Type 0 where
  pub id : String
  pub session_id : String
  pub schema_version : String
  pub type : String
  pub author_id : String
  pub created_at : String
  pub based_on_event_ids : List String
  pub batch_id : Option String
  pub visibility : EventVisibility
  pub idempotency_key : Option String
  pub trace : EventTrace
  pub payload : Payload

-- The stored event: the input and the three fields that the store assigns.
pub record EventEnvelope : Type 0 where
  pub input : AppendEventInput
  pub open input use *
  pub sequence : ℕ
  pub recorded_at : String
  pub integrity : Option EventIntegrity

-- `EventEnvelopeSchema`; the payload is unconstrained.
unfoldable pub event_envelope_schema : EventEnvelope → Bool
unfolding non_empty_string optional ids event_trace_schema event_integrity_schema
event_envelope_schema e =
    non_empty_string e.id
    && (non_empty_string e.session_id
        && (non_empty_string e.schema_version
            && (non_empty_string e.type
                && (non_empty_string e.author_id
                    && (non_empty_string e.created_at
                        && (non_empty_string e.recorded_at
                            && (ids e.based_on_event_ids
                                && (optional non_empty_string e.batch_id
                                    && (optional non_empty_string e.idempotency_key
                                        && (optional event_integrity_schema e.integrity
                                            && event_trace_schema e.trace))))))))))

pub AppendEventInput-discrete : Discrete AppendEventInput
AppendEventInput-discrete = hlevel (ℕ_discrete, String_discrete)
