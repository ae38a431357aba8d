-- ===== src/Protocol/Encode/Core.antt =====
-- packages/protocol/src/core.ts: the values of the schemas as JSON objects, under their keys.
use deliberum.Protocol.Common.{Json, bool, text, object, Fields, end, field}
use deliberum.Protocol.Encode.{count, list_of, texts, put_optional}
use deliberum.Protocol.Core.{
  SealedBatchPurpose, SealedBatchRevealPolicy, SealedBatchStatus, BudgetLease, GovernanceRule,
  ResourcePolicyResourceRef, ResourcePolicy, TopicContract, SealedBatch,
}

unfoldable pub sealed_batch_purpose_json : SealedBatchPurpose → Json
sealed_batch_purpose_json SealedBatchPurpose.initial_divergence = text "initial_divergence"
sealed_batch_purpose_json SealedBatchPurpose.relation_mapping = text "relation_mapping"
sealed_batch_purpose_json SealedBatchPurpose.final_contest = text "final_contest"
sealed_batch_purpose_json SealedBatchPurpose.blind_reframe = text "blind_reframe"

unfoldable pub sealed_batch_reveal_policy_json : SealedBatchRevealPolicy → Json
sealed_batch_reveal_policy_json SealedBatchRevealPolicy.all_completed = text "all_completed"
sealed_batch_reveal_policy_json SealedBatchRevealPolicy.quorum = text "quorum"
sealed_batch_reveal_policy_json SealedBatchRevealPolicy.deadline = text "deadline"
sealed_batch_reveal_policy_json SealedBatchRevealPolicy.manual = text "manual"

unfoldable pub sealed_batch_status_json : SealedBatchStatus → Json
sealed_batch_status_json SealedBatchStatus.open_status = text "open"
sealed_batch_status_json SealedBatchStatus.sealed = text "sealed"
sealed_batch_status_json SealedBatchStatus.revealed = text "revealed"
sealed_batch_status_json SealedBatchStatus.cancelled = text "cancelled"

unfoldable pub budget_lease_fields : BudgetLease → Fields
unfolding count put_optional
budget_lease_fields r = put_optional "maxEvents" count r.max_events (
    put_optional "maxProviderCalls" count r.max_provider_calls (
      put_optional "maxEstimatedCostCents" count r.max_estimated_cost_cents (
        put_optional "maxRunSeconds" count r.max_run_seconds (
          put_optional "participantTimeoutMs" count r.participant_timeout_ms
            (put_optional "overallTimeoutMs" count r.overall_timeout_ms (r.extra))))))

unfoldable pub budget_lease_json : BudgetLease → Json
unfolding budget_lease_fields
budget_lease_json r = object (budget_lease_fields r)

unfoldable pub governance_rule_fields : GovernanceRule → Fields
unfolding sealed_batch_purpose_json sealed_batch_reveal_policy_json put_optional
governance_rule_fields r = put_optional "id" text r.id (
    put_optional "description" text r.description (
      put_optional "orchestratedRun" bool r.orchestrated_run (
        put_optional "runSchemaVersion" text r.run_schema_version (
          put_optional "sealedDivergencePurpose" sealed_batch_purpose_json
            r.sealed_divergence_purpose
            (put_optional "sealedDivergenceRevealPolicy" sealed_batch_reveal_policy_json
              r.sealed_divergence_reveal_policy
              (put_optional "requiresExplicitProcessDecisions" bool
                r.requires_explicit_process_decisions (r.extra)))))))

unfoldable pub governance_rule_json : GovernanceRule → Json
unfolding governance_rule_fields
governance_rule_json r = object (governance_rule_fields r)

unfoldable pub resource_policy_resource_ref_fields : ResourcePolicyResourceRef → Fields
unfolding count texts put_optional
resource_policy_resource_ref_fields r = field "resourceId" (text r.resource_id) (
    put_optional "required" bool r.required (
      put_optional "preferredDeliveryMode" text r.preferred_delivery_mode (
        put_optional "allowedDeliveryModes" texts r.allowed_delivery_modes (
          put_optional "maxBase64SizeBytes" count r.max_base64_size_bytes
            (put_optional "allowHostedContentUrl" bool r.allow_hosted_content_url (r.extra))))))

unfoldable pub resource_policy_resource_ref_json : ResourcePolicyResourceRef → Json
unfolding resource_policy_resource_ref_fields
resource_policy_resource_ref_json r = object (resource_policy_resource_ref_fields r)

unfoldable pub resource_policy_fields : ResourcePolicy → Fields
unfolding list_of resource_policy_resource_ref_json texts put_optional
resource_policy_fields r =
    put_optional "resourceRefs" (list_of resource_policy_resource_ref_json) r.resource_refs (
      put_optional "defaultRequired" bool r.default_required
        (put_optional "defaultDeliveryModes" texts r.default_delivery_modes (r.extra)))

unfoldable pub resource_policy_json : ResourcePolicy → Json
unfolding resource_policy_fields
resource_policy_json r = object (resource_policy_fields r)

unfoldable pub topic_contract_fields : TopicContract → Fields
unfolding budget_lease_json governance_rule_json list_of resource_policy_json texts put_optional
topic_contract_fields r = field "id" (text r.id) (
    field "title" (text r.title) (
      field "topic" (text r.topic) (
        field "goals" (texts r.goals) (
          field "constraints" (texts r.constraints) (
            field "outputExpectations" (texts r.output_expectations) (
              field "participantIds" (texts r.participant_ids) (
                field "allowedAdapters" (texts r.allowed_adapters) (
                  field "budgetLease" (budget_lease_json r.budget_lease) (
                    field "governanceRules" (list_of governance_rule_json r.governance_rules) (
                      put_optional "resourcePolicy" resource_policy_json r.resource_policy
                        end))))))))))

unfoldable pub topic_contract_json : TopicContract → Json
unfolding topic_contract_fields
topic_contract_json r = object (topic_contract_fields r)

unfoldable pub sealed_batch_fields : SealedBatch → Fields
unfolding count sealed_batch_purpose_json sealed_batch_reveal_policy_json sealed_batch_status_json
    texts put_optional
sealed_batch_fields r = field "id" (text r.id) (
    field "sessionId" (text r.session_id) (
      field "purpose" (sealed_batch_purpose_json r.purpose) (
        field "status" (sealed_batch_status_json r.status) (
          field "participantIds" (texts r.participant_ids) (
            field "openedAt" (text r.opened_at) (
              put_optional "revealedAt" text r.revealed_at (
                field "revealPolicy" (sealed_batch_reveal_policy_json r.reveal_policy) (
                  put_optional "quorumCount" count r.quorum_count
                    (put_optional "deadlineAt" text r.deadline_at end)))))))))

unfoldable pub sealed_batch_json : SealedBatch → Json
unfolding sealed_batch_fields
sealed_batch_json r = object (sealed_batch_fields r)
