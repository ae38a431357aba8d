-- ===== src/Protocol/Core.antt =====
-- packages/protocol/src/core.ts: the topic contract and the sealed batch. A schema is the test of
-- its contents; the shapes of the values are their types here.
use deliberum.Prelude.{
  ℕ, String, Bool, true, false, ◌&&◌, Option, none, some, List, [], ◌∷◌, ltb, length, if◌then◌else◌,
}
use deliberum.Protocol.Common.{Fields, non_empty_string, array_of, optional, ids}

pub data SealedBatchPurpose : Type 0 where
  initial_divergence relation_mapping final_contest blind_reframe : SealedBatchPurpose

pub data SealedBatchRevealPolicy : Type 0 where
  all_completed quorum deadline manual : SealedBatchRevealPolicy

-- `.catchall(JsonValueSchema)` leaves further keys, which stand in `extra`.
pub record BudgetLease : Type 0 where
  pub max_events : Option ℕ
  pub max_provider_calls : Option ℕ
  pub max_estimated_cost_cents : Option ℕ
  pub max_run_seconds : Option ℕ
  pub participant_timeout_ms : Option ℕ
  pub overall_timeout_ms : Option ℕ
  pub extra : Fields

unfoldable pub positive : ℕ → Bool
positive n = ltb 0 n

unfoldable pub budget_lease_schema : BudgetLease → Bool
unfolding positive optional
budget_lease_schema b =
    optional positive b.max_events
    && (optional positive b.max_run_seconds
        && (optional positive b.participant_timeout_ms && optional positive b.overall_timeout_ms))

pub record GovernanceRule : Type 0 where
  pub id : Option String
  pub description : Option String
  pub orchestrated_run : Option Bool
  pub run_schema_version : Option String
  pub sealed_divergence_purpose : Option SealedBatchPurpose
  pub sealed_divergence_reveal_policy : Option SealedBatchRevealPolicy
  pub requires_explicit_process_decisions : Option Bool
  pub extra : Fields

unfoldable pub governance_rule_schema : GovernanceRule → Bool
unfolding non_empty_string optional
governance_rule_schema r =
    optional non_empty_string r.id
    && (optional non_empty_string r.description && optional non_empty_string r.run_schema_version)

pub record ResourcePolicyResourceRef : Type 0 where
  pub resource_id : String
  pub required : Option Bool
  pub preferred_delivery_mode : Option String
  pub allowed_delivery_modes : Option (List String)
  pub max_base64_size_bytes : Option ℕ
  pub allow_hosted_content_url : Option Bool
  pub extra : Fields

unfoldable pub resource_policy_resource_ref_schema : ResourcePolicyResourceRef → Bool
unfolding non_empty_string optional ids
resource_policy_resource_ref_schema r =
    non_empty_string r.resource_id
    && (optional non_empty_string r.preferred_delivery_mode
        && optional ids r.allowed_delivery_modes)

pub record ResourcePolicy : Type 0 where
  pub resource_refs : Option (List ResourcePolicyResourceRef)
  pub default_required : Option Bool
  pub default_delivery_modes : Option (List String)
  pub extra : Fields

unfoldable pub resource_policy_schema : ResourcePolicy → Bool
unfolding array_of optional ids resource_policy_resource_ref_schema
resource_policy_schema p =
    optional (array_of resource_policy_resource_ref_schema) p.resource_refs
    && optional ids p.default_delivery_modes

pub record TopicContract : Type 0 where
  pub id : String
  pub title : String
  pub topic : String
  pub goals : List String
  pub constraints : List String
  pub output_expectations : List String
  pub participant_ids : List String
  pub allowed_adapters : List String
  pub budget_lease : BudgetLease
  pub governance_rules : List GovernanceRule
  pub resource_policy : Option ResourcePolicy

unfoldable pub topic_contract_schema : TopicContract → Bool
unfolding non_empty_string array_of optional ids budget_lease_schema governance_rule_schema
    resource_policy_schema
topic_contract_schema c =
    non_empty_string c.id
    && (non_empty_string c.title
        && (non_empty_string c.topic
            && (ids c.goals
                && (ids c.constraints
                    && (ids c.output_expectations
                        && (ids c.participant_ids
                            && (ids c.allowed_adapters
                                && (budget_lease_schema c.budget_lease
                                    && (array_of governance_rule_schema c.governance_rules
                                        && optional resource_policy_schema
                                            c.resource_policy)))))))))

pub data SealedBatchStatus : Type 0 where
  open_status sealed revealed cancelled : SealedBatchStatus

pub record SealedBatch : Type 0 where
  pub id : String
  pub session_id : String
  pub purpose : SealedBatchPurpose
  pub status : SealedBatchStatus
  pub participant_ids : List String
  pub opened_at : String
  pub revealed_at : Option String
  pub reveal_policy : SealedBatchRevealPolicy
  pub quorum_count : Option ℕ
  pub deadline_at : Option String

-- The issues that `superRefine` of `SealedBatchSchema` adds.
pub data BatchIssue : Type 0 where
  quorum_required quorum_exceeds_participants quorum_not_allowed : BatchIssue
  deadline_required deadline_invalid deadline_not_allowed : BatchIssue

unfoldable pub is_quorum : SealedBatchRevealPolicy → Bool
is_quorum quorum = true
is_quorum _ = false

unfoldable pub is_deadline : SealedBatchRevealPolicy → Bool
is_deadline deadline = true
is_deadline _ = false

quorum_issues : Bool → Option ℕ → ℕ → List BatchIssue
quorum_issues true none n = quorum_required ∷ []
quorum_issues true (some q) n = if ltb 0 n && ltb n q then quorum_exceeds_participants ∷ [] else []
quorum_issues false none n = []
quorum_issues false (some q) n = quorum_not_allowed ∷ []

deadline_issues : Bool → Option String → (String → Bool) → List BatchIssue
deadline_issues true none finite = deadline_required ∷ []
deadline_issues true (some t) finite = if finite t then [] else deadline_invalid ∷ []
deadline_issues false none finite = []
deadline_issues false (some t) finite = deadline_not_allowed ∷ []

-- `finite t` stands for `Number.isFinite(Date.parse(t))`.
unfoldable pub batch_issues : (String → Bool) → SealedBatch → List BatchIssue × List BatchIssue
unfolding is_quorum is_deadline quorum_issues deadline_issues
batch_issues finite b = (
  quorum_issues (is_quorum b.reveal_policy) b.quorum_count (length b.participant_ids),
  deadline_issues (is_deadline b.reveal_policy) b.deadline_at finite,
)

unfoldable pub is_empty {ℓ} : {A : Type ℓ} → List A → Bool
is_empty [] = true
is_empty (x ∷ xs) = false

-- Zod runs `superRefine` only on a value that passes the object's own checks.
unfoldable pub sealed_batch_schema : (String → Bool) → SealedBatch → Bool
unfolding batch_issues is_empty non_empty_string ids optional positive
sealed_batch_schema finite b =
    non_empty_string b.id
    && (non_empty_string b.session_id
        && (ids b.participant_ids
            && (non_empty_string b.opened_at
                && (optional non_empty_string b.revealed_at
                    && (optional positive b.quorum_count
                        && (optional non_empty_string b.deadline_at
                            && (is_empty (batch_issues finite b).0
                                && is_empty (batch_issues finite b).1)))))))
