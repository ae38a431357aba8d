-- ===== src/Protocol/Deliberation.antt =====
-- packages/protocol/src/deliberation.ts: the objects that participants put forward.
use deliberum.Prelude.{String, Bool, ◌&&◌, Option, List}
use deliberum.Protocol.Common.{non_empty_string, optional, ids}

pub data CandidateStatus : Type 0 where
  active revised absorbed rejected forked archived : CandidateStatus

pub record Candidate : Type 0 where
  pub id : String
  pub title : String
  pub description : String
  pub source_event_ids : List String
  pub status : CandidateStatus
  pub supported_by : List String
  pub attacked_by : List String
  pub quality_obligation_ids : List String
  pub assumptions : List String
  pub tradeoffs : List String
  pub applicable_when : Option (List String)

unfoldable pub candidate_schema : Candidate → Bool
unfolding non_empty_string optional ids
candidate_schema c =
    non_empty_string c.id
    && (non_empty_string c.title
        && (non_empty_string c.description
            && (ids c.source_event_ids
                && (ids c.supported_by
                    && (ids c.attacked_by
                        && (ids c.quality_obligation_ids
                            && (ids c.assumptions
                                && (ids c.tradeoffs && optional ids c.applicable_when))))))))

pub data ClaimScope : Type 0 where
  factual design preference risk process definition : ClaimScope

pub record Claim : Type 0 where
  pub id : String
  pub content : String
  pub scope : ClaimScope
  pub source_event_ids : List String
  pub supports : Option (List String)
  pub depends_on : Option (List String)
  pub challenged_by : Option (List String)

unfoldable pub claim_schema : Claim → Bool
unfolding non_empty_string optional ids
claim_schema c =
    non_empty_string c.id
    && (non_empty_string c.content
        && (ids c.source_event_ids
            && (optional ids c.supports
                && (optional ids c.depends_on && optional ids c.challenged_by))))

pub data ObjectionSeverityClaim : Type 0 where
  minor major blocking : ObjectionSeverityClaim

pub data ObjectionStatus : Type 0 where
  open_status answered partially_answered accepted downgraded unresolved archived : ObjectionStatus

pub record Objection : Type 0 where
  pub id : String
  pub target_id : String
  pub failure_mode : String
  pub consequence : String
  pub severity_claim : ObjectionSeverityClaim
  pub status : ObjectionStatus
  pub source_event_ids : List String
  pub responses : Option (List String)

unfoldable pub objection_schema : Objection → Bool
unfolding non_empty_string optional ids
objection_schema o =
    non_empty_string o.id
    && (non_empty_string o.target_id
        && (non_empty_string o.failure_mode
            && (non_empty_string o.consequence
                && (ids o.source_event_ids && optional ids o.responses))))

pub data QualityObligationScope : Type 0 where
  topic candidate branch final_output : QualityObligationScope

pub data QualityObligationStatus : Type 0 where
  unanswered answered partially_answered challenged waived unresolved : QualityObligationStatus

pub record QualityObligation : Type 0 where
  pub id : String
  pub scope : QualityObligationScope
  pub target_candidate_id : Option String
  pub requirement : String
  pub status : QualityObligationStatus
  pub source_event_ids : List String
  pub supporting_ref_ids : List String
  pub unresolved_objection_ids : List String
  pub waiver_reason : Option String

unfoldable pub quality_obligation_schema : QualityObligation → Bool
unfolding non_empty_string optional ids
quality_obligation_schema q =
    non_empty_string q.id
    && (optional non_empty_string q.target_candidate_id
        && (non_empty_string q.requirement
            && (ids q.source_event_ids
                && (ids q.supporting_ref_ids
                    && (ids q.unresolved_objection_ids
                        && optional non_empty_string q.waiver_reason)))))

pub data EvidenceNeedRequiredKind : Type 0 where
  web paper file code calculation human_confirmation tool : EvidenceNeedRequiredKind

pub data EvidenceNeedPriority : Type 0 where
  low medium high : EvidenceNeedPriority

pub data EvidenceNeedStatus : Type 0 where
  open_status in_progress satisfied waived unresolved : EvidenceNeedStatus

pub record EvidenceNeed : Type 0 where
  pub id : String
  pub target_claim_id : String
  pub required_kind : EvidenceNeedRequiredKind
  pub reason : String
  pub priority : EvidenceNeedPriority
  pub status : EvidenceNeedStatus
  pub source_event_ids : List String

unfoldable pub evidence_need_schema : EvidenceNeed → Bool
unfolding non_empty_string ids
evidence_need_schema n =
    non_empty_string n.id
    && (non_empty_string n.target_claim_id && (non_empty_string n.reason && ids n.source_event_ids))

pub record EvidenceResult : Type 0 where
  pub id : String
  pub evidence_need_id : String
  pub source : String
  pub summary : String
  pub resource_ids : Option (List String)
  pub limitations : List String
  pub challenged_by : Option (List String)

unfoldable pub evidence_result_schema : EvidenceResult → Bool
unfolding non_empty_string optional ids
evidence_result_schema r =
    non_empty_string r.id
    && (non_empty_string r.evidence_need_id
        && (non_empty_string r.source
            && (non_empty_string r.summary
                && (optional ids r.resource_ids
                    && (ids r.limitations && optional ids r.challenged_by)))))
