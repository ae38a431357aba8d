-- ===== src/Core/Projections.antt =====
-- packages/core/src/projections.ts: what the events of a session say about its proposals.
pub mod Frontier
pub mod States
pub mod Lifecycle
use deliberum.Prelude.{
  ℕ, zero, suc, ◌+◌, ◌-◌, ◌≤◌, ◌<◌, max, String, ◌+++◌, ◌≡◌, refl, sym, ap, ◌∙◌, ◌≢◌, ◌↔◌, ◌⊎◌, inl,
  inr, Bool, true, false, ◌&&◌, ◌||◌, not, Option, none, some, List, [], ◌∷◌, ◌++◌, map, arith,
  eq_iff, eq_refl, ltb, leb, nat_eq, ◌==◌, if◌then◌else◌, ltb→lt, leb→le, Bool-cases, Option-cases,
  String_discrete, ℕ_discrete, length, length-append, Map, get, set, get-set, get_or, filter, find,
  any, all, contains, get_last?, add_to_set, to_set, insert_by, sort_by, Never, In, In-append_left,
  In-append_last, In-append_one, In-filter, In-filter_intro, filter-append, get_last?-append_one,
  contains→In, In→contains, Distinct, Distinct-append_one, to_set-Distinct, In-to_set, all→In,
  In→all, Distinct-length-le,
}
use deliberum.Errors.{Error, Result, ok, err, map_ok, invalid_projection_input}
use deliberum.Protocol.Deliberation.{
  Candidate, Claim, Objection, EvidenceNeed, QualityObligation, CandidateStatus, active,
}
use deliberum.Protocol.Proposals.{
  ExtractionProposal, ProposalChallengePayload, ProposalAcceptancePayload,
  extraction_proposal_schema, proposal_challenge_payload_schema, proposal_acceptance_payload_schema,
}
use deliberum.Protocol.Events.{
  EventEnvelope, Payload, extraction_proposal, proposal_challenge, proposal_acceptance,
}
use deliberum.Storage.Memory.{InMemoryEventStore, list_events}
use deliberum.Storage.Integrity.{sort_events}

abbrev pub extraction_proposed : String
extraction_proposed = "extraction_proposed"

abbrev pub proposal_challenged : String
proposal_challenged = "proposal_challenged"

abbrev pub proposal_accepted : String
proposal_accepted = "proposal_accepted"

pub data ProjectionInput : Type 0 where
  from_store : InMemoryEventStore → String → ProjectionInput
  from_events : List EventEnvelope → Option String → ProjectionInput

pub record EventRange : Type 0 where
  pub from_sequence : ℕ
  pub to_sequence : ℕ

pub record ProjectionMetadata : Type 0 where
  pub event_range : Option EventRange
  pub event_ids : List String

pub record ExtractionProposalState : Type 0 where
  pub proposal_event_id : String
  pub proposal_id : String
  pub session_id : String
  pub sequence : ℕ
  pub source_event_ids : List String
  pub proposal : ExtractionProposal
  pub challenge_event_ids : List String
  pub acceptance_event_ids : List String
  pub is_challenged : Bool
  pub is_accepted_for_now : Bool

-- `safeParse` of the three schemas.
unfoldable pub safe_parse_extraction_proposal : Payload → Option ExtractionProposal
unfolding extraction_proposal_schema
safe_parse_extraction_proposal (extraction_proposal p) =
    if extraction_proposal_schema p then some p else none
safe_parse_extraction_proposal _ = none

unfoldable pub safe_parse_proposal_challenge : Payload → Option ProposalChallengePayload
unfolding proposal_challenge_payload_schema
safe_parse_proposal_challenge (proposal_challenge p) =
    if proposal_challenge_payload_schema p then some p else none
safe_parse_proposal_challenge _ = none

unfoldable pub safe_parse_proposal_acceptance : Payload → Option ProposalAcceptancePayload
unfolding proposal_acceptance_payload_schema
safe_parse_proposal_acceptance (proposal_acceptance p) =
    if proposal_acceptance_payload_schema p then some p else none
safe_parse_proposal_acceptance _ = none

unfoldable pub can_lifecycle_event_affect_proposal : EventEnvelope → ExtractionProposalState → Bool
can_lifecycle_event_affect_proposal e target =
    target.session_id == e.session_id && ltb target.sequence e.sequence

abbrev pub States : Type 0
States = Map ExtractionProposalState

abbrev pub new_state : EventEnvelope → ExtractionProposal → ExtractionProposalState
new_state e p = record {
  proposal_event_id = e.id;
  proposal_id = p.id;
  session_id = e.session_id;
  sequence = e.sequence;
  source_event_ids = p.source_event_ids;
  proposal = p;
  challenge_event_ids = [];
  acceptance_event_ids = [];
  is_challenged = false;
  is_accepted_for_now = false;
}

abbrev pub challenge_state : EventEnvelope → ExtractionProposalState → ExtractionProposalState
challenge_state e st = record st {
  challenge_event_ids = st.challenge_event_ids ++ e.id ∷ [];
  is_challenged = true;
}

abbrev pub accept_state : EventEnvelope → ExtractionProposalState → ExtractionProposalState
accept_state e st = record st {
  acceptance_event_ids = st.acceptance_event_ids ++ e.id ∷ [];
  is_accepted_for_now = true;
}

-- A lifecycle event changes its target if that is there and can be affected.
unfoldable pub affect :
    (EventEnvelope → ExtractionProposalState → ExtractionProposalState)
    → EventEnvelope
    → String
    → States
    → States
affect change e target m = elim (get m target) [
  | none ↦ m
  | some st ↦ if can_lifecycle_event_affect_proposal e st then set m target (change e st) else m
]

unfoldable pub record_proposal : EventEnvelope → Option ExtractionProposal → States → States
record_proposal e none m = m
record_proposal e (some p) m = set m e.id (new_state e p)

unfoldable pub record_challenge : EventEnvelope → Option ProposalChallengePayload → States → States
record_challenge e none m = m
record_challenge e (some c) m = affect challenge_state e c.target_proposal_event_id m

unfoldable pub record_acceptance :
    EventEnvelope → Option ProposalAcceptancePayload → States → States
record_acceptance e none m = m
record_acceptance e (some a) m = affect accept_state e a.target_proposal_event_id m

-- One round of the loop over the events.
unfoldable pub project_event : States → EventEnvelope → States
project_event m e =
    if e.type == extraction_proposed
    then record_proposal e (safe_parse_extraction_proposal e.payload) m
    else if e.type == proposal_challenged
    then record_challenge e (safe_parse_proposal_challenge e.payload) m
    else if e.type == proposal_accepted
    then record_acceptance e (safe_parse_proposal_acceptance e.payload) m
    else m

unfoldable pub project_events : States → List EventEnvelope → States
project_events m [] = m
project_events m (e ∷ es) = project_events (project_event m e) es

unfoldable pub create_projection_metadata : List EventEnvelope → ProjectionMetadata
create_projection_metadata [] = record { event_range = none; event_ids = [] }
create_projection_metadata (e ∷ es) = record {
  event_range = some (record {
    from_sequence = e.sequence;
    to_sequence = (get_or e (get_last? (e ∷ es))).sequence;
  });
  event_ids = map (λ x. x.id) (e ∷ es);
}

-- An array without a session id must hold the events of one session.
unfoldable pub reject_mixed_session_events : List EventEnvelope → Result (List EventEnvelope)
reject_mixed_session_events events =
    if ltb 1 (length (to_set (map (λ e. e.session_id) events)))
    then err invalid_projection_input
    else ok events

-- The empty session id counts as none.
unfoldable pub filter_events : List EventEnvelope → Option String → Result (List EventEnvelope)
filter_events events none = reject_mixed_session_events events
filter_events events (some sid) =
    if sid == ""
    then reject_mixed_session_events events
    else ok (filter (λ e. e.session_id == sid) events)

unfoldable pub resolve_projection_events : ProjectionInput → Result (List EventEnvelope)
resolve_projection_events (from_store s sid) =
    map_ok sort_events (filter_events (list_events s sid) (some sid))
resolve_projection_events (from_events events sid) = map_ok sort_events (filter_events events sid)

pub record ExtractionProposalStatesProjection : Type 0 where
  pub proposal_states : List ExtractionProposalState
  pub projection : ProjectionMetadata

unfoldable pub states_of : List EventEnvelope → ExtractionProposalStatesProjection
states_of events = record {
  proposal_states = map (λ p. p.1) (project_events [] events);
  projection = create_projection_metadata events;
}

unfoldable pub project_extraction_proposal_states :
    ProjectionInput → Result ExtractionProposalStatesProjection
project_extraction_proposal_states input = map_ok states_of (resolve_projection_events input)

-- `DerivedCandidate`, `DerivedClaim` and the others differ in the object's type alone.
pub record Derived (A : Type 0) : Type 0 where
  pub object : A
  pub proposal_event_id : String
  pub proposal_id : String
  pub accepted_by_event_ids : List String
  pub source_event_ids : List String

unfoldable pub create_derived_object :
    {A : Type 0} → (A → List String) → ExtractionProposalState → A → Derived A
create_derived_object sources st object = record {
  object = object;
  proposal_event_id = st.proposal_event_id;
  proposal_id = st.proposal_id;
  accepted_by_event_ids = st.acceptance_event_ids;
  source_event_ids = sources object;
}

-- The objects of one kind in the accepted proposals, in order.
unfoldable pub derive :
    {A : Type 0}
    → (A → List String)
    → (ExtractionProposal → List A)
    → List ExtractionProposalState
    → List (Derived A)
derive sources objects [] = []
derive sources objects (st ∷ states) =
    map (create_derived_object sources st) (objects st.proposal) ++ derive sources objects states

pub record AcceptedDeliberationObjectsProjection : Type 0 where
  pub candidates : List (Derived Candidate)
  pub claims : List (Derived Claim)
  pub objections : List (Derived Objection)
  pub evidence_needs : List (Derived EvidenceNeed)
  pub quality_obligations : List (Derived QualityObligation)
  pub projection : ProjectionMetadata

unfoldable pub accepted_objects_of :
    ExtractionProposalStatesProjection → AcceptedDeliberationObjectsProjection
accepted_objects_of p =
    let accepted = filter (λ st. st.is_accepted_for_now) p.proposal_states in
    record {
      candidates = derive (λ c. c.source_event_ids) (λ q. q.candidates) accepted;
      claims = derive (λ c. c.source_event_ids) (λ q. q.claims) accepted;
      objections = derive (λ c. c.source_event_ids) (λ q. q.objections) accepted;
      evidence_needs = derive (λ c. c.source_event_ids) (λ q. q.evidence_needs) accepted;
      quality_obligations = derive (λ c. c.source_event_ids) (λ q. q.quality_obligations) accepted;
      projection = p.projection;
    }

unfoldable pub project_accepted_deliberation_objects :
    ProjectionInput → Result AcceptedDeliberationObjectsProjection
project_accepted_deliberation_objects input =
    map_ok accepted_objects_of (project_extraction_proposal_states input)

unfoldable pub is_active : CandidateStatus → Bool
is_active active = true
is_active _ = false

pub record CandidateFrontierProjection : Type 0 where
  pub candidates : List (Derived Candidate)
  pub projection : ProjectionMetadata

unfoldable pub frontier_of : AcceptedDeliberationObjectsProjection → CandidateFrontierProjection
frontier_of objects = record {
  candidates = filter (λ c. is_active c.object.status) objects.candidates;
  projection = objects.projection;
}

unfoldable pub project_candidate_frontier : ProjectionInput → Result CandidateFrontierProjection
project_candidate_frontier input = map_ok frontier_of (project_accepted_deliberation_objects input)

pub record QualityObligationsProjection : Type 0 where
  pub quality_obligations : List (Derived QualityObligation)
  pub projection : ProjectionMetadata

unfoldable pub obligations_of : AcceptedDeliberationObjectsProjection → QualityObligationsProjection
obligations_of objects = record {
  quality_obligations = objects.quality_obligations;
  projection = objects.projection;
}

unfoldable pub project_quality_obligations : ProjectionInput → Result QualityObligationsProjection
project_quality_obligations input =
    map_ok obligations_of (project_accepted_deliberation_objects input)
