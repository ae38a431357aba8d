-- ===== src/Core/ExtractionProposals.antt =====
-- packages/core/src/extraction-proposals.ts: proposing extracted objects, challenging and accepting.
-- The results of the three operations are the store's: the event and whether it was appended.
pub mod Accept
pub mod Again
pub mod Shown
use deliberum.Prelude.{
  ℕ, zero, suc, ◌+◌, ◌-◌, ◌≤◌, ◌<◌, max, String, ◌+++◌, ◌≡◌, refl, sym, ap, ◌∙◌, ◌≢◌, ◌↔◌, ◌⊎◌, inl,
  inr, Bool, true, false, ◌&&◌, ◌||◌, not, Option, none, some, List, [], ◌∷◌, ◌++◌, map, arith,
  eq_iff, eq_refl, ltb, leb, nat_eq, ◌==◌, if◌then◌else◌, ltb→lt, leb→le, Bool-cases, Option-cases,
  String_discrete, ℕ_discrete, length, length-append, Map, get, set, get-set, get_or, filter, find,
  any, all, contains, get_last?, add_to_set, to_set, insert_by, sort_by, Never, In, In-append_left,
  In-append_last, In-append_one, In-filter, In-filter_intro, filter-append, get_last?-append_one,
  contains→In, In→contains, Distinct, Distinct-append_one, to_set-Distinct, In-to_set, all→In,
  In→all, Distinct-length-le,
}
use deliberum.Errors.{
  Error, Result, ok, err, Exec, ◌>>=◌, ◌>>◌, lift, require, invalid_extraction_proposal_input,
  extraction_proposal_not_found, extraction_source_event_not_found,
  invalid_extraction_proposal_target,
}
use deliberum.Protocol.Deliberation.{Candidate, Claim, Objection, EvidenceNeed, QualityObligation}
use deliberum.Protocol.Proposals.{
  ExtractionProposal, ProposalChallengePayload, ProposalAcceptancePayload, SemanticProposalStatus,
  extraction_candidate_schema, extraction_claim_schema, extraction_objection_schema,
  extraction_evidence_need_schema, extraction_quality_obligation_schema, extraction_proposal_schema,
  proposal_challenge_payload_schema, proposal_acceptance_payload_schema,
}
use deliberum.Protocol.Events.{
  AppendEventInput, EventEnvelope, empty_trace, public, extraction_proposal, proposal_challenge,
  proposal_acceptance,
}
use deliberum.Protocol.Host.{Host}
use deliberum.Storage.Memory.{InMemoryEventStore, AppendEventResult, get_event}
use deliberum.Core.World.{World, next_id, get_clock, get_schema_version, assert_options, append}
use deliberum.Core.Projections.{
  extraction_proposed, proposal_challenged, proposal_accepted, safe_parse_extraction_proposal,
}

-- An object of none is a value that does not have the shape at all.
pub record ProposeExtractionInput : Type 0 where
  pub session_id : String
  pub author_id : String
  pub candidates : Option (List (Option Candidate))
  pub claims : Option (List (Option Claim))
  pub objections : Option (List (Option Objection))
  pub evidence_needs : Option (List (Option EvidenceNeed))
  pub quality_obligations : Option (List (Option QualityObligation))
  pub rationale : String
  pub idempotency_key : Option String

pub record ChallengeProposalInput : Type 0 where
  pub session_id : String
  pub target_proposal_event_id : String
  pub author_id : String
  pub reason : String
  pub idempotency_key : Option String

pub record AcceptProposalInput : Type 0 where
  pub session_id : String
  pub target_proposal_event_id : String
  pub author_id : String
  pub rationale : String
  pub idempotency_key : Option String

module _ {A : Type 0} where
  -- `schema.safeParse(value)`
  unfoldable pub parse_object : (A → Bool) → Option A → Option A
  parse_object schema none = none
  parse_object schema (some a) = if schema a then some a else none

  unfoldable pub keep_parsed : Option A → Result (List A) → Result (List A)
  keep_parsed none rest = err invalid_extraction_proposal_input
  keep_parsed (some a) (ok rest) = ok (a ∷ rest)
  keep_parsed (some a) (err e) = err e

  unfoldable pub parse_values : (A → Bool) → List (Option A) → Result (List A)
  unfolding parse_object keep_parsed
  parse_values schema [] = ok []
  parse_values schema (v ∷ vs) = keep_parsed (parse_object schema v) (parse_values schema vs)

  unfoldable pub parse_extraction_list : (A → Bool) → Option (List (Option A)) → Result (List A)
  unfolding get_or parse_values
  parse_extraction_list schema values = parse_values schema (get_or [] values)

  unfoldable pub sources_of : (A → List String) → List A → List String
  sources_of sources [] = []
  sources_of sources (a ∷ rest) = sources a ++ sources_of sources rest

unfoldable pub collect_source_event_ids :
    List Candidate
    → List Claim
    → List Objection
    → List EvidenceNeed
    → List QualityObligation
    → List String
unfolding to_set sources_of
collect_source_event_ids candidates claims objections needs obligations = to_set (
    sources_of (λ c. c.source_event_ids) candidates
    ++ (sources_of (λ c. c.source_event_ids) claims
        ++ (sources_of (λ o. o.source_event_ids) objections
            ++ (sources_of (λ n. n.source_event_ids) needs
                ++ sources_of (λ q. q.source_event_ids) obligations))))

unfoldable pub source_in_session : String → Option EventEnvelope → Bool
source_in_session session_id none = false
source_in_session session_id (some e) = e.session_id == session_id

unfoldable pub assert_source_events_exist :
    InMemoryEventStore → String → List String → Result (Unit {0})
unfolding get_event source_in_session
assert_source_events_exist s session_id [] = ok tt
assert_source_events_exist s session_id (event_id ∷ event_ids) =
    let rest = assert_source_events_exist s session_id event_ids in
    if source_in_session session_id (get_event s event_id)
    then rest
    else err (extraction_source_event_not_found event_id)

unfoldable pub parse_extraction_proposal : ExtractionProposal → Result ExtractionProposal
unfolding extraction_proposal_schema
parse_extraction_proposal p =
    if extraction_proposal_schema p then ok p else err invalid_extraction_proposal_input

unfoldable pub parse_proposal_challenge_payload :
    ProposalChallengePayload → Result ProposalChallengePayload
unfolding proposal_challenge_payload_schema
parse_proposal_challenge_payload p =
    if proposal_challenge_payload_schema p then ok p else err invalid_extraction_proposal_input

unfoldable pub parse_proposal_acceptance_payload :
    ProposalAcceptancePayload → Result ProposalAcceptancePayload
unfolding proposal_acceptance_payload_schema
parse_proposal_acceptance_payload p =
    if proposal_acceptance_payload_schema p then ok p else err invalid_extraction_proposal_input

unfoldable pub check_extraction_target :
    String → String → Option EventEnvelope → Result EventEnvelope
unfolding safe_parse_extraction_proposal
check_extraction_target session_id target none = err (extraction_proposal_not_found target)
check_extraction_target session_id target (some e) =
    if not (e.session_id == session_id)
    then err invalid_extraction_proposal_target
    else if not (e.type == extraction_proposed)
    then err invalid_extraction_proposal_target
    else elim (safe_parse_extraction_proposal e.payload) [
      | none ↦ err invalid_extraction_proposal_target
      | some _ ↦ ok e
    ]

unfoldable pub get_target_extraction_proposal_event :
    InMemoryEventStore → String → String → Result EventEnvelope
unfolding get_event check_extraction_target
get_target_extraction_proposal_event s session_id target =
    check_extraction_target session_id target (get_event s target)

abbrev pub acceptance_payload :
    AcceptProposalInput → EventEnvelope → String → ProposalAcceptancePayload
acceptance_payload input target payload_id = record {
  id = payload_id;
  target_proposal_event_id = target.id;
  rationale = input.rationale;
}

abbrev pub proposal_challenge_payload :
    ChallengeProposalInput → EventEnvelope → String → ProposalChallengePayload
proposal_challenge_payload input target payload_id = record {
  id = payload_id;
  target_proposal_event_id = target.id;
  reason = input.reason;
}

-- The proposal that `proposeExtraction` asks the schema to parse.
abbrev pub extraction_to_propose :
    ProposeExtractionInput
    → String
    → List Candidate
    → List Claim
    → List Objection
    → List EvidenceNeed
    → List QualityObligation
    → List String
    → ExtractionProposal
extraction_to_propose input proposal_id candidates claims objections needs obligations sources =
    record {
      id = proposal_id;
      source_event_ids = sources;
      candidates = candidates;
      claims = claims;
      objections = objections;
      evidence_needs = needs;
      quality_obligations = obligations;
      rationale = input.rationale;
      status = SemanticProposalStatus.proposed;
    }

module _ (h : Host) where
  unfoldable pub extraction_input :
      ProposeExtractionInput → String → String → ExtractionProposal → AppendEventInput
  unfolding get_schema_version
  extraction_input input event_id created_at proposal = record {
    id = event_id;
    session_id = input.session_id;
    schema_version = get_schema_version h;
    type = extraction_proposed;
    author_id = input.author_id;
    created_at = created_at;
    based_on_event_ids = proposal.source_event_ids;
    batch_id = none;
    visibility = public;
    idempotency_key = input.idempotency_key;
    trace = empty_trace;
    payload = extraction_proposal proposal;
  }

  abbrev pub check_sources : String → List String → Exec World (Unit {0})
  check_sources session_id sources w = (assert_source_events_exist w.store session_id sources, w)

  abbrev pub find_proposal : String → String → Exec World EventEnvelope
  find_proposal session_id target w =
      (get_target_extraction_proposal_event w.store session_id target, w)

  unfoldable pub propose_extraction : ProposeExtractionInput → Exec World AppendEventResult
  unfolding next_id get_clock
  propose_extraction input =
      assert_options h
      >> lift (parse_extraction_list extraction_candidate_schema input.candidates)
      >>= λ candidates.
          lift (parse_extraction_list extraction_claim_schema input.claims) >>= λ claims.
          lift (parse_extraction_list extraction_objection_schema input.objections)
          >>= λ objections.
              lift (parse_extraction_list extraction_evidence_need_schema input.evidence_needs)
              >>= λ needs.
                  lift (
                    parse_extraction_list extraction_quality_obligation_schema
                      input.quality_obligations)
                  >>= λ obligations.
                      require
                        (not (
                          nat_eq
                            (length candidates
                              + length claims
                              + length objections
                              + length needs
                              + length obligations)
                            0))
                        invalid_extraction_proposal_input
                      >> (let sources =
                            collect_source_event_ids candidates claims objections needs
                              obligations in
                          check_sources input.session_id sources >> next_id h >>= λ proposal_id.
                          next_id h >>= λ event_id. get_clock h >>= λ created_at.
                          lift (
                            parse_extraction_proposal (
                              extraction_to_propose input proposal_id candidates claims objections
                                needs obligations sources))
                          >>= λ proposal.
                              append h (extraction_input input event_id created_at proposal))

  unfoldable pub challenge_input :
      ChallengeProposalInput
      → EventEnvelope
      → String
      → String
      → ProposalChallengePayload
      → AppendEventInput
  unfolding get_schema_version
  challenge_input input target event_id created_at payload = record {
    id = event_id;
    session_id = input.session_id;
    schema_version = get_schema_version h;
    type = proposal_challenged;
    author_id = input.author_id;
    created_at = created_at;
    based_on_event_ids = target.id ∷ [];
    batch_id = none;
    visibility = public;
    idempotency_key = input.idempotency_key;
    trace = empty_trace;
    payload = proposal_challenge payload;
  }

  unfoldable pub challenge_proposal : ChallengeProposalInput → Exec World AppendEventResult
  unfolding next_id get_clock
  challenge_proposal input =
      assert_options h
      >> find_proposal input.session_id input.target_proposal_event_id
      >>= λ target. get_clock h >>= λ created_at. next_id h >>= λ payload_id.
          lift
            (parse_proposal_challenge_payload (proposal_challenge_payload input target payload_id))
          >>= λ payload. next_id h >>= λ event_id.
              append h (challenge_input input target event_id created_at payload)

  unfoldable pub accepted_input :
      AcceptProposalInput
      → EventEnvelope
      → String
      → String
      → ProposalAcceptancePayload
      → AppendEventInput
  unfolding get_schema_version
  accepted_input input target event_id created_at payload = record {
    id = event_id;
    session_id = input.session_id;
    schema_version = get_schema_version h;
    type = proposal_accepted;
    author_id = input.author_id;
    created_at = created_at;
    based_on_event_ids = target.id ∷ [];
    batch_id = none;
    visibility = public;
    idempotency_key = input.idempotency_key;
    trace = empty_trace;
    payload = proposal_acceptance payload;
  }

  unfoldable pub accept_proposal : AcceptProposalInput → Exec World AppendEventResult
  unfolding next_id get_clock
  accept_proposal input =
      assert_options h
      >> find_proposal input.session_id input.target_proposal_event_id
      >>= λ target. get_clock h >>= λ created_at. next_id h >>= λ payload_id.
          lift (parse_proposal_acceptance_payload (acceptance_payload input target payload_id))
          >>= λ payload. next_id h >>= λ event_id.
              append h (accepted_input input target event_id created_at payload)
