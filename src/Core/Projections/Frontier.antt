-- ===== src/Core/Projections/Frontier.antt =====
-- projectCandidateFrontier of packages/core/src/projections.ts.
use deliberum.Prelude.{
  In-map, In-map_intro, In-append, In-append_right, String, ◌≡◌, refl, sym, ap, ◌∙◌, ◌↔◌, inl, inr,
  true, List, [], ◌∷◌, map, filter, In, In-append_left, In-filter, In-filter_intro,
}
use mathlib.Core.Path.{subst}
use deliberum.Errors.{Result, ok, err, map_ok, ok_injective}
use deliberum.Protocol.Deliberation.{Candidate}
use deliberum.Protocol.Proposals.{ExtractionProposal}
use deliberum.Core.Projections.{
  ProjectionInput, ExtractionProposalState, ExtractionProposalStatesProjection, Derived,
  create_derived_object, derive, project_extraction_proposal_states, accepted_objects_of,
  project_accepted_deliberation_objects, is_active, CandidateFrontierProjection, frontier_of,
  project_candidate_frontier,
}

-- The object comes from one of the states.
abbrev From :
    {A : Type 0} (sources : A → List String) (objects : ExtractionProposal → List A)
    → List ExtractionProposalState
    → Derived A
    → Type 0
From {A} sources objects states d =
    (st : ExtractionProposalState) × (a : A) × In st states
    × In a (objects st.proposal)
    × (d ≡ create_derived_object sources st a)

module _ {A : Type 0} (sources : A → List String) (objects : ExtractionProposal → List A) where
  derive-From :
      (d : Derived A) (states : List ExtractionProposalState)
      → In d (derive sources objects states)
      → From sources objects states d
  unfolding derive
  derive-From d [] h = elim h [ ]
  derive-From d (st ∷ states) h =
      elim (In-append d (map (create_derived_object sources st) (objects st.proposal))
        (derive sources objects states) h) [
          | inl m ↦
              let r = In-map (create_derived_object sources st) d (objects st.proposal) m in
              (st, r.0, inl refl, r.1, r.2)
          | inr m ↦ let r = derive-From d states m in (r.0, r.1, inr r.2, r.3, r.4)
        ]

  From-derive :
      (st : ExtractionProposalState) (a : A) (states : List ExtractionProposalState)
      → In st states
      → In a (objects st.proposal)
      → In (create_derived_object sources st a) (derive sources objects states)
  unfolding derive
  From-derive st a [] h m = elim h [ ]
  From-derive st a (x ∷ states) (inl e) m =
      In-append_left (create_derived_object sources st a)
        (map (create_derived_object sources x) (objects x.proposal)) (derive sources objects states)
        (subst
          (λ y.
            In (create_derived_object sources st a)
              (map (create_derived_object sources y) (objects y.proposal)))
          e (In-map_intro (create_derived_object sources st) a (objects st.proposal) m))
  From-derive st a (x ∷ states) (inr h) m =
      In-append_right (create_derived_object sources st a)
        (map (create_derived_object sources x) (objects x.proposal)) (derive sources objects states)
        (From-derive st a states h m)

abbrev candidate_sources : Candidate → List String
candidate_sources c = c.source_event_ids

-- The candidate is in a proposal that is accepted for now, and its own status is active.
abbrev pub Stands : ExtractionProposalStatesProjection → Derived Candidate → Type 0
Stands p d =
    (st : ExtractionProposalState) × (c : Candidate) × In st p.proposal_states
    × (st.is_accepted_for_now ≡ true)
    × In c st.proposal.candidates
    × (is_active c.status ≡ true)
    × (d ≡ create_derived_object candidate_sources st c)

frontier_of-Stands :
    (p : ExtractionProposalStatesProjection) (d : Derived Candidate)
    → In d (frontier_of (accepted_objects_of p)).candidates ↔ Stands p d
unfolding frontier_of accepted_objects_of create_derived_object
frontier_of-Stands p d = (
  λ h.
      let f =
        In-filter (λ c. is_active c.object.status) d
          (derive candidate_sources (λ q. q.candidates)
            (filter (λ st. st.is_accepted_for_now) p.proposal_states))
          h in
      let r =
        derive-From candidate_sources (λ q. q.candidates) d
          (filter (λ st. st.is_accepted_for_now) p.proposal_states) f.0 in
      let g = In-filter (λ st. st.is_accepted_for_now) r.0 p.proposal_states r.2 in
      (r.0, r.1, g.0, g.1, r.3, sym (ap (λ x. is_active x.object.status) r.4) ∙ f.1, r.4),
  λ w.
      subst
        (λ x. In x (
          filter (λ c. is_active c.object.status)
            (derive candidate_sources (λ q. q.candidates)
              (filter (λ st. st.is_accepted_for_now) p.proposal_states))))
        (sym w.6)
        (In-filter_intro (λ c. is_active c.object.status)
          (create_derived_object candidate_sources w.0 w.1)
          (derive candidate_sources (λ q. q.candidates)
            (filter (λ st. st.is_accepted_for_now) p.proposal_states))
          (From-derive candidate_sources (λ q. q.candidates) w.0 w.1
            (filter (λ st. st.is_accepted_for_now) p.proposal_states)
            (In-filter_intro (λ st. st.is_accepted_for_now) w.0 p.proposal_states w.2 w.3) w.4)
          w.5),
)

frontier_from :
    (o : Result ExtractionProposalStatesProjection) (r : CandidateFrontierProjection)
    → map_ok frontier_of (map_ok accepted_objects_of o) ≡ ok r
    → (p : ExtractionProposalStatesProjection) × (o ≡ ok p)
      × ((d : Derived Candidate) → In d r.candidates ↔ Stands p d)
frontier_from (err x) r done = cc done
frontier_from (ok p) r done = (
  p,
  refl,
  λ d.
      subst (λ x. In d x.candidates ↔ Stands p d)
        (ok_injective (frontier_of (accepted_objects_of p)) r done) (frontier_of-Stands p d),
)

-- A candidate is on the frontier exactly when its proposal is accepted for now in the projected
-- states of the same events, and its own status is active.
pub project_candidate_frontier_iff :
    (input : ProjectionInput) (r : CandidateFrontierProjection)
    → project_candidate_frontier input ≡ ok r
    → (p : ExtractionProposalStatesProjection) × (project_extraction_proposal_states input ≡ ok p)
      × ((d : Derived Candidate) → In d r.candidates ↔ Stands p d)
unfolding project_candidate_frontier project_accepted_deliberation_objects
project_candidate_frontier_iff input r done =
    frontier_from (project_extraction_proposal_states input) r done
