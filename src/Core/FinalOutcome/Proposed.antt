-- ===== src/Core/FinalOutcome/Proposed.antt =====
-- proposeFinalCandidate of packages/core/src/final-outcome.ts: the candidates it takes and leaves.
use deliberum.Prelude.{
  ◌+◌, String, ◌≡◌, refl, sym, ap, ◌∙◌, ◌↔◌, ◌⊎◌, inl, inr, true, not, Option, none, some, List, [],
  ◌∷◌, map, eq_iff, ◌==◌, Bool-cases, Map, get, set, get-set, contains, to_set, In, In-filter,
  In-filter_intro, contains→In, In→contains, In-to_set,
}
use mathlib.Core.Path.{subst}
use deliberum.Prelude.{In-map_intro}
use deliberum.Errors.{Result, ok, err, Result-cases, ok_injective}
use deliberum.Protocol.Deliberation.{Candidate}
use deliberum.Protocol.Proposals.{FinalCandidateProposal, final_candidate_proposal_schema}
use deliberum.Protocol.Events.{AppendEventInput, final_candidate_proposal}
use deliberum.Protocol.Host.{Host}
use deliberum.Storage.Memory.{AppendEventResult}
use deliberum.Core.World.{World, assert_options-cases, append, next_id, get_clock}
use deliberum.Core.Projections.{
  from_store, Derived, CandidateFrontierProjection, project_candidate_frontier,
}
use deliberum.Storage.Memory.Append.{appended_event}
use deliberum.Core.FinalOutcome.{
  ProposeFinalCandidateInput, propose_final_candidate, final_input, final_to_propose,
  parse_final_candidate_proposal, candidates_by_id, keep_candidate, select_candidates,
  alternative_ids,
}

abbrev pub final_of :
    Host
    → ProposeFinalCandidateInput
    → World
    → CandidateFrontierProjection
    → List (Derived Candidate)
    → FinalCandidateProposal
final_of h input w frontier selected =
    final_to_propose input frontier selected (h.id_generator w.id_calls)

parsed_final :
    (p q : FinalCandidateProposal)
    → parse_final_candidate_proposal p ≡ ok q
    → (p ≡ q) × (final_candidate_proposal_schema p ≡ true)
unfolding parse_final_candidate_proposal
parsed_final p q e = elim (Bool-cases (final_candidate_proposal_schema p)) [
  | inl y ↦ (ok_injective p q (rw y at e), y)
  | inr n ↦ cc (rw n at e)
]

-- What a proposal that succeeds has found, and the append that it runs.
pub record Proposed (h : Host) (input : ProposeFinalCandidateInput) (w : World) : Type 0 where
  pub frontier : CandidateFrontierProjection
  pub selected : List (Derived Candidate)
  pub projected : project_candidate_frontier (from_store w.store input.session_id) ≡ ok frontier
  pub chosen :
      select_candidates (candidates_by_id [] frontier.candidates) (to_set input.candidate_ids)
      ≡ ok selected
  pub fine : final_candidate_proposal_schema (final_of h input w frontier selected) ≡ true
  pub run :
      propose_final_candidate h input w
      ≡ append h
          (final_input h input
            (h.id_generator (w.id_calls + 1))
            (h.clock w.clock_calls)
            (final_of h input w frontier selected))
          (record w { id_calls = w.id_calls + 1 + 1; clock_calls = w.clock_calls + 1 })

pub propose_final_candidate-Proposed :
    (h : Host) (input : ProposeFinalCandidateInput) (w : World) (r : AppendEventResult)
    → (propose_final_candidate h input w).0 ≡ ok r
    → Proposed h input w
unfolding propose_final_candidate next_id get_clock
propose_final_candidate-Proposed h input w r done = elim (assert_options-cases h w) [
  | inr e ↦ cc (rw e at done)
  | inl e ↦ elim (Result-cases (project_candidate_frontier (from_store w.store input.session_id))) [
    | inr bad ↦ cc (rw (e, bad.1) at done)
    | inl front ↦
        elim (Result-cases (
          select_candidates (candidates_by_id [] (front.0).candidates)
            (to_set input.candidate_ids))) [
              | inr bad ↦ cc (rw (e, front.1, bad.1) at done)
              | inl chosen ↦
                  elim (Result-cases
                    (parse_final_candidate_proposal (final_of h input w front.0 chosen.0))) [
                      | inr bad ↦ cc (rw (e, front.1, chosen.1, bad.1) at done)
                      | inl p ↦
                          let (same, fine) =
                            parsed_final (final_of h input w front.0 chosen.0) p.0 p.1 in
                          record {
                            frontier = front.0;
                            selected = chosen.0;
                            projected = front.1;
                            chosen = chosen.1;
                            fine = fine;
                            run = rw (e, front.1, chosen.1, p.1, ← same) refl;
                          }
                    ]
            ]
  ]
]

set_found :
    (m : Map (Derived Candidate)) (d c : Derived Candidate) (id : String)
    → get (set m d.object.id d) id ≡ some c
    → (get m id ≡ some c) ⊎ ((d ≡ c) × (d.object.id ≡ id))
set_found m d c id e = elim (Bool-cases (d.object.id == id)) [
  | inl q ↦ inr (some_eq d c (rw (get-set, q) at e), (eq_iff d.object.id id).0 q)
  | inr q ↦ inl (rw (get-set, q) at e)
]
  where
    some_eq : (a b : Derived Candidate) → some a ≡ some b → a ≡ b
    some_eq a b h = cc h

-- A candidate that the map holds under an id is one of the list, and has that id.
get-candidates_by_id :
    (m : Map (Derived Candidate)) (cs : List (Derived Candidate)) (id : String)
    (c : Derived Candidate)
    → get (candidates_by_id m cs) id ≡ some c
    → (get m id ≡ some c) ⊎ (In c cs × (c.object.id ≡ id))
unfolding candidates_by_id
get-candidates_by_id m [] id c e = inl e
get-candidates_by_id m (d ∷ cs) id c e =
    elim (get-candidates_by_id (set m d.object.id d) cs id c e) [
      | inr k ↦ inr (inr k.0, k.1)
      | inl k ↦ elim (set_found m d c id k) [
        | inl old ↦ inl old
        | inr new ↦
            inr (inl (sym new.0), ap (λ (x : Derived Candidate). x.object.id) (sym new.0) ∙ new.1)
      ]
    ]

kept_candidate :
    (o : Option (Derived Candidate)) (rest : Result (List (Derived Candidate)))
    (selected : List (Derived Candidate))
    → keep_candidate o rest ≡ ok selected
    → ((c : Derived Candidate) × (o ≡ some c)) × ((cs : List (Derived Candidate)) × (rest ≡ ok cs))
unfolding keep_candidate
kept_candidate none rest selected e = cc e
kept_candidate (some c) (ok cs) selected e = ((c, refl), (cs, refl))
kept_candidate (some c) (err x) selected e = cc e

selected_known :
    (cs : List (Derived Candidate)) (ids : List String) (selected : List (Derived Candidate))
    → select_candidates (candidates_by_id [] cs) ids ≡ ok selected
    → (id : String) → In id ids
    → In id (map (λ c. c.object.id) cs)
unfolding select_candidates get
selected_known cs [] selected e id m = elim m [ ]
selected_known cs (x ∷ ids) selected e id m =
    let k =
      kept_candidate (get (candidates_by_id [] cs) x)
        (select_candidates (candidates_by_id [] cs) ids) selected e in
    elim m [
      | inr rest ↦ selected_known cs ids k.1.0 k.1.1 id rest
      | inl q ↦ elim (get-candidates_by_id [] cs x k.0.0 k.0.1) [
        | inl absent ↦ cc absent
        | inr at ↦
            subst (λ y. In y (map (λ c. c.object.id) cs)) (at.1 ∙ sym q)
              (In-map_intro (λ (c : Derived Candidate). c.object.id) k.0.0 cs at.0)
      ]
    ]

module _ (frontier : List (Derived Candidate)) (selected : List String) where
  abbrev ids_of : List String
  ids_of = map (λ c. c.object.id) frontier

  is_alternative :
      (id : String)
      → In id (alternative_ids frontier selected)
      → In id ids_of × (In id selected → ⊥)
  unfolding alternative_ids
  is_alternative id m =
      let r = In-filter (λ x. not (contains selected x)) id ids_of m in
      (r.0, λ k. cc (r.1, In→contains selected id k))

  alternative_or_selected :
      (id : String) → In id ids_of → In id selected ⊎ In id (alternative_ids frontier selected)
  unfolding alternative_ids
  alternative_or_selected id m = elim (Bool-cases (contains selected id)) [
    | inl y ↦ inl (contains→In selected id y)
    | inr n ↦ inr (In-filter_intro (λ x. not (contains selected x)) id ids_of m (rw n refl))
  ]

-- The candidates of a final proposal that is appended are those of the call, and together with
-- its alternatives they are the candidates of the frontier, each on one side alone.
pub propose_final_candidate-splits :
    (h : Host) (input : ProposeFinalCandidateInput) (w : World) (r : AppendEventResult)
    → (propose_final_candidate h input w).0 ≡ ok r
    → r.appended ≡ true
    → (frontier : CandidateFrontierProjection) × (p : FinalCandidateProposal)
      × (project_candidate_frontier (from_store w.store input.session_id) ≡ ok frontier)
      × (r.event.payload ≡ final_candidate_proposal p)
      × ((id : String) → In id p.candidate_ids ↔ In id input.candidate_ids)
      × ((id : String)
          → In id (map (λ c. c.object.id) frontier.candidates)
            ↔ (In id p.candidate_ids ⊎ In id p.alternative_candidate_ids))
      × ((id : String) → In id p.candidate_ids → In id p.alternative_candidate_ids → ⊥)
unfolding append final_input
propose_final_candidate-splits h input w r done new =
    let c = propose_final_candidate-Proposed h input w r done in
    let p = final_of h input w c.frontier c.selected in
    let ids = to_set input.candidate_ids in
    let event = final_input h input (h.id_generator (w.id_calls + 1)) (h.clock w.clock_calls) p in
    (
      c.frontier,
      p,
      c.projected,
      ap (λ (x : AppendEventInput). x.payload)
          (appended_event h event w.store r (ap (λ o. o.0) (sym c.run) ∙ done) new),
      λ id. In-to_set input.candidate_ids id,
      λ id. (
        λ m. alternative_or_selected c.frontier.candidates ids id m,
        λ k. elim k [
          | inl m ↦ selected_known c.frontier.candidates ids c.selected c.chosen id m
          | inr m ↦ (is_alternative c.frontier.candidates ids id m).0
        ],
      ),
      λ id m k. (is_alternative c.frontier.candidates ids id k).1 m,
    )
