-- ===== src/Core/Projections/States.antt =====
-- projectExtractionProposalStates of packages/core/src/projections.ts on a stored session.
use deliberum.Prelude.{
  ℕ, suc, ◌<◌, String, ◌≡◌, refl, sym, ap, inl, inr, false, some, List, [], ◌∷◌, ◌++◌, map, arith,
  eq_iff, eq_refl, ◌==◌, Bool-cases, Map, get, get-set, filter, In,
}
use mathlib.Core.Path.{subst}
use deliberum.Errors.{ok, map_ok}
use deliberum.Protocol.Proposals.{ExtractionProposal}
use deliberum.Protocol.Events.{EventEnvelope}
use deliberum.Storage.Memory.{InMemoryEventStore, get_session_events, list_events}
use deliberum.Storage.Memory.Consistent.{Numbered, IsConsistent}
use deliberum.Storage.Chain.{sort-Numbered}
use deliberum.Core.Projections.{
  from_store, filter_events, resolve_projection_events, ExtractionProposalStatesProjection, States,
  new_state, record_proposal, project_event, project_events, states_of,
  project_extraction_proposal_states, safe_parse_extraction_proposal, extraction_proposed,
}
use deliberum.Core.Projections.Lifecycle.{after_events, Follows, get-project_events}

pub filter-Numbered :
    (sid : String) (n : ℕ) (es : List EventEnvelope)
    → Numbered sid n es
    → filter (λ e. e.session_id == sid) es ≡ es
unfolding filter
filter-Numbered sid n [] h = refl
filter-Numbered sid n (e ∷ es) h =
    rw ((eq_iff e.session_id sid).1 h.1, filter-Numbered sid (suc n) es h.2) refl

pub resolve-from_store :
    (digest : EventEnvelope → String) (s : InMemoryEventStore) (sid : String)
    → IsConsistent digest s
    → (sid == "") ≡ false
    → resolve_projection_events (from_store s sid) ≡ ok (list_events s sid)
unfolding resolve_projection_events filter_events list_events
resolve-from_store digest s sid c named =
    rw (named, filter-Numbered sid 0 (get_session_events s sid) (c.numbered sid))
      (ap ok (sort-Numbered sid 0 (get_session_events s sid) (c.numbered sid)))

Numbered-rest :
    (sid : String) (n : ℕ) (xs : List EventEnvelope) (p : EventEnvelope) (ys : List EventEnvelope)
    → Numbered sid n (xs ++ p ∷ ys)
    → (p.session_id ≡ sid) × Numbered sid (suc p.sequence) ys
Numbered-rest sid n [] p ys h = (h.1, rw h.0 h.2)
Numbered-rest sid n (x ∷ xs) p ys h = Numbered-rest sid (suc n) xs p ys h.2

In-middle : {A : Type 0} (xs : List A) (p : A) (ys : List A) → In p (xs ++ p ∷ ys)
In-middle [] p ys = inl refl
In-middle (x ∷ xs) p ys = inr (In-middle xs p ys)

In-rest : {A : Type 0} (xs : List A) (p x : A) (ys : List A) → In x ys → In x (xs ++ p ∷ ys)
In-rest [] p x ys m = inr m
In-rest (y ∷ xs) p x ys m = inr (In-rest xs p x ys m)

other_id :
    (by_id : Map EventEnvelope) (p e : EventEnvelope)
    → get by_id p.id ≡ some p
    → get by_id e.id ≡ some e
    → p.sequence < e.sequence
    → (e.id == p.id) ≡ false
other_id by_id p e own known less = elim (Bool-cases (e.id == p.id)) [
  | inr q ↦ q
  | inl q ↦
      let found : get by_id e.id ≡ some p = rw ((eq_iff e.id p.id).0 q) own in
      let same : e ≡ p = cc (found, known) in
      let number : e.sequence ≡ p.sequence = ap (λ x. x.sequence) same in
      absurd (omega (arith, number, less))
]

-- Events of a numbered rest follow `p` if they are all known by their own id.
follow :
    (by_id : Map EventEnvelope) (p : EventEnvelope) (sid : String) (n : ℕ) (ys : List EventEnvelope)
    → get by_id p.id ≡ some p
    → p.sequence < n
    → Numbered sid n ys
    → ((e : EventEnvelope) → In e ys → get by_id e.id ≡ some e)
    → Follows p.id sid p.sequence ys
follow by_id p sid n [] own less h known = tt
follow by_id p sid n (e ∷ ys) own less h known = (
  other_id by_id p e own (known e (inl refl)) (omega (arith, h.0)),
  sym h.1,
  omega (arith, h.0),
  follow by_id p sid (suc n) ys own (omega arith) h.2 (λ x m. known x (inr m)),
)

pub project_events-append :
    (m : States) (xs ys : List EventEnvelope)
    → project_events m (xs ++ ys) ≡ project_events (project_events m xs) ys
unfolding project_events
project_events-append m [] ys = refl
project_events-append m (x ∷ xs) ys = project_events-append (project_event m x) xs ys

project_events-cons :
    (m : States) (e : EventEnvelope) (es : List EventEnvelope)
    → project_events m (e ∷ es) ≡ project_events (project_event m e) es
unfolding project_events
project_events-cons m e es = refl

project-proposed :
    (m : States) (p : EventEnvelope) (q : ExtractionProposal)
    → p.type ≡ extraction_proposed
    → safe_parse_extraction_proposal p.payload ≡ some q
    → get (project_event m p) p.id ≡ some (new_state p q)
unfolding project_event record_proposal
project-proposed m p q t parsed =
    rw
      (
        (eq_iff p.type extraction_proposed).1 t,
        parsed,
        record_proposal,
        get-set m p.id p.id (new_state p q),
        eq_refl p.id,
      )
      refl

pub In-get :
    {V : Type 0} (m : Map V) (k : String) (v : V) → get m k ≡ some v → In v (map (λ e. e.1) m)
unfolding get
In-get [] k v h = cc h
In-get ((j, w) ∷ m) k v h = elim (Bool-cases (j == k)) [
  | inl e ↦ inl (ground (arith))
  | inr e ↦ inr (In-get m k v (ground (arith)))
]

module _ (digest : EventEnvelope → String) (s : InMemoryEventStore) (sid : String)
    (c : IsConsistent digest s) (xs : List EventEnvelope) (p : EventEnvelope)
    (ys : List EventEnvelope) (split : list_events s sid ≡ xs ++ p ∷ ys) where
  In-session : (e : EventEnvelope) → In e (xs ++ p ∷ ys) → In e (get_session_events s sid)
  unfolding list_events
  In-session e m = subst (λ l. In e l) (sym split) m

  pub rest-Numbered : (p.session_id ≡ sid) × Numbered sid (suc p.sequence) ys
  unfolding list_events
  rest-Numbered = Numbered-rest sid 0 xs p ys (subst (λ l. Numbered sid 0 l) split (c.numbered sid))

  pub follow_session : Follows p.id sid p.sequence ys
  follow_session =
      follow s.events_by_id p sid (suc p.sequence) ys
        (c.indexed sid p (In-session p (In-middle xs p ys))) (omega arith) rest-Numbered.1
        (λ e m. c.indexed sid e (In-session e (In-rest xs p e ys m)))

  get-project_session :
      (q : ExtractionProposal)
      → p.type ≡ extraction_proposed
      → safe_parse_extraction_proposal p.payload ≡ some q
      → get (project_events [] (list_events s sid)) p.id
        ≡ some (after_events p.id (new_state p q) ys)
  get-project_session q t parsed =
      rw
        (
          split,
          project_events-append [] xs (p ∷ ys),
          project_events-cons (project_events [] xs) p ys,
        )
        (get-project_events p.id sid p.sequence (new_state p q) ys
          (project_event (project_events [] xs) p)
          (project-proposed (project_events [] xs) p q t parsed) rest-Numbered.0 refl
          follow_session)

-- In a consistent store, every well-formed proposal event of a session with a name has a state.
-- Its challenges and acceptances are the well-formed ones that come later in the session and
-- name it as their target, in order, and its flags say whether there is one.
pub project_extraction_proposal_states-later :
    (digest : EventEnvelope → String) (s : InMemoryEventStore) (sid : String)
    (xs : List EventEnvelope) (p : EventEnvelope) (ys : List EventEnvelope) (q : ExtractionProposal)
    → IsConsistent digest s
    → (sid == "") ≡ false
    → list_events s sid ≡ xs ++ p ∷ ys
    → p.type ≡ extraction_proposed
    → safe_parse_extraction_proposal p.payload ≡ some q
    → (r : ExtractionProposalStatesProjection) × (project_extraction_proposal_states
          (from_store s sid)
        ≡ ok r)
      × In (after_events p.id (new_state p q) ys) r.proposal_states
unfolding project_extraction_proposal_states states_of
project_extraction_proposal_states-later digest s sid xs p ys q c named split t parsed = (
  states_of (list_events s sid),
  rw (resolve-from_store digest s sid c named, map_ok) refl,
  In-get (project_events [] (list_events s sid)) p.id (after_events p.id (new_state p q) ys)
      (get-project_session digest s sid c xs p ys split q t parsed),
)
