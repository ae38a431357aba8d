-- ===== src/Core/ProcessProposals/Latest.antt =====
-- projectProcessProposalStates of packages/core/src/process-proposals.ts on a stored session.
use deliberum.Prelude.{
  ℕ, String, ◌≡◌, refl, ◌∙◌, ◌⊎◌, inl, inr, true, false, Option, none, some, List, [], ◌∷◌, ◌++◌,
  map, arith, eq_iff, eq_refl, leb, Bool-cases, Option-cases, get, get-set, get_or, filter,
  insert_by, sort_by, In,
}
use mathlib.Core.List.{append_assoc}
use deliberum.Protocol.Proposals.{ProcessProposal, ProcessProposalStatus}
use deliberum.Protocol.Events.{EventEnvelope}
use deliberum.Storage.Memory.{InMemoryEventStore, get_session_events, list_events}
use deliberum.Storage.Memory.Consistent.{IsConsistent}
use deliberum.Storage.Chain.{sort-Numbered}
use deliberum.Core.Projections.{from_store}
use deliberum.Core.Projections.Lifecycle.{Follows}
use deliberum.Core.Projections.States.{In-get, rest-Numbered, follow_session}
use deliberum.Core.ProcessProposals.{safe_parse_process_proposal, process_proposal_proposed}
use deliberum.Core.ProcessProposals.States.{
  ProcessProposalState, ProcessStates, new_process_state, decide_process_state,
  record_process_proposal, project_process_event, project_process_events, resolve_process_events,
  process_states_of, project_process_proposal_states,
}
use deliberum.Protocol.Proposals.{ProcessProposalDecisionStatus}
use deliberum.Core.ProcessProposals.Lifecycle.{
  process_challenges, process_decision, process_decides, verdict, last_verdict,
  after_process_events, step_process, not_both, nil_right, get-project_process_event,
}

decides_none :
    (k : String) (e : EventEnvelope) → process_decision k e ≡ none → process_decides k e ≡ false
unfolding process_decides
decides_none k e n = rw (n, process_decides) refl

decides_some :
    (k : String) (e : EventEnvelope) (d : ProcessProposalDecisionStatus)
    → process_decision k e ≡ some d
    → process_decides k e ≡ true
unfolding process_decides
decides_some k e d n = rw (n, process_decides) refl

step_with :
    (k : String) (st : ProcessProposalState) (e : EventEnvelope) (es : List EventEnvelope)
    (o : Option ProcessProposalStatus)
    → last_verdict k es ≡ o
    → after_process_events k (step_process k e st) es ≡ after_process_events k st (e ∷ es)
unfolding after_process_events step_process filter last_verdict verdict decide_process_state get_or
step_with k st e es none l = elim (Bool-cases (process_challenges k e)) [
  | inl c ↦
      rw
        (
          l,
          c,
          decides_none k e (not_both k e c),
          append_assoc st.challenge_event_ids (e.id ∷ [])
              (map (λ x. x.id) (filter (process_challenges k) es)),
        )
        refl
  | inr c ↦ elim (Option-cases (process_decision k e)) [
    | inl n ↦ rw (l, c, n, decides_none k e n) refl
    | inr d ↦
        rw
          (
            l,
            c,
            d.1,
            decides_some k e d.0 d.1,
            append_assoc st.decision_event_ids (e.id ∷ [])
                (map (λ x. x.id) (filter (process_decides k) es)),
          )
          refl
  ]
]
step_with k st e es (some v) l = elim (Bool-cases (process_challenges k e)) [
  | inl c ↦
      rw
        (
          l,
          c,
          decides_none k e (not_both k e c),
          append_assoc st.challenge_event_ids (e.id ∷ [])
              (map (λ x. x.id) (filter (process_challenges k) es)),
        )
        refl
  | inr c ↦ elim (Option-cases (process_decision k e)) [
    | inl n ↦ rw (l, c, n, decides_none k e n) refl
    | inr d ↦
        rw
          (
            l,
            c,
            d.1,
            decides_some k e d.0 d.1,
            append_assoc st.decision_event_ids (e.id ∷ [])
                (map (λ x. x.id) (filter (process_decides k) es)),
          )
          refl
  ]
]

after_no_event : (k : String) (st : ProcessProposalState) → after_process_events k st [] ≡ st
unfolding after_process_events filter last_verdict get_or
after_no_event k st = rw (nil_right st.challenge_event_ids, nil_right st.decision_event_ids) refl

step-session :
    (k : String) (st : ProcessProposalState) (e : EventEnvelope)
    → (step_process k e st).session_id ≡ st.session_id
unfolding step_process decide_process_state
step-session k st e = ground arith

pub get-project_process_events :
    (k sid : String) (n : ℕ) (st : ProcessProposalState) (es : List EventEnvelope)
    (m : ProcessStates)
    → get m k ≡ some st
    → st.session_id ≡ sid
    → Follows k sid n es
    → get (project_process_events m es) k ≡ some (after_process_events k st es)
unfolding project_process_events
get-project_process_events k sid n st [] m found session f = rw (after_no_event k st) found
get-project_process_events k sid n st (e ∷ es) m found session f =
    rw (← step_with k st e es (last_verdict k es) refl) (
      get-project_process_events k sid n (step_process k e st) es (project_process_event m e)
        (get-project_process_event m e k st found (session ∙ f.1) f.0)
        (step-session k st e ∙ session) f.3)

module _ {A : Type 0} (key : A → ℕ) where
  In-insert_by : (x y : A) (xs : List A) → (x ≡ y) ⊎ In x xs → In x (insert_by key y xs)
  unfolding insert_by
  In-insert_by x y [] m = m
  In-insert_by x y (z ∷ xs) m = elim (Bool-cases (leb (key y) (key z))) [
    | inl t ↦ rw t m
    | inr f ↦ rw f (elim m [
      | inl e ↦ inr (In-insert_by x y xs (inl e))
      | inr (inl q) ↦ inl q
      | inr (inr n) ↦ inr (In-insert_by x y xs (inr n))
    ])
  ]

  In-sort_by : (x : A) (xs : List A) → In x xs → In x (sort_by key xs)
  unfolding sort_by
  In-sort_by x [] m = m
  In-sort_by x (y ∷ xs) (inl e) = In-insert_by x y (sort_by key xs) (inl e)
  In-sort_by x (y ∷ xs) (inr m) = In-insert_by x y (sort_by key xs) (inr (In-sort_by x xs m))

project_process_events-append :
    (m : ProcessStates) (xs ys : List EventEnvelope)
    → project_process_events m (xs ++ ys) ≡ project_process_events (project_process_events m xs) ys
unfolding project_process_events
project_process_events-append m [] ys = refl
project_process_events-append m (x ∷ xs) ys =
    project_process_events-append (project_process_event m x) xs ys

project_process_events-cons :
    (m : ProcessStates) (e : EventEnvelope) (es : List EventEnvelope)
    → project_process_events m (e ∷ es) ≡ project_process_events (project_process_event m e) es
unfolding project_process_events
project_process_events-cons m e es = refl

project-proposed :
    (m : ProcessStates) (p : EventEnvelope) (q : ProcessProposal)
    → p.type ≡ process_proposal_proposed
    → safe_parse_process_proposal p.payload ≡ some q
    → get (project_process_event m p) p.id ≡ some (new_process_state p q)
unfolding project_process_event record_process_proposal
project-proposed m p q t parsed =
    rw
      (
        (eq_iff p.type process_proposal_proposed).1 t,
        parsed,
        record_process_proposal,
        get-set m p.id p.id (new_process_state p q),
        eq_refl p.id,
      )
      refl

resolve-from_store :
    (digest : EventEnvelope → String) (s : InMemoryEventStore) (sid : String)
    → IsConsistent digest s
    → resolve_process_events (from_store s sid) ≡ list_events s sid
unfolding resolve_process_events list_events
resolve-from_store digest s sid c = sort-Numbered sid 0 (get_session_events s sid) (c.numbered sid)

-- In a consistent store, every well-formed process proposal event of a session has a state. Its
-- challenges and decisions are the well-formed ones that come later in the session and name it as
-- their target, in order, and its status is that of the last of these, or else the proposal's.
pub project_process_proposal_states-later :
    (digest : EventEnvelope → String) (s : InMemoryEventStore) (sid : String)
    (xs : List EventEnvelope) (p : EventEnvelope) (ys : List EventEnvelope) (q : ProcessProposal)
    → IsConsistent digest s
    → list_events s sid ≡ xs ++ p ∷ ys
    → p.type ≡ process_proposal_proposed
    → safe_parse_process_proposal p.payload ≡ some q
    → In
        (after_process_events p.id (new_process_state p q) ys)
        (project_process_proposal_states (from_store s sid)).proposal_states
unfolding project_process_proposal_states process_states_of
project_process_proposal_states-later digest s sid xs p ys q c split t parsed =
    In-sort_by (λ st. st.sequence) (after_process_events p.id (new_process_state p q) ys)
      (map (λ e. e.1) (project_process_events [] (resolve_process_events (from_store s sid))))
      (In-get (project_process_events [] (resolve_process_events (from_store s sid))) p.id
        (after_process_events p.id (new_process_state p q) ys)
        (rw
          (
            resolve-from_store digest s sid c,
            split,
            project_process_events-append [] xs (p ∷ ys),
            project_process_events-cons (project_process_events [] xs) p ys,
          )
          (get-project_process_events p.id sid p.sequence (new_process_state p q) ys
            (project_process_event (project_process_events [] xs) p)
            (project-proposed (project_process_events [] xs) p q t parsed)
            (rest-Numbered digest s sid c xs p ys split).0
            (follow_session digest s sid c xs p ys split))))
