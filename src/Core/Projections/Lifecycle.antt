-- ===== src/Core/Projections/Lifecycle.antt =====
-- How the later events of a session change the state of a proposal.
use deliberum.Prelude.{
  ℕ, ◌<◌, String, ◌≡◌, refl, ◌∙◌, inl, inr, Bool, true, false, ◌&&◌, ◌||◌, Option, none, some, List,
  [], ◌∷◌, ◌++◌, map, arith, eq_iff, ◌==◌, if◌then◌else◌, Bool-cases, Option-cases, get, get-set,
  filter, any,
}
use mathlib.Core.List.{append-nil, append_assoc}
use deliberum.Protocol.Proposals.{
  ExtractionProposal, ProposalChallengePayload, ProposalAcceptancePayload,
}
use deliberum.Protocol.Events.{EventEnvelope}
use deliberum.Core.Projections.{
  ExtractionProposalState, States, new_state, challenge_state, accept_state, affect,
  record_proposal, record_challenge, record_acceptance, project_event, project_events,
  can_lifecycle_event_affect_proposal, safe_parse_extraction_proposal,
  safe_parse_proposal_challenge, safe_parse_proposal_acceptance, extraction_proposed,
  proposal_challenged, proposal_accepted,
}

unfoldable pub targets_challenge : String → Option ProposalChallengePayload → Bool
targets_challenge k none = false
targets_challenge k (some c) = c.target_proposal_event_id == k

unfoldable pub targets_acceptance : String → Option ProposalAcceptancePayload → Bool
targets_acceptance k none = false
targets_acceptance k (some a) = a.target_proposal_event_id == k

-- The event is a well-formed challenge of the proposal event `k`.
unfoldable pub challenges : String → EventEnvelope → Bool
unfolding targets_challenge
challenges k e =
    e.type == proposal_challenged && targets_challenge k (safe_parse_proposal_challenge e.payload)

-- The event is a well-formed acceptance of the proposal event `k`.
unfoldable pub accepts : String → EventEnvelope → Bool
unfolding targets_acceptance
accepts k e =
    e.type == proposal_accepted && targets_acceptance k (safe_parse_proposal_acceptance e.payload)

-- The state after the events, described without a loop over them.
unfoldable pub after_events :
    String → ExtractionProposalState → List EventEnvelope → ExtractionProposalState
after_events k st es = record st {
  challenge_event_ids = st.challenge_event_ids ++ map (λ e. e.id) (filter (challenges k) es);
  acceptance_event_ids = st.acceptance_event_ids ++ map (λ e. e.id) (filter (accepts k) es);
  is_challenged = st.is_challenged || any (challenges k) es;
  is_accepted_for_now = st.is_accepted_for_now || any (accepts k) es;
}

-- The events come after number `n` in session `sid`, and none has the id `k`.
abbrev pub Follows : String → String → ℕ → List EventEnvelope → Type 0
Follows k sid n [] = Unit
Follows k sid n (e ∷ es) =
    ((e.id == k) ≡ false) × (sid ≡ e.session_id) × (n < e.sequence) × Follows k sid n es

get-affect :
    (change : EventEnvelope → ExtractionProposalState → ExtractionProposalState) (e : EventEnvelope)
    (target k : String) (m : States) (st : ExtractionProposalState)
    → get m k ≡ some st
    → st.session_id ≡ e.session_id
    → st.sequence < e.sequence
    → get (affect change e target m) k ≡ some (if target == k then change e st else st)
unfolding affect can_lifecycle_event_affect_proposal
get-affect change e target k m st found same later = elim (Bool-cases (target == k)) [
  | inl q ↦
      let at : get m target ≡ some st = rw ((eq_iff target k).0 q) found in
      rw (at, affect)
        (ground (arith, eq_iff st.session_id e.session_id, get-set m target k (change e st)))
  | inr q ↦ elim (Option-cases (get m target)) [
    | inl n ↦ rw (n, affect, q) found
    | inr y ↦ rw (y.1, affect, q) (ground (arith, get-set m target k (change e y.0)))
  ]
]

-- One event.
unfoldable step_state : String → EventEnvelope → ExtractionProposalState → ExtractionProposalState
step_state k e st =
    if challenges k e then challenge_state e st else if accepts k e then accept_state e st else st

elsewhere : (t a b : String) → (t == a) ≡ true → (a == b) ≡ false → (t == b) ≡ false
elsewhere t a b q n = rw ((eq_iff t a).0 q) n

or_true : (b : Bool) → (b || true) ≡ true
or_true true = refl
or_true false = refl

nil_right : (xs : List String) → xs ++ [] ≡ xs
nil_right xs = append-nil xs

or_false : (b : Bool) → (b || false) ≡ b
or_false true = refl
or_false false = refl

not_both : (k : String) (e : EventEnvelope) → challenges k e ≡ true → accepts k e ≡ false
unfolding challenges accepts
not_both k e c = elim (Bool-cases (e.type == proposal_challenged)) [
  | inl q ↦ rw (elsewhere e.type proposal_challenged proposal_accepted q refl) refl
  | inr q ↦ cc (rw q at c)
]

module _ (m : States) (e : EventEnvelope) (k : String) (st : ExtractionProposalState)
    (found : get m k ≡ some st) where
  get-record_proposal :
      (o : Option ExtractionProposal)
      → (e.id == k) ≡ false
      → get (record_proposal e o m) k ≡ some st
  unfolding record_proposal
  get-record_proposal none other = found
  get-record_proposal (some p) other = rw (get-set m e.id k (new_state e p), other) found

  module _ (session : st.session_id ≡ e.session_id) (later : st.sequence < e.sequence) where
    get-record_challenge :
        (o : Option ProposalChallengePayload)
        → get (record_challenge e o m) k
          ≡ some (if targets_challenge k o then challenge_state e st else st)
    unfolding record_challenge targets_challenge
    get-record_challenge none = found
    get-record_challenge (some c) =
        get-affect challenge_state e c.target_proposal_event_id k m st found session later

    get-record_acceptance :
        (o : Option ProposalAcceptancePayload)
        → get (record_acceptance e o m) k
          ≡ some (if targets_acceptance k o then accept_state e st else st)
    unfolding record_acceptance targets_acceptance
    get-record_acceptance none = found
    get-record_acceptance (some a) =
        get-affect accept_state e a.target_proposal_event_id k m st found session later

    get-project_event : (e.id == k) ≡ false → get (project_event m e) k ≡ some (step_state k e st)
    unfolding project_event step_state challenges accepts
    get-project_event other = elim (Bool-cases (e.type == extraction_proposed)) [
      | inl q ↦
          rw
            (
              q,
              elsewhere e.type extraction_proposed proposal_challenged q refl,
              elsewhere e.type extraction_proposed proposal_accepted q refl,
            )
            (get-record_proposal (safe_parse_extraction_proposal e.payload) other)
      | inr q ↦ elim (Bool-cases (e.type == proposal_challenged)) [
        | inl c ↦
            rw (q, c, elsewhere e.type proposal_challenged proposal_accepted c refl)
              (get-record_challenge (safe_parse_proposal_challenge e.payload))
        | inr c ↦ elim (Bool-cases (e.type == proposal_accepted)) [
          | inl a ↦ rw (q, c, a) (get-record_acceptance (safe_parse_proposal_acceptance e.payload))
          | inr a ↦ rw (q, c, a) found
        ]
      ]
    ]

after_step :
    (k : String) (st : ExtractionProposalState) (e : EventEnvelope) (es : List EventEnvelope)
    → after_events k (step_state k e st) es ≡ after_events k st (e ∷ es)
unfolding after_events step_state filter any
after_step k st e es = elim (Bool-cases (challenges k e)) [
  | inl c ↦
      rw
        (
          c,
          not_both k e c,
          or_true st.is_challenged,
          append_assoc st.challenge_event_ids (e.id ∷ [])
              (map (λ x. x.id) (filter (challenges k) es)),
        )
        refl
  | inr c ↦ elim (Bool-cases (accepts k e)) [
    | inl a ↦
        rw
          (
            c,
            a,
            or_true st.is_accepted_for_now,
            append_assoc st.acceptance_event_ids (e.id ∷ [])
                (map (λ x. x.id) (filter (accepts k) es)),
          )
          refl
    | inr a ↦ rw (c, a) refl
  ]
]

after_none : (k : String) (st : ExtractionProposalState) → after_events k st [] ≡ st
unfolding after_events filter any
after_none k st =
    rw
      (
        nil_right st.challenge_event_ids,
        nil_right st.acceptance_event_ids,
        or_false st.is_challenged,
        or_false st.is_accepted_for_now,
      )
      refl

step-session :
    (k : String) (st : ExtractionProposalState) (e : EventEnvelope)
    → (step_state k e st).session_id ≡ st.session_id
unfolding step_state
step-session k st e = ground arith

step-sequence :
    (k : String) (st : ExtractionProposalState) (e : EventEnvelope)
    → (step_state k e st).sequence ≡ st.sequence
unfolding step_state
step-sequence k st e = ground arith

pub get-project_events :
    (k sid : String) (n : ℕ) (st : ExtractionProposalState) (es : List EventEnvelope) (m : States)
    → get m k ≡ some st
    → st.session_id ≡ sid
    → st.sequence ≡ n
    → Follows k sid n es
    → get (project_events m es) k ≡ some (after_events k st es)
unfolding project_events
get-project_events k sid n st [] m found session number f = rw (after_none k st) found
get-project_events k sid n st (e ∷ es) m found session number f = rw (← after_step k st e es) (
    get-project_events k sid n (step_state k e st) es (project_event m e)
      (get-project_event m e k st found (session ∙ f.1) (omega (arith, number, f.2)) f.0)
      (step-session k st e ∙ session) (step-sequence k st e ∙ number) f.3)
