-- ===== src/Core/ProcessProposals/Lifecycle.antt =====
-- How the later events of a session change the state of a process proposal.
use deliberum.Prelude.{
  String, ◌≡◌, refl, ◌∙◌, inl, inr, Bool, true, false, ◌&&◌, Option, none, some, List, [], ◌∷◌,
  ◌++◌, map, arith, eq_iff, ◌==◌, if◌then◌else◌, Bool-cases, Option-cases, get, get-set, get_or,
  filter,
}
use mathlib.Core.List.{append-nil}
use deliberum.Protocol.Proposals.{
  ProcessProposal, ProcessProposalStatus, ProcessProposalChallengePayload,
  ProcessProposalDecisionPayload, ProcessProposalDecisionStatus,
}
use deliberum.Protocol.Events.{EventEnvelope}
use deliberum.Core.ProcessProposals.{
  safe_parse_process_proposal, safe_parse_process_challenge, safe_parse_process_decision,
  process_proposal_proposed, process_proposal_challenged, process_proposal_decided,
}
use deliberum.Core.ProcessProposals.States.{
  ProcessProposalState, ProcessStates, decided_status, new_process_state, challenge_process_state,
  decide_process_state, affect_process, record_process_proposal, record_process_challenge,
  record_process_decision, project_process_event,
}

unfoldable pub targets_process_challenge : String → Option ProcessProposalChallengePayload → Bool
targets_process_challenge k none = false
targets_process_challenge k (some c) = c.target_process_proposal_event_id == k

unfoldable pub decision_on :
    String → Option ProcessProposalDecisionPayload → Option ProcessProposalDecisionStatus
decision_on k none = none
decision_on k (some d) = if d.target_process_proposal_event_id == k then some d.status else none

-- The event is a well-formed challenge of the process proposal event `k`.
unfoldable pub process_challenges : String → EventEnvelope → Bool
process_challenges k e =
    e.type == process_proposal_challenged
    && targets_process_challenge k (safe_parse_process_challenge e.payload)

-- The status of a well-formed decision on the process proposal event `k`.
unfoldable pub process_decision : String → EventEnvelope → Option ProcessProposalDecisionStatus
process_decision k e =
    if e.type == process_proposal_decided
    then decision_on k (safe_parse_process_decision e.payload)
    else none

unfoldable pub process_decides : String → EventEnvelope → Bool
process_decides k e = elim (process_decision k e) [ none ↦ false | some _ ↦ true ]

-- The status that the event gives to the proposal `k`, if it is a challenge of it or a decision on it.
unfoldable pub verdict : String → EventEnvelope → Option ProcessProposalStatus
verdict k e =
    if process_challenges k e
    then some ProcessProposalStatus.challenged
    else elim (process_decision k e) [ none ↦ none | some d ↦ some (decided_status d) ]

-- The verdict of the last event that has one.
unfoldable pub last_verdict : String → List EventEnvelope → Option ProcessProposalStatus
last_verdict k [] = none
last_verdict k (e ∷ es) = elim (last_verdict k es) [ none ↦ verdict k e | some v ↦ some v ]

-- The state after the events, described without a loop over them.
unfoldable pub after_process_events :
    String → ProcessProposalState → List EventEnvelope → ProcessProposalState
after_process_events k st es = record st {
  challenge_event_ids =
      st.challenge_event_ids ++ map (λ e. e.id) (filter (process_challenges k) es);
  decision_event_ids = st.decision_event_ids ++ map (λ e. e.id) (filter (process_decides k) es);
  latest_status = get_or st.latest_status (last_verdict k es);
}

get-affect_process :
    (change : EventEnvelope → ProcessProposalState → ProcessProposalState) (e : EventEnvelope)
    (target k : String) (m : ProcessStates) (st : ProcessProposalState)
    → get m k ≡ some st
    → st.session_id ≡ e.session_id
    → get (affect_process change e target m) k ≡ some (if target == k then change e st else st)
unfolding affect_process
get-affect_process change e target k m st found same = elim (Bool-cases (target == k)) [
  | inl q ↦
      let at : get m target ≡ some st = rw ((eq_iff target k).0 q) found in
      rw (at, affect_process)
        (ground (arith, eq_iff st.session_id e.session_id, get-set m target k (change e st)))
  | inr q ↦ elim (Option-cases (get m target)) [
    | inl n ↦ rw (n, affect_process, q) found
    | inr y ↦ rw (y.1, affect_process, q) (ground (arith, get-set m target k (change e y.0)))
  ]
]

unfoldable pub step_process : String → EventEnvelope → ProcessProposalState → ProcessProposalState
step_process k e st =
    if process_challenges k e
    then challenge_process_state e st
    else elim (process_decision k e) [ none ↦ st | some d ↦ decide_process_state d e st ]

elsewhere : (t a b : String) → (t == a) ≡ true → (a == b) ≡ false → (t == b) ≡ false
elsewhere t a b q n = rw ((eq_iff t a).0 q) n

pub nil_right : (xs : List String) → xs ++ [] ≡ xs
nil_right xs = append-nil xs

pub not_both :
    (k : String) (e : EventEnvelope) → process_challenges k e ≡ true → process_decision k e ≡ none
unfolding process_challenges process_decision
not_both k e c = elim (Bool-cases (e.type == process_proposal_challenged)) [
  | inl q ↦ rw (elsewhere e.type process_proposal_challenged process_proposal_decided q refl) refl
  | inr q ↦ cc (rw q at c)
]

module _ (m : ProcessStates) (e : EventEnvelope) (k : String) (st : ProcessProposalState)
    (found : get m k ≡ some st) where
  get-record_process_proposal :
      (o : Option ProcessProposal)
      → (e.id == k) ≡ false
      → get (record_process_proposal e o m) k ≡ some st
  unfolding record_process_proposal
  get-record_process_proposal none differs = found
  get-record_process_proposal (some p) differs =
      rw (get-set m e.id k (new_process_state e p), differs) found

  module _ (session : st.session_id ≡ e.session_id) where
    get-record_process_challenge :
        (o : Option ProcessProposalChallengePayload)
        → get (record_process_challenge e o m) k
          ≡ some (if targets_process_challenge k o then challenge_process_state e st else st)
    unfolding record_process_challenge targets_process_challenge
    get-record_process_challenge none = found
    get-record_process_challenge (some c) =
        get-affect_process challenge_process_state e c.target_process_proposal_event_id k m st found
          session

    get-record_process_decision :
        (o : Option ProcessProposalDecisionPayload)
        → get (record_process_decision e o m) k
          ≡ some (elim (decision_on k o) [ none ↦ st | some d ↦ decide_process_state d e st ])
    unfolding record_process_decision decision_on
    get-record_process_decision none = found
    get-record_process_decision (some d) =
        elim (Bool-cases (d.target_process_proposal_event_id == k)) [
          | inl q ↦
              get-affect_process (decide_process_state d.status) e
                d.target_process_proposal_event_id k m st found session
              ∙ rw q refl
          | inr q ↦
              get-affect_process (decide_process_state d.status) e
                d.target_process_proposal_event_id k m st found session
              ∙ rw q refl
        ]

    pub get-project_process_event :
        (e.id == k) ≡ false → get (project_process_event m e) k ≡ some (step_process k e st)
    unfolding project_process_event step_process process_challenges process_decision
    get-project_process_event differs = elim (Bool-cases (e.type == process_proposal_proposed)) [
      | inl q ↦
          rw
            (
              q,
              elsewhere e.type process_proposal_proposed process_proposal_challenged q refl,
              elsewhere e.type process_proposal_proposed process_proposal_decided q refl,
            )
            (get-record_process_proposal (safe_parse_process_proposal e.payload) differs)
      | inr q ↦ elim (Bool-cases (e.type == process_proposal_challenged)) [
        | inl c ↦
            rw (q, c, elsewhere e.type process_proposal_challenged process_proposal_decided c refl)
              (get-record_process_challenge (safe_parse_process_challenge e.payload))
        | inr c ↦ elim (Bool-cases (e.type == process_proposal_decided)) [
          | inl a ↦
              rw (q, c, a) (get-record_process_decision (safe_parse_process_decision e.payload))
          | inr a ↦ rw (q, c, a) found
        ]
      ]
    ]
