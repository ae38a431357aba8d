-- ===== src/Storage/Integrity.antt =====
-- packages/storage/src/integrity.ts: the hash chain of a session's events.
use deliberum.Prelude.{
  ℕ, String, ◌+++◌, Bool, true, false, not, Option, none, some, List, [], ◌∷◌, ◌++◌, ◌==◌,
  if◌then◌else◌, Map, get, set, get_or, sort_by,
}
use deliberum.Protocol.Events.{EventEnvelope, EventIntegrity}

-- The event without its own hash; `integrity` is left out where no previous hash is.
unfoldable pub normalize_event_for_hash : EventEnvelope → EventEnvelope
normalize_event_for_hash e = record e {
  integrity = elim e.integrity [
    | none ↦ none
    | some i ↦ elim i.previous_event_hash [
      | none ↦ none
      | some p ↦ some (record { previous_event_hash = some p; event_hash = none })
    ]
  ];
}

module _ (digest : EventEnvelope → String) where
  unfoldable pub compute_event_hash : EventEnvelope → String
  unfolding normalize_event_for_hash
  compute_event_hash e = "sha256:" +++ digest (normalize_event_for_hash e)

  unfoldable pub hash_of_previous : Option EventEnvelope → Option String
  unfolding compute_event_hash
  hash_of_previous none = none
  hash_of_previous (some e) = some (compute_event_hash e)

  unfoldable pub attach_event_integrity : EventEnvelope → Option EventEnvelope → EventEnvelope
  unfolding compute_event_hash hash_of_previous
  attach_event_integrity event previous =
      let linked : EventEnvelope = record event {
        integrity =
            some (record { previous_event_hash = hash_of_previous previous; event_hash = none });
      } in
      record event {
        integrity = some (record {
          previous_event_hash = hash_of_previous previous;
          event_hash = some (compute_event_hash linked);
        });
      }

-- What `validateEventIntegrityChain` reports, with the session and the sequence.
pub data ChainFault : Type 0 where
  missing_event_hash : String → ℕ → ChainFault
  invalid_event_hash : String → ℕ → ChainFault
  invalid_previous_event_hash : String → ℕ → ChainFault

unfoldable pub same_hash : Option String → Option String → Bool
same_hash none none = true
same_hash (some a) (some b) = a == b
same_hash _ _ = false

module _ (digest : EventEnvelope → String) where
  unfoldable pub check_integrity :
      EventEnvelope → Option EventEnvelope → EventIntegrity → Option ChainFault
  unfolding hash_of_previous same_hash
  check_integrity e previous i = elim i.event_hash [
    | none ↦ some (missing_event_hash e.session_id e.sequence)
    | some h ↦
        -- `!event.integrity.eventHash` holds of the empty text too
        if h == ""
        then some (missing_event_hash e.session_id e.sequence)
        else if not (h == compute_event_hash digest e)
        then some (invalid_event_hash e.session_id e.sequence)
        else if not (same_hash i.previous_event_hash (hash_of_previous digest previous))
        then some (invalid_previous_event_hash e.session_id e.sequence)
        else none
  ]

  unfoldable pub check_event : EventEnvelope → Option EventEnvelope → Option ChainFault
  unfolding check_integrity
  check_event e previous = elim e.integrity [ none ↦ none | some i ↦ check_integrity e previous i ]

  -- The loop over the events of one session.
  unfoldable pub validate_session : Option EventEnvelope → List EventEnvelope → Option ChainFault
  unfolding check_event
  validate_session previous [] = none
  validate_session previous (e ∷ events) =
      let rest = validate_session (some e) events in
      elim (check_event e previous) [ none ↦ rest | some fault ↦ some fault ]

-- `eventsBySession`
unfoldable pub group_by_session :
    Map (List EventEnvelope) → List EventEnvelope → Map (List EventEnvelope)
unfolding get set get_or
group_by_session m [] = m
group_by_session m (e ∷ events) =
    group_by_session (set m e.session_id (get_or [] (get m e.session_id) ++ e ∷ [])) events

abbrev pub sort_events : List EventEnvelope → List EventEnvelope
sort_events = sort_by (λ e. e.sequence)

module _ (digest : EventEnvelope → String) where
  unfoldable pub validate_sessions : Map (List EventEnvelope) → Option ChainFault
  unfolding validate_session sort_by
  validate_sessions [] = none
  validate_sessions ((sid, events) ∷ m) =
      let rest = validate_sessions m in
      elim (validate_session digest none (sort_events events)) [
        | none ↦ rest
        | some fault ↦ some fault
      ]

  unfoldable pub validate_event_integrity_chain : List EventEnvelope → Option ChainFault
  unfolding validate_sessions group_by_session
  validate_event_integrity_chain events = validate_sessions (group_by_session [] events)
