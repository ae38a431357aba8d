-- ===== src/Storage/Chain.antt =====
-- packages/storage/src/integrity.ts: the chain check on the events that a store lists.
use deliberum.Prelude.{
  ℕ, suc, String, ◌+++◌, ◌≡◌, refl, sym, ap, ◌∙◌, inl, inr, true, false, Option, none, some, List,
  [], ◌∷◌, ◌++◌, arith, eq_iff, eq_refl, ◌==◌, Bool-cases, Map, get, set, get_or, insert_by,
  sort_by,
}
use text.Mathlib.TextLemmas.{append-eq-nil_iff}
use mathlib.Core.List.{append-nil, append_assoc}
use deliberum.Protocol.Events.{EventEnvelope}
use deliberum.Storage.Integrity.{
  normalize_event_for_hash, compute_event_hash, hash_of_previous, attach_event_integrity, same_hash,
  check_integrity, check_event, validate_session, group_by_session, sort_events, validate_sessions,
  validate_event_integrity_chain,
}
use deliberum.Storage.Memory.{InMemoryEventStore, get_session_events, list_events}
use deliberum.Storage.Memory.Consistent.{Numbered, Linked, IsConsistent}

hash_not_empty : (x : String) → (("sha256:" +++ x) == "") ≡ false
hash_not_empty x = elim (Bool-cases (("sha256:" +++ x) == "")) [
  | inr e ↦ e
  | inl e ↦
      let p = (append-eq-nil_iff.0 ((eq_iff ("sha256:" +++ x) "").0 e)).0 in
      cc ((eq_iff "sha256:" "").1 p)
]

module _ (digest : EventEnvelope → String) where
  -- The hash of an event does not depend on the hash that it carries.
  hash-attach_event_integrity :
      (bare : EventEnvelope) (previous : Option EventEnvelope) (n : Option String)
      → compute_event_hash digest (attach_event_integrity digest bare previous)
        ≡ compute_event_hash digest (record bare {
          integrity =
              some
                (record { previous_event_hash = hash_of_previous digest previous; event_hash = n });
        })
  unfolding attach_event_integrity compute_event_hash normalize_event_for_hash hash_of_previous
  hash-attach_event_integrity bare none n = refl
  hash-attach_event_integrity bare (some p) n = refl

  same_hash_refl : (o : Option String) → same_hash o o ≡ true
  unfolding same_hash
  same_hash_refl none = refl
  same_hash_refl (some a) = eq_refl a

  compute_not_empty : (e : EventEnvelope) → (compute_event_hash digest e == "") ≡ false
  unfolding compute_event_hash
  compute_not_empty e = hash_not_empty (digest (normalize_event_for_hash e))

  check_passes :
      (e : EventEnvelope) (previous : Option EventEnvelope) (own : String)
      → own ≡ compute_event_hash digest e
      → check_integrity digest e previous
          (record { previous_event_hash = hash_of_previous digest previous; event_hash = some own })
        ≡ none
  unfolding check_integrity
  check_passes e previous own p = rw p (
      rw (
        compute_not_empty e,
        eq_refl (compute_event_hash digest e),
        same_hash_refl (hash_of_previous digest previous),
      ))

  check-attach_event_integrity :
      (bare : EventEnvelope) (previous : Option EventEnvelope)
      → check_event digest (attach_event_integrity digest bare previous) previous ≡ none
  unfolding check_event attach_event_integrity
  check-attach_event_integrity bare previous =
      check_passes (attach_event_integrity digest bare previous) previous
        (compute_event_hash digest (record bare {
          integrity = some (record {
            previous_event_hash = hash_of_previous digest previous;
            event_hash = none;
          });
        }))
        (sym (hash-attach_event_integrity bare previous none))

  validate-Linked :
      (previous : Option EventEnvelope) (es : List EventEnvelope)
      → Linked digest previous es
      → validate_session digest previous es ≡ none
  unfolding validate_session
  validate-Linked previous [] l = refl
  validate-Linked previous (e ∷ es) l =
      let fits : check_event digest e previous ≡ none =
        rw l.0.1 (check-attach_event_integrity l.0.0 previous) in
      rw (fits, validate_session) (validate-Linked (some e) es l.1)

pub sort-Numbered :
    (sid : String) (n : ℕ) (es : List EventEnvelope) → Numbered sid n es → sort_events es ≡ es
unfolding sort_by insert_by
sort-Numbered sid n [] h = refl
sort-Numbered sid n (e ∷ []) h = refl
sort-Numbered sid n (e ∷ x ∷ es) h = rw (sort-Numbered sid (suc n) (x ∷ es) h.2) (ground arith)

abbrev one_group : String → List EventEnvelope → Map (List EventEnvelope)
one_group sid es = (sid, es) ∷ []

group_step :
    (sid : String) (done : List EventEnvelope) (e : EventEnvelope)
    → e.session_id ≡ sid
    → set
        (one_group sid done)
        e.session_id
        (get_or [] (get (one_group sid done) e.session_id) ++ e ∷ [])
      ≡ one_group sid (done ++ e ∷ [])
unfolding get set get_or
group_step sid done e p = ground (arith, eq_iff sid e.session_id)

group-Numbered :
    (sid : String) (n : ℕ) (done es : List EventEnvelope)
    → Numbered sid n es
    → group_by_session (one_group sid done) es ≡ one_group sid (done ++ es)
unfolding group_by_session
group-Numbered sid n done [] h = rw append-nil
group-Numbered sid n done (e ∷ es) h =
    ap (λ m. group_by_session m es) (group_step sid done e h.1)
    ∙ (group-Numbered sid (suc n) (done ++ e ∷ []) es h.2
        ∙ ap (one_group sid) (append_assoc done (e ∷ []) es))

validate_one_group :
    (digest : EventEnvelope → String) (sid : String) (es : List EventEnvelope)
    → Numbered sid 0 es
    → Linked digest none es
    → validate_sessions digest (one_group sid es) ≡ none
unfolding validate_sessions
validate_one_group digest sid es n l =
    rw (sort-Numbered sid 0 es n, validate-Linked digest none es l, validate_sessions)

group_first :
    (sid : String) (e : EventEnvelope)
    → e.session_id ≡ sid
    → set [] e.session_id (get_or [] (get [] e.session_id) ++ e ∷ []) ≡ one_group sid (e ∷ [])
unfolding get set get_or
group_first sid e p = ground arith

validate-events :
    (digest : EventEnvelope → String) (sid : String) (es : List EventEnvelope)
    → Numbered sid 0 es
    → Linked digest none es
    → validate_event_integrity_chain digest es ≡ none
unfolding validate_event_integrity_chain
validate-events digest sid [] n l = refl
validate-events digest sid (e ∷ es) n l =
    ap (validate_sessions digest) (
      ap (λ m. group_by_session m es) (group_first sid e n.1)
      ∙ group-Numbered sid 1 (e ∷ []) es n.2)
    ∙ validate_one_group digest sid (e ∷ es) n l

-- In a consistent store the chain check accepts every session as it is listed.
pub validate-list_events :
    (digest : EventEnvelope → String) (s : InMemoryEventStore) (sid : String)
    → IsConsistent digest s
    → validate_event_integrity_chain digest (list_events s sid) ≡ none
unfolding list_events
validate-list_events digest s sid c =
    validate-events digest sid (get_session_events s sid) (c.numbered sid) (c.linked sid)
