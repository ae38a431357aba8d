-- ===== src/Storage/Memory/Consistent.antt =====
-- The invariant of the store: what holds of its maps between two operations.
use deliberum.Prelude.{
  ℕ, suc, ◌+◌, String, ◌≡◌, refl, Option, none, some, List, [], ◌∷◌, ◌++◌, arith, length, get,
  get_or, get_last?, In,
}
use deliberum.Protocol.Events.{EventEnvelope, AppendEventInput}
use deliberum.Protocol.Host.{Host}
use deliberum.Storage.Integrity.{attach_event_integrity}
use deliberum.Storage.Memory.{
  InMemoryEventStore, empty_store, get_session_events, next_sequence, create_idempotency_lookup_key,
  find_existing, link_event,
}

-- The events of session `sid` are numbered from `n` on without a gap.
abbrev pub Numbered : String → ℕ → List EventEnvelope → Type 0
Numbered sid n [] = Unit
Numbered sid n (e ∷ es) = (e.sequence ≡ n) × (e.session_id ≡ sid) × Numbered sid (suc n) es

-- Each event carries its own hash and that of the one before it.
abbrev pub Linked : (EventEnvelope → String) → Option EventEnvelope → List EventEnvelope → Type 0
Linked digest previous [] = Unit
Linked digest previous (e ∷ es) =
    ((bare : EventEnvelope) × (e ≡ attach_event_integrity digest bare previous))
    × Linked digest (some e) es

pub record IsConsistent (digest : EventEnvelope → String) (s : InMemoryEventStore) : Type 0 where
  pub numbered : (sid : String) → Numbered sid 0 (get_session_events s sid)
  pub next : (sid : String) → next_sequence s sid ≡ length (get_session_events s sid)
  pub linked : (sid : String) → Linked digest none (get_session_events s sid)
  -- The id map holds exactly the listed events.
  pub indexed :
      (sid : String) (e : EventEnvelope)
      → In e (get_session_events s sid)
      → get s.events_by_id e.id ≡ some e
  pub listed :
      (k : String) (e : EventEnvelope)
      → get s.events_by_id k ≡ some e
      → (e.id ≡ k) × In e (get_session_events s e.session_id)
  -- The idempotency map holds exactly the listed events that have a key.
  pub remembered :
      (sid : String) (e : EventEnvelope) (k : String)
      → In e (get_session_events s sid)
      → create_idempotency_lookup_key e.input ≡ some k
      → find_existing s (some k) ≡ some e
  pub known :
      (k : String) (e : EventEnvelope)
      → find_existing s (some k) ≡ some e
      → (create_idempotency_lookup_key e.input ≡ some k) × In e (get_session_events s e.session_id)

pub Numbered-append :
    (sid : String) (n : ℕ) (es : List EventEnvelope) (e : EventEnvelope)
    → Numbered sid n es
    → e.sequence ≡ n + length es
    → e.session_id ≡ sid
    → Numbered sid n (es ++ e ∷ [])
Numbered-append sid n [] e h p q = (omega (arith, p), q, tt)
Numbered-append sid n (x ∷ es) e h p q =
    (h.0, h.1, Numbered-append sid (suc n) es e h.2 (omega arith) q)

-- The event that the next one is linked to.
abbrev last_or : Option EventEnvelope → List EventEnvelope → Option EventEnvelope
last_or previous [] = previous
last_or previous (e ∷ es) = last_or (some e) es

last_or-cons :
    (x : EventEnvelope) (es : List EventEnvelope) → last_or (some x) es ≡ get_last? (x ∷ es)
unfolding get_last?
last_or-cons x [] = refl
last_or-cons x (y ∷ es) = last_or-cons y es

last_or-none : (es : List EventEnvelope) → last_or none es ≡ get_last? es
unfolding get_last?
last_or-none [] = refl
last_or-none (x ∷ es) = last_or-cons x es

module _ (digest : EventEnvelope → String) where
  Linked-append_at :
      (previous : Option EventEnvelope) (es : List EventEnvelope) (bare : EventEnvelope)
      → Linked digest previous es
      → Linked digest previous (es ++ attach_event_integrity digest bare (last_or previous es) ∷ [])
  Linked-append_at previous [] bare h = ((bare, refl), tt)
  Linked-append_at previous (x ∷ es) bare h = (h.0, Linked-append_at (some x) es bare h.1)

  pub Linked-append :
      (es : List EventEnvelope) (bare : EventEnvelope)
      → Linked digest none es
      → Linked digest none (es ++ attach_event_integrity digest bare (get_last? es) ∷ [])
  Linked-append es bare h = rw (← last_or-none es) (Linked-append_at none es bare h)

module _ (h : Host) (input : AppendEventInput) (s : InMemoryEventStore) where
  pub input-link_event : (link_event h input s).input ≡ input
  unfolding link_event
  input-link_event = refl

  pub sequence-link_event : (link_event h input s).sequence ≡ next_sequence s input.session_id
  unfolding link_event
  sequence-link_event = refl

pub IsConsistent-empty : (digest : EventEnvelope → String) → IsConsistent digest empty_store
unfolding get_session_events next_sequence find_existing get get_or
IsConsistent-empty digest = record {
  numbered = λ sid. tt;
  next = λ sid. refl;
  linked = λ sid. tt;
  indexed = λ sid e h. elim h [ ];
  listed = λ k e h. cc;
  remembered = λ sid e k h. elim h [ ];
  known = λ k e h. cc;
}
