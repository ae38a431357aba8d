-- ===== src/Storage/Memory/Preserve.antt =====
-- packages/storage/src/in-memory-event-store.ts: appendEventResult and the store's invariant.
use deliberum.Prelude.{
  ℕ, ◌+◌, String, ◌≡◌, refl, sym, ap, ◌∙◌, ◌⊎◌, inl, inr, true, Option, none, some, [], ◌∷◌, ◌++◌,
  arith, eq_iff, eq_refl, ◌==◌, Bool-cases, length, length-append, get, get_last?, In,
  In-append_left, In-append_last, In-append_one,
}
use mathlib.Core.Path.{subst}
use deliberum.Protocol.Events.{EventEnvelope, AppendEventInput}
use deliberum.Protocol.Host.{Host}
use deliberum.Storage.Integrity.{attach_event_integrity}
use deliberum.Storage.Memory.{
  InMemoryEventStore, get_session_events, next_sequence, create_idempotency_lookup_key,
  find_existing, store_event, number_event, link_event, append_event_result,
}
use deliberum.Storage.Memory.Outcome.{refused, replayed, appended, append-Outcome}
use deliberum.Storage.Memory.Effect.{
  get_session_events-store_event, next_sequence-store_event, by_id-store_event, keyed,
  find_existing-store_event,
}
use deliberum.Storage.Memory.Consistent.{
  Numbered, Linked, IsConsistent, Numbered-append, Linked-append,
}

pub IsConsistent-clock :
    (digest : EventEnvelope → String) (s : InMemoryEventStore) (n : ℕ)
    → IsConsistent digest s
    → IsConsistent digest (record s { clock_reads = n })
unfolding get_session_events next_sequence find_existing
IsConsistent-clock digest s n c = record {
  numbered = c.numbered;
  next = c.next;
  linked = c.linked;
  indexed = c.indexed;
  listed = c.listed;
  remembered = c.remembered;
  known = c.known;
}

keyed_eq : (key : Option String) (k : String) → keyed key k ≡ true → key ≡ some k
keyed_eq none k h = cc
keyed_eq (some j) k h = ap some ((eq_iff j k).0 h)

module _ (digest : EventEnvelope → String) (s : InMemoryEventStore) (c : IsConsistent digest s)
    (bare e : EventEnvelope) (sequenced : e.sequence ≡ next_sequence s e.session_id)
    (chained : e
      ≡ attach_event_integrity digest bare (get_last? (get_session_events s e.session_id)))
    (free : find_existing s (create_idempotency_lookup_key e.input) ≡ none)
    (fresh : get s.events_by_id e.id ≡ none) where
  abbrev t : InMemoryEventStore
  t = store_event (create_idempotency_lookup_key e.input) e s

  abbrev key : Option String
  key = create_idempotency_lookup_key e.input

  numbered' : (sid : String) → Numbered sid 0 (get_session_events t sid)
  numbered' sid = elim (Bool-cases (e.session_id == sid)) [
    | inr q ↦ rw (get_session_events-store_event key e s sid, q) (c.numbered sid)
    | inl q ↦
        let p = (eq_iff e.session_id sid).0 q in
        rw (get_session_events-store_event key e s sid, q)
          (Numbered-append sid 0 (get_session_events s sid) e (c.numbered sid)
            (sequenced ∙ (rw p (c.next sid ∙ omega arith))) p)
  ]

  next' : (sid : String) → next_sequence t sid ≡ length (get_session_events t sid)
  next' sid = elim (Bool-cases (e.session_id == sid)) [
    | inr q ↦
        rw (get_session_events-store_event key e s sid, next_sequence-store_event key e s sid, q)
          (c.next sid)
    | inl q ↦
        let p = (eq_iff e.session_id sid).0 q in
        let n : next_sequence s e.session_id ≡ length (get_session_events s sid) =
          rw p (c.next sid) in
        rw (get_session_events-store_event key e s sid, next_sequence-store_event key e s sid, q)
          (omega (arith, length-append (get_session_events s sid) (e ∷ []), sequenced, n))
  ]

  linked' : (sid : String) → Linked digest none (get_session_events t sid)
  linked' sid = elim (Bool-cases (e.session_id == sid)) [
    | inr q ↦ rw (get_session_events-store_event key e s sid, q) (c.linked sid)
    | inl q ↦
        let p = (eq_iff e.session_id sid).0 q in
        let here : e ≡ attach_event_integrity digest bare (get_last? (get_session_events s sid)) =
          rw (← p) chained in
        rw (get_session_events-store_event key e s sid, q)
          (subst (λ y. Linked digest none (get_session_events s sid ++ y ∷ [])) (sym here)
            (Linked-append digest (get_session_events s sid) bare (c.linked sid)))
  ]

  In-session :
      (sid : String) (x : EventEnvelope)
      → In x (get_session_events t sid)
      → In x (get_session_events s sid) ⊎ (x ≡ e)
  In-session sid x m = elim (Bool-cases (e.session_id == sid)) [
    | inr q ↦ inl (rw (get_session_events-store_event key e s sid, q) at m)
    | inl q ↦
        In-append_one x (get_session_events s sid) e
          (rw (get_session_events-store_event key e s sid, q) at m)
  ]

  In-session_intro :
      (sid : String) (x : EventEnvelope)
      → In x (get_session_events s sid)
      → In x (get_session_events t sid)
  In-session_intro sid x m = elim (Bool-cases (e.session_id == sid)) [
    | inr q ↦ rw (get_session_events-store_event key e s sid, q) m
    | inl q ↦
        rw (get_session_events-store_event key e s sid, q)
          (In-append_left x (get_session_events s sid) (e ∷ []) m)
  ]

  In-session_last : In e (get_session_events t e.session_id)
  In-session_last =
      rw (get_session_events-store_event key e s e.session_id, eq_refl e.session_id)
        (In-append_last (get_session_events s e.session_id) e)

  indexed' :
      (sid : String) (x : EventEnvelope)
      → In x (get_session_events t sid)
      → get t.events_by_id x.id ≡ some x
  indexed' sid x m = elim (In-session sid x m) [
    | inr q ↦ rw (by_id-store_event key e s x.id, q, eq_refl e.id)
    | inl old ↦
        ground (arith, by_id-store_event key e s x.id, c.indexed sid x old, fresh, eq_iff e.id x.id)
  ]

  listed' :
      (k : String) (x : EventEnvelope)
      → get t.events_by_id k ≡ some x
      → (x.id ≡ k) × In x (get_session_events t x.session_id)
  listed' k x m = elim (Bool-cases (e.id == k)) [
    | inl q ↦
        let p : e ≡ x = ground (arith, by_id-store_event key e s k) in
        subst (λ y. (y.id ≡ k) × In y (get_session_events t y.session_id)) p
          ((eq_iff e.id k).0 q, In-session_last)
    | inr q ↦
        let r = c.listed k x (ground (arith, by_id-store_event key e s k)) in
        (r.0, In-session_intro x.session_id x r.1)
  ]

  remembered' :
      (sid : String) (x : EventEnvelope) (k : String)
      → In x (get_session_events t sid)
      → create_idempotency_lookup_key x.input ≡ some k
      → find_existing t (some k) ≡ some x
  remembered' sid x k m q = elim (In-session sid x m) [
    | inr p ↦
        let own : key ≡ some k = subst (λ y. create_idempotency_lookup_key y.input ≡ some k) p q in
        rw (find_existing-store_event key e s k, own, eq_refl k, p)
    | inl old ↦ elim (Bool-cases (keyed key k)) [
      | inl y ↦
          let own : key ≡ some k = keyed_eq key k y in
          let gone : find_existing s (some k) ≡ none = rw (← own) free in
          cc (gone, c.remembered sid x k old q)
      | inr y ↦ rw (find_existing-store_event key e s k, y) (c.remembered sid x k old q)
    ]
  ]

  known' :
      (k : String) (x : EventEnvelope)
      → find_existing t (some k) ≡ some x
      → (create_idempotency_lookup_key x.input ≡ some k) × In x (get_session_events t x.session_id)
  known' k x m = elim (Bool-cases (keyed key k)) [
    | inl y ↦
        let p : e ≡ x = ground (arith, find_existing-store_event key e s k) in
        subst
          (λ z.
            (create_idempotency_lookup_key z.input ≡ some k)
            × In z (get_session_events t z.session_id))
          p (keyed_eq key k y, In-session_last)
    | inr y ↦
        let r = c.known k x (ground (arith, find_existing-store_event key e s k)) in
        (r.0, In-session_intro x.session_id x r.1)
  ]

  pub IsConsistent-store_event : IsConsistent digest t
  IsConsistent-store_event = record {
    numbered = numbered';
    next = next';
    linked = linked';
    indexed = indexed';
    listed = listed';
    remembered = remembered';
    known = known';
  }

module _ (h : Host) (input : AppendEventInput) (s : InMemoryEventStore) where
  sequence_after :
      (link_event h input s).sequence
      ≡ next_sequence (record s { clock_reads = s.clock_reads + 1 }) input.session_id
  unfolding link_event next_sequence
  sequence_after = refl

  chained_after :
      link_event h input s
      ≡ attach_event_integrity h.digest (number_event h input s) (
          get_last?
            (get_session_events (record s { clock_reads = s.clock_reads + 1 }) input.session_id))
  unfolding link_event get_session_events
  chained_after = refl

  free_after :
      find_existing s (create_idempotency_lookup_key input) ≡ none
      → find_existing
          (record s { clock_reads = s.clock_reads + 1 })
          (create_idempotency_lookup_key input)
        ≡ none
  unfolding find_existing
  free_after f = ground arith

-- Whatever it returns or throws, an append to a consistent store leaves a consistent store.
pub append_event_result-IsConsistent :
    (h : Host) (input : AppendEventInput) (s : InMemoryEventStore)
    → IsConsistent h.digest s
    → IsConsistent h.digest (append_event_result h input s).1
unfolding link_event
append_event_result-IsConsistent h input s c = elim (append-Outcome h input s) [
  | refused e n out ↦ rw out (IsConsistent-clock h.digest s n c)
  | replayed x found same out ↦ rw out c
  | appended free fresh fine out ↦ rw out (
      IsConsistent-store_event h.digest (record s { clock_reads = s.clock_reads + 1 })
        (IsConsistent-clock h.digest s (s.clock_reads + 1) c) (number_event h input s)
        (link_event h input s) (sequence_after h input s) (chained_after h input s)
        (free_after h input s free) fresh)
]
