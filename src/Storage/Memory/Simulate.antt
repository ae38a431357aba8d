-- ===== src/Storage/Memory/Simulate.antt =====
-- appendEventResult of packages/storage/src/in-memory-event-store.ts against the append of a log.
use deliberum.Prelude.{
  ℕ, ◌+◌, String, ◌≡◌, refl, sym, ap, ◌∙◌, inl, inr, Bool, true, false, Option, none, some, List,
  [], ◌∷◌, ◌++◌, arith, eq_iff, if◌then◌else◌, Bool-cases, Option-cases, length, length-append, Map,
  get, filter, find, get_last?, filter-append,
}
use mathlib.Core.List.{append-nil}
use mathlib.Core.Path.{subst}
use deliberum.Errors.{Result, ok}
use deliberum.Protocol.Events.{EventEnvelope, AppendEventInput, event_envelope_schema}
use deliberum.Protocol.Host.{Host}
use deliberum.Storage.Integrity.{attach_event_integrity}
use deliberum.Storage.Memory.{
  InMemoryEventStore, AppendEventResult, create_idempotency_lookup_key, find_existing, has,
  get_session_events, next_sequence, number_event, link_event, store_event, append_new,
  append_or_replay, append_event_result,
}
use deliberum.Storage.Memory.Effect.{
  keyed, get_session_events-store_event, next_sequence-store_event, by_id-store_event,
  find_existing-store_event,
}
use deliberum.Storage.Memory.Log.{
  Log, of_session, has_id, has_key, log_find_key, log_number, log_link, log_new, log_append,
  Represents,
}

has-none : (m : Map EventEnvelope) (k : String) → get m k ≡ none → has m k ≡ false
unfolding has
has-none m k e = rw (e, has) refl

has-some :
    (m : Map EventEnvelope) (k : String) (x : EventEnvelope) → get m k ≡ some x → has m k ≡ true
unfolding has
has-some m k x e = rw (e, has) refl

find-append_one :
    (p : EventEnvelope → Bool) (es : List EventEnvelope) (e : EventEnvelope)
    → find p es ≡ none
    → find p (es ++ e ∷ []) ≡ (if p e then some e else none)
unfolding find
find-append_one p [] e h = refl
find-append_one p (x ∷ es) e h = elim (Bool-cases (p x)) [
  | inl t ↦ cc (rw t at h)
  | inr f ↦ rw f (find-append_one p es e (rw f at h))
]

find-append_old :
    (p : EventEnvelope → Bool) (es : List EventEnvelope) (e : EventEnvelope)
    → p e ≡ false
    → find p (es ++ e ∷ []) ≡ find p es
unfolding find
find-append_old p [] e h = rw h refl
find-append_old p (x ∷ es) e h = elim (Bool-cases (p x)) [
  | inl t ↦ rw t refl
  | inr f ↦ rw f (find-append_old p es e h)
]

-- What a map has under a key after an append, if the key was free.
find-appended :
    (p : EventEnvelope → Bool) (es : List EventEnvelope) (e : EventEnvelope)
    (found : Option EventEnvelope)
    → found ≡ find p es
    → (p e ≡ true → find p es ≡ none)
    → (if p e then some e else found) ≡ find p (es ++ e ∷ [])
find-appended p es e found same free = elim (Bool-cases (p e)) [
  | inl t ↦ rw t (sym (find-append_one p es e (free t) ∙ rw t refl))
  | inr f ↦ rw f (same ∙ sym (find-append_old p es e f))
]

-- What a session's list has after an append.
filter-appended :
    (p : EventEnvelope → Bool) (es : List EventEnvelope) (e : EventEnvelope)
    (old : List EventEnvelope)
    → old ≡ filter p es
    → (if p e then old ++ e ∷ [] else old) ≡ filter p (es ++ e ∷ [])
unfolding filter
filter-appended p es e old same = elim (Bool-cases (p e)) [
  | inl t ↦ rw t (ap (λ l. l ++ e ∷ []) same ∙ sym (filter-append p es (e ∷ []) ∙ rw t refl))
  | inr f ↦ rw f (same ∙ sym (filter-append p es (e ∷ []) ∙ rw f (append-nil (filter p es))))
]

count-appended :
    (p : EventEnvelope → Bool) (es : List EventEnvelope) (e : EventEnvelope) (old : ℕ)
    → old ≡ length (filter p es)
    → (p e ≡ true → e.sequence ≡ old)
    → (if p e then e.sequence + 1 else old) ≡ length (filter p (es ++ e ∷ []))
unfolding filter
count-appended p es e old same next = elim (Bool-cases (p e)) [
  | inl t ↦
      let all : filter p (es ++ e ∷ []) ≡ filter p es ++ e ∷ [] =
        filter-append p es (e ∷ []) ∙ rw t refl in
      rw (t, all, length-append (filter p es) (e ∷ [])) (omega (arith, same, next t))
  | inr f ↦
      let all : filter p (es ++ e ∷ []) ≡ filter p es =
        filter-append p es (e ∷ []) ∙ rw f (append-nil (filter p es)) in
      rw (f, all) same
]

-- No event of the log has the key of the input.
key_is_free :
    (key : Option String) (es : List EventEnvelope) (k : String)
    → log_find_key key es ≡ none
    → keyed key k ≡ true
    → find (has_key k) es ≡ none
key_is_free none es k free mine = cc mine
key_is_free (some j) es k free mine =
    subst (λ x. find (has_key x) es ≡ none) ((eq_iff j k).0 mine) free

module _ (h : Host) (input : AppendEventInput) (s : InMemoryEventStore) (l : Log)
    (rep : Represents s l) where
  same_number : number_event h input s ≡ log_number h input l
  unfolding number_event
  same_number = rw (rep.counts input.session_id, rep.reads) refl

  same_link : link_event h input s ≡ log_link h input l
  unfolding link_event
  same_link =
      let bare = log_number h input l in
      ap
        (λ n. attach_event_integrity h.digest n (get_last? (get_session_events s input.session_id)))
        same_number
      ∙ ap (λ es. attach_event_integrity h.digest bare (get_last? es)) (rep.lists input.session_id)

  same_key : (key : Option String) → find_existing s key ≡ log_find_key key l.events
  unfolding find_existing
  same_key none = refl
  same_key (some k) = rep.keys k

  abbrev after : InMemoryEventStore
  after = record s { clock_reads = s.clock_reads + 1 }

  abbrev key : Option String
  key = create_idempotency_lookup_key input

  next_number :
      (sid : String)
      → of_session sid (link_event h input s) ≡ true
      → (link_event h input s).sequence ≡ next_sequence s sid
  unfolding link_event
  next_number sid mine = ap (λ x. next_sequence s x) ((eq_iff input.session_id sid).0 mine)

  id_is_free :
      (id : String)
      → find (has_id input.id) l.events ≡ none
      → has_id id (link_event h input s) ≡ true
      → find (has_id id) l.events ≡ none
  unfolding link_event
  id_is_free id fresh mine =
      subst (λ x. find (has_id x) l.events ≡ none) ((eq_iff input.id id).0 mine) fresh

  stored :
      find (has_id input.id) l.events ≡ none
      → log_find_key key l.events ≡ none
      → Represents (store_event key (link_event h input s) after) (record {
        events = l.events ++ link_event h input s ∷ [];
        clock_reads = l.clock_reads + 1;
      })
  unfolding store_event link_event next_sequence create_idempotency_lookup_key find_existing find
  stored fresh free =
      let e = link_event h input s in
      record {
        lists = λ sid.
            get_session_events-store_event key e after sid
            ∙ filter-appended (of_session sid) l.events e (get_session_events s sid)
                (rep.lists sid);
        counts = λ sid.
            next_sequence-store_event key e after sid
            ∙ count-appended (of_session sid) l.events e (next_sequence s sid) (rep.counts sid)
                (next_number sid);
        finds = λ id.
            by_id-store_event key e after id
            ∙ find-appended (has_id id) l.events e (get s.events_by_id id) (rep.finds id)
                (id_is_free id fresh);
        keys = λ k.
            find_existing-store_event key e after k
            ∙ find-appended (has_key k) l.events e (find_existing s (some k)) (rep.keys k)
                (key_is_free key l.events k free);
        reads = ap (λ n. n + 1) rep.reads;
      }

  -- The result is the log's, and the new store represents the new log.
  abbrev Simulates :
      Result AppendEventResult × InMemoryEventStore → Result AppendEventResult × Log → Type 0
  Simulates out spec = (out.0 ≡ spec.0) × Represents out.1 spec.1

  ticked : Represents after (record l { clock_reads = l.clock_reads + 1 })
  unfolding get_session_events next_sequence find_existing
  ticked = record {
    lists = rep.lists;
    counts = rep.counts;
    finds = rep.finds;
    keys = rep.keys;
    reads = ap (λ n. n + 1) rep.reads;
  }

  Simulates-new :
      log_find_key key l.events ≡ none
      → Simulates (append_new h key input s) (log_new h input (find (has_id input.id) l.events) l)
  unfolding append_new
  Simulates-new free = elim (Option-cases (find (has_id input.id) l.events)) [
    | inr x ↦ rw (has-some s.events_by_id input.id x.0 (rep.finds input.id ∙ x.1), x.1) (refl, rep)
    | inl fresh ↦
        let new = has-none s.events_by_id input.id (rep.finds input.id ∙ fresh) in
        elim (Bool-cases (event_envelope_schema (log_number h input l))) [
          | inr bad ↦
              rw (new, fresh, ap event_envelope_schema same_number ∙ bad, bad) (refl, ticked)
          | inl good ↦ elim (Bool-cases (event_envelope_schema (log_link h input l))) [
            | inr bad ↦
                rw
                  (
                    new,
                    fresh,
                    ap event_envelope_schema same_number ∙ good,
                    good,
                    ap event_envelope_schema same_link ∙ bad,
                    bad,
                  )
                  (refl, ticked)
            | inl fine ↦
                rw
                  (
                    new,
                    fresh,
                    ap event_envelope_schema same_number ∙ good,
                    good,
                    ap event_envelope_schema same_link ∙ fine,
                    fine,
                  )
                  (
                    ap (λ e. ok (record { event = e; appended = true })) same_link,
                    subst
                        (λ e.
                          Represents (store_event key (link_event h input s) after) (record {
                            events = l.events ++ e ∷ [];
                            clock_reads = l.clock_reads + 1;
                          }))
                        same_link (stored fresh free),
                  )
          ]
        ]
  ]

  -- One append of the store is the append of the log.
  pub append_event_result-Simulates :
      Simulates (append_event_result h input s) (log_append h input l)
  unfolding append_event_result append_or_replay
  append_event_result-Simulates =
      elim (Option-cases (log_find_key (create_idempotency_lookup_key input) l.events)) [
        | inl free ↦
            rw (same_key (create_idempotency_lookup_key input) ∙ free, free) (Simulates-new free)
        | inr x ↦ rw (same_key (create_idempotency_lookup_key input) ∙ x.1, x.1) (refl, rep)
      ]
