-- ===== src/Storage/JsonFile/Loaded.antt =====
-- load of packages/storage/src/json-file-event-store.ts: the events of the ledger are there.
use deliberum.Prelude.{
  String, ◌≡◌, refl, sym, ap, ◌∙◌, inl, inr, true, false, none, some, List, [], ◌∷◌, map, eq_iff,
  eq_refl, ◌==◌, Bool-cases, get, get-set, In,
}
use mathlib.Core.Path.{subst}
use deliberum.Errors.{ok, Result-cases, ok_injective}
use deliberum.Protocol.Events.{EventEnvelope, event_envelope_schema}
use deliberum.Protocol.Host.{Host}
use deliberum.Storage.Memory.{InMemoryEventStore, empty_store, get_event, has}
use deliberum.Storage.JsonFile.{
  ledger_object, JsonHost, JsonFileEventStore, write_event, put_event, put_events,
}
use deliberum.Storage.JsonFile.Ledger.{
  parse_events, parse_persisted_ledger, validate_persisted_ledger_integrity, load,
}

-- An event that is put is found under its id, and so is every event that was there.
put_event-finds :
    (e : EventEnvelope) (s t : InMemoryEventStore)
    → put_event e s ≡ ok t
    → get_event t e.id ≡ some e
unfolding put_event write_event get_event
put_event-finds e s t done = elim (Bool-cases (has s.events_by_id e.id)) [
  | inl there ↦ cc (rw there at done)
  | inr free ↦
      subst (λ x. get x.events_by_id e.id ≡ some e) (ok_injective _ t (rw free at done))
        (get-set s.events_by_id e.id e.id e ∙ rw (eq_refl e.id) refl)
]

found-has :
    (s : InMemoryEventStore) (e : EventEnvelope) (id : String)
    → get_event s id ≡ some e
    → has s.events_by_id id ≡ true
unfolding has get_event
found-has s e id found = ap (λ o. elim o [ none ↦ false | some _ ↦ true ]) found

put_event-keeps :
    (x e : EventEnvelope) (s t : InMemoryEventStore)
    → put_event x s ≡ ok t
    → get_event s e.id ≡ some e
    → get_event t e.id ≡ some e
unfolding put_event write_event get_event
put_event-keeps x e s t done found = elim (Bool-cases (has s.events_by_id x.id)) [
  | inl there ↦ cc (rw there at done)
  | inr free ↦
      let other : (x.id == e.id) ≡ false = elim (Bool-cases (x.id == e.id)) [
        | inr n ↦ n
        | inl y ↦
            let there : has s.events_by_id x.id ≡ true =
              subst (λ k. has s.events_by_id k ≡ true) (sym ((eq_iff x.id e.id).0 y))
                (found-has s e e.id found) in
            cc
      ] in
      subst (λ m. get m.events_by_id e.id ≡ some e) (ok_injective _ t (rw free at done))
        (get-set s.events_by_id x.id e.id x ∙ rw other found)
]

put_events-keeps :
    (es : List EventEnvelope) (e : EventEnvelope) (s t : InMemoryEventStore)
    → put_events es s ≡ ok t
    → get_event s e.id ≡ some e
    → get_event t e.id ≡ some e
unfolding put_events
put_events-keeps [] e s t done found =
    subst (λ m. get_event m e.id ≡ some e) (ok_injective s t done) found
put_events-keeps (x ∷ es) e s t done found = elim (Result-cases (put_event x s)) [
  | inr bad ↦ cc (rw bad.1 at done)
  | inl m ↦ put_events-keeps es e m.0 t (rw m.1 at done) (put_event-keeps x e s m.0 m.1 found)
]

put_events-finds :
    (es : List EventEnvelope) (e : EventEnvelope) (s t : InMemoryEventStore)
    → put_events es s ≡ ok t
    → In e es
    → get_event t e.id ≡ some e
unfolding put_events
put_events-finds [] e s t done m = elim m [ ]
put_events-finds (x ∷ es) e s t done m = elim (Result-cases (put_event x s)) [
  | inr bad ↦ cc (rw bad.1 at done)
  | inl u ↦ elim m [
    | inl same ↦
        subst (λ y. get_event t y.id ≡ some y) (sym same)
          (put_events-keeps es x u.0 t (rw u.1 at done) (put_event-finds x s u.0 u.1))
    | inr rest ↦ put_events-finds es e u.0 t (rw u.1 at done) rest
  ]
]

parse_events-same :
    (h : Host) (j : JsonHost) (es out : List EventEnvelope)
    → parse_events h j (map some es) ≡ ok out
    → es ≡ out
unfolding parse_events
parse_events-same h j [] out done = ok_injective [] out done
parse_events-same h j (e ∷ es) out done = elim (Bool-cases (event_envelope_schema e)) [
  | inr bad ↦ cc (rw bad at done)
  | inl fine ↦ elim (Result-cases (parse_events h j (map some es))) [
    | inr bad ↦ cc (rw (fine, bad.1) at done)
    | inl more ↦
        ap (λ xs. e ∷ xs) (parse_events-same h j es more.0 more.1)
        ∙ ok_injective _ out (rw (fine, more.1) at done)
  ]
]

parse_persisted_ledger-same :
    (h : Host) (j : JsonHost) (es out : List EventEnvelope)
    → parse_persisted_ledger h j (ledger_object (some 1) (some (map some es))) ≡ ok out
    → es ≡ out
unfolding parse_persisted_ledger
parse_persisted_ledger-same h j es out done = elim (Result-cases (parse_events h j (map some es))) [
  | inr bad ↦ cc (rw bad.1 at done)
  | inl parsed ↦ elim (Result-cases (validate_persisted_ledger_integrity h j parsed.0)) [
    | inr bad ↦ cc (rw (parsed.1, bad.1) at done)
    | inl fine ↦
        parse_events-same h j es parsed.0 parsed.1
        ∙ ok_injective _ out (rw (parsed.1, fine.1) at done)
  ]
]

-- When a file is loaded that parses as a ledger of version 1, each of the ledger's events is found
-- under its id, as it stands in the file.
pub get_event-load :
    (h : Host) (j : JsonHost) (contents : String) (es : List EventEnvelope) (s : JsonFileEventStore)
    (e : EventEnvelope)
    → j.parse_json contents ≡ some (ledger_object (some 1) (some (map some es)))
    → load h j (some contents) ≡ ok s
    → In e es
    → get_event s.memory e.id ≡ some e
unfolding load
get_event-load h j contents es s e parsed done m =
    elim (Result-cases (parse_persisted_ledger h j (ledger_object (some 1) (some (map some es))))) [
      | inr bad ↦ cc (rw (parsed, bad.1) at done)
      | inl ledger ↦ elim (Result-cases (put_events ledger.0 empty_store)) [
        | inr bad ↦ cc (rw (parsed, ledger.1, bad.1) at done)
        | inl t ↦
            subst (λ x. get_event x.memory e.id ≡ some e)
              (ok_injective _ s (rw (parsed, ledger.1, t.1) at done))
              (put_events-finds ledger.0 e empty_store t.0 t.1
                (subst (λ xs. In e xs) (parse_persisted_ledger-same h j es ledger.0 ledger.1) m))
      ]
    ]
