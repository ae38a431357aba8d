-- ===== src/Storage/JsonFile/Ledger.antt =====
-- load of packages/storage/src/json-file-event-store.ts, with the checks of a persisted ledger.
use deliberum.Prelude.{
  ℕ, zero, suc, ◌+◌, String, Bool, true, false, ◌&&◌, ◌||◌, not, Option, none, some, List, [], ◌∷◌,
  ◌++◌, nat_eq, ◌==◌, if◌then◌else◌, Map, get, set, get_or, contains, add_to_set,
}
use deliberum.Errors.{
  Result, ok, and_then, unreadable, not_an_object, unsupported_version, events_not_an_array,
  event_invalid, chain_broken, persisted_id_twice, conflicting_key, not_contiguous, sequence_twice,
}
use deliberum.Protocol.Events.{EventEnvelope, event_envelope_schema}
use deliberum.Protocol.Host.{Host}
use deliberum.Storage.Integrity.{validate_event_integrity_chain}
use deliberum.Storage.Memory.{empty_store, create_idempotency_lookup_key}
use deliberum.Storage.JsonFile.{
  ParsedFile, no_object, ledger_object, JsonHost, JsonFileEventStore, fault, put_events,
}

-- What `validatePersistedLedgerIntegrity` has seen so far.
pub record LedgerSeen : Type 0 where
  pub event_ids : List String
  pub sequences_by_session : Map (List ℕ)
  pub event_counts_by_session : Map ℕ
  pub idempotency_event_ids : Map String

abbrev pub nothing_seen : LedgerSeen
nothing_seen = record {
  event_ids = [];
  sequences_by_session = [];
  event_counts_by_session = [];
  idempotency_event_ids = [];
}

unfoldable pub has_sequence : List ℕ → ℕ → Bool
has_sequence [] n = false
has_sequence (m ∷ ms) n = nat_eq m n || has_sequence ms n

unfoldable pub other_event : Option String → String → Bool
other_event none id = false
other_event (some x) id = not (x == id)

unfoldable pub see_key : Option String → EventEnvelope → Map String → Result (Map String)
unfolding other_event
see_key none e m = ok m
see_key (some k) e m =
    if other_event (get m k) e.id then fault (conflicting_key e.session_id) else ok (set m k e.id)

unfoldable pub see_event : EventEnvelope → LedgerSeen → Result LedgerSeen
unfolding contains has_sequence see_key get_or
see_event e seen =
    let sequences = get_or [] (get seen.sequences_by_session e.session_id) in
    if contains seen.event_ids e.id
    then fault (persisted_id_twice e.id)
    else if has_sequence sequences e.sequence
    then fault (sequence_twice e.session_id e.sequence)
    else and_then (see_key (create_idempotency_lookup_key e.input) e seen.idempotency_event_ids)
        (λ keys. ok (record {
          event_ids = add_to_set seen.event_ids e.id;
          sequences_by_session =
              set seen.sequences_by_session e.session_id (sequences ++ e.sequence ∷ []);
          event_counts_by_session =
              set seen.event_counts_by_session e.session_id
                (get_or 0 (get seen.event_counts_by_session e.session_id) + 1);
          idempotency_event_ids = keys;
        }))

unfoldable pub see_events : List EventEnvelope → LedgerSeen → Result LedgerSeen
unfolding see_event
see_events [] seen = ok seen
see_events (e ∷ es) seen = and_then (see_event e seen) (see_events es)

-- Every number below the bound is there.
unfoldable pub all_below : ℕ → List ℕ → Bool
unfolding has_sequence
all_below zero sequences = true
all_below (suc n) sequences = all_below n sequences && has_sequence sequences n

unfoldable pub check_contiguous : Map ℕ → Map (List ℕ) → Result (Unit {0})
unfolding all_below get_or
check_contiguous counts [] = ok tt
check_contiguous counts ((sid, sequences) ∷ m) =
    let rest = check_contiguous counts m in
    if all_below (get_or 0 (get counts sid)) sequences then rest else fault (not_contiguous sid)

module _ (h : Host) (j : JsonHost) where
  unfoldable pub validate_persisted_ledger_integrity : List EventEnvelope → Result (Unit {0})
  unfolding see_events check_contiguous validate_event_integrity_chain
  validate_persisted_ledger_integrity events = and_then (see_events events nothing_seen) (λ seen.
      and_then (check_contiguous seen.event_counts_by_session seen.sequences_by_session) (λ u.
        elim (validate_event_integrity_chain h.digest events) [
          | none ↦ ok tt
          | some broken ↦ fault chain_broken
        ]))

  unfoldable pub parse_events : List (Option EventEnvelope) → Result (List EventEnvelope)
  unfolding event_envelope_schema
  parse_events [] = ok []
  parse_events (none ∷ es) = fault event_invalid
  parse_events (some e ∷ es) =
      let rest = parse_events es in
      if event_envelope_schema e then and_then rest (λ more. ok (e ∷ more)) else fault event_invalid

  unfoldable pub parse_persisted_ledger : ParsedFile → Result (List EventEnvelope)
  unfolding parse_events validate_persisted_ledger_integrity
  parse_persisted_ledger no_object = fault not_an_object
  parse_persisted_ledger (ledger_object none events) = fault unsupported_version
  parse_persisted_ledger (ledger_object (some version) none) =
      if nat_eq version 1 then fault events_not_an_array else fault unsupported_version
  parse_persisted_ledger (ledger_object (some version) (some events)) =
      if nat_eq version 1
      then and_then (parse_events events)
          (λ es. and_then (validate_persisted_ledger_integrity es) (λ u. ok es))
      else fault unsupported_version

  abbrev pub load_parsed : String → Option ParsedFile → Result JsonFileEventStore
  load_parsed contents none = fault unreadable
  load_parsed contents (some parsed) = and_then (parse_persisted_ledger parsed) (λ events.
      and_then (put_events events empty_store)
        (λ m. ok (record { memory = m; file = some contents; writes = 0 })))

  -- `none` is a file that does not exist.
  unfoldable pub load : Option String → Result JsonFileEventStore
  load none = ok (record { memory = empty_store; file = none; writes = 0 })
  load (some contents) = load_parsed contents (j.parse_json contents)
