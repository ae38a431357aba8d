-- ===== src/Tests/Scenario.antt =====
-- A host whose n-th id is n + 1 strokes, and two events under one idempotency key.
use deliberum.Prelude.{
  ℕ, zero, suc, String, ◌+++◌, ◌==◌, if◌then◌else◌, Option, none, some, [], true, false,
}
use deliberum.Errors.{Result, ok, err}
use deliberum.Protocol.Common.{text}
use deliberum.Protocol.Events.{AppendEventInput, EventEnvelope, public, json, empty_trace}
use deliberum.Protocol.Host.{Host, Millis, after, before}
use deliberum.Storage.Memory.{AppendEventResult}

abbrev pub strokes : ℕ → String
strokes zero = "i"
strokes (suc n) = "i" +++ strokes n

abbrev pub read_date : String → Option Millis
read_date t = if t == "early" then some (before 3) else if t == "now" then some (after 5) else none

abbrev pub host : Host
host = record {
  id_generator = strokes;
  clock = λ n. "now";
  store_clock = λ n. "now";
  date_parse = read_date;
  digest = λ e. e.id;
  has_event_store = true;
  has_id_generator = true;
  schema_version = none;
}

abbrev pub note : String → Option String → AppendEventInput
note id key = record {
  id = id;
  session_id = "s";
  schema_version = "1";
  type = "note";
  author_id = "ann";
  created_at = "now";
  based_on_event_ids = [];
  batch_id = none;
  visibility = public;
  idempotency_key = key;
  trace = empty_trace;
  payload = json (text "hello");
}

abbrev pub no_event : EventEnvelope
no_event = record { input = note "" none; sequence = 0; recorded_at = ""; integrity = none }

-- The value of a call that does not throw.
abbrev pub result_of : Result AppendEventResult → AppendEventResult
result_of (ok r) = r
result_of (err e) = record { event = no_event; appended = false }
