-- ===== src/Core/Session.antt =====
-- packages/core/src/session.ts: a session starts with the event that publishes its topic contract.
pub mod Published
use deliberum.Prelude.{
  ℕ, zero, suc, ◌+◌, ◌-◌, ◌≤◌, ◌<◌, max, String, ◌+++◌, ◌≡◌, refl, sym, ap, ◌∙◌, ◌≢◌, ◌↔◌, ◌⊎◌, inl,
  inr, Bool, true, false, ◌&&◌, ◌||◌, not, Option, none, some, List, [], ◌∷◌, ◌++◌, map, arith,
  eq_iff, eq_refl, ltb, leb, nat_eq, ◌==◌, if◌then◌else◌, ltb→lt, leb→le, Bool-cases, Option-cases,
  String_discrete, ℕ_discrete, length, length-append, Map, get, set, get-set, get_or, filter, find,
  any, all, contains, get_last?, add_to_set, to_set, insert_by, sort_by, Never, In, In-append_left,
  In-append_last, In-append_one, In-filter, In-filter_intro, filter-append, get_last?-append_one,
  contains→In, In→contains, Distinct, Distinct-append_one, to_set-Distinct, In-to_set, all→In,
  In→all, Distinct-length-le,
}
use deliberum.Errors.{
  Error, Result, ok, err, Exec, ◌>>=◌, ◌>>◌, pure, lift, invalid_topic_contract_input,
}
use deliberum.Protocol.Core.{TopicContract, topic_contract_schema}
use deliberum.Protocol.Events.{AppendEventInput, EventEnvelope, empty_trace, public, topic_contract}
use deliberum.Protocol.Host.{Host}
use deliberum.Core.World.{World, next_id, get_clock, get_schema_version, assert_options, append}

abbrev pub topic_contract_published : String
topic_contract_published = "topic_contract_published"

-- A contract of none is a value that does not have the shape at all.
pub record CreateSessionInput : Type 0 where
  pub topic_contract : Option TopicContract

pub record CreateSessionResult : Type 0 where
  pub session_id : String
  pub initial_event : EventEnvelope

unfoldable pub parse_topic_contract : Option TopicContract → Result TopicContract
unfolding topic_contract_schema
parse_topic_contract none = err invalid_topic_contract_input
parse_topic_contract (some c) =
    if topic_contract_schema c then ok c else err invalid_topic_contract_input

module _ (h : Host) where
  unfoldable pub published_input : String → String → String → TopicContract → AppendEventInput
  unfolding get_schema_version
  published_input session_id event_id created_at contract = record {
    id = event_id;
    session_id = session_id;
    schema_version = get_schema_version h;
    type = topic_contract_published;
    author_id = "system";
    created_at = created_at;
    based_on_event_ids = [];
    batch_id = none;
    visibility = public;
    idempotency_key = none;
    trace = empty_trace;
    payload = topic_contract contract;
  }

  unfoldable pub create_session : CreateSessionInput → Exec World CreateSessionResult
  unfolding next_id get_clock
  create_session input =
      assert_options h >> lift (parse_topic_contract input.topic_contract) >>= λ contract.
      next_id h >>= λ session_id. next_id h >>= λ event_id. get_clock h >>= λ created_at.
      append h (published_input session_id event_id created_at contract) >>= λ r.
      pure (record { session_id = session_id; initial_event = r.event })
