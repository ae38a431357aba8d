-- ===== src/Core/World.antt =====
-- What every operation of packages/core/src takes as `options`: the event store, the id generator,
-- the clock and the schema version, with the calls made so far (packages/core/src/session.ts).
use deliberum.Prelude.{ℕ, ◌+◌, String, ◌≡◌, refl, ◌⊎◌, inl, inr, Bool, true, false, get_or}
use deliberum.Errors.{ok, err, Exec, ◌>>◌, require, missing_session_dependency}
use deliberum.Protocol.Events.{AppendEventInput}
use deliberum.Protocol.Host.{Host}
use deliberum.Storage.Memory.{
  InMemoryEventStore, AppendEventResult, append_event_result, empty_store,
}

pub record World : Type 0 where
  pub store : InMemoryEventStore
  pub id_calls : ℕ
  pub clock_calls : ℕ

abbrev pub start : World
start = record { store = empty_store; id_calls = 0; clock_calls = 0 }

module _ (h : Host) where
  -- `options.idGenerator()`
  unfoldable pub next_id : Exec World String
  next_id w = (ok (h.id_generator w.id_calls), record w { id_calls = w.id_calls + 1 })

  -- `getClock(options)()`
  unfoldable pub get_clock : Exec World String
  get_clock w = (ok (h.clock w.clock_calls), record w { clock_calls = w.clock_calls + 1 })

  -- `options.schemaVersion ?? DEFAULT_SCHEMA_VERSION`
  unfoldable pub get_schema_version : String
  unfolding get_or
  get_schema_version = get_or "1" h.schema_version

  unfoldable pub assert_options : Exec World (Unit {0})
  assert_options =
      require h.has_event_store missing_session_dependency
      >> require h.has_id_generator missing_session_dependency

  -- `options.eventStore.appendEventResult(...)`
  unfoldable pub append : AppendEventInput → Exec World AppendEventResult
  unfolding append_event_result
  append input w = let (r, s) = append_event_result h input w.store in (r, record w { store = s })

-- The check of the options reads nothing of the world and changes nothing.
pub assert_options-cases :
    (h : Host) (w : World)
    → (assert_options h w ≡ (ok tt, w)) ⊎ (assert_options h w ≡ (err missing_session_dependency, w))
unfolding assert_options
assert_options-cases h w = by_flags h.has_event_store h.has_id_generator
  where
    by_flags :
        (a b : Bool)
        → ((require a missing_session_dependency >> require b missing_session_dependency) w
            ≡ (ok tt, w))
          ⊎ ((require a missing_session_dependency >> require b missing_session_dependency) w
              ≡ (err missing_session_dependency, w))
    by_flags true true = inl refl
    by_flags true false = inr refl
    by_flags false b = inr refl
