-- ===== src/Protocol/Host.antt =====
-- What the program calls and does not implement: the id generator and the clocks that a caller
-- passes in, `Date.parse`, and SHA-256 over the canonical text of an event.
use deliberum.Prelude.{ℕ, String, Bool, Option, ltb, true, false}
use deliberum.Protocol.Events.{EventEnvelope}

-- Milliseconds since 1970, which may be negative: `before n` is -(n + 1).
pub data Millis : Type 0 where
  after : ℕ → Millis
  before : ℕ → Millis

unfoldable pub millis_lt : Millis → Millis → Bool
millis_lt (after a) (after b) = ltb a b
millis_lt (after a) (before b) = false
millis_lt (before a) (after b) = true
millis_lt (before a) (before b) = ltb b a

pub record Host : Type 0 where
  -- the result of the n-th call of each
  pub id_generator : ℕ → String
  pub clock : ℕ → String
  pub store_clock : ℕ → String
  -- none is NaN
  pub date_parse : String → Option Millis
  -- the hexadecimal digest of the stable text of an event without its own hash
  pub digest : EventEnvelope → String
  -- the options that a service is made with
  pub has_event_store : Bool
  pub has_id_generator : Bool
  pub schema_version : Option String
