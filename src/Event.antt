-- ===== src/Event.antt =====
-- src/capture/event.rs: the event that capture accepts and every later stage handles. A timestamp is
-- a whole number of nanoseconds since the epoch, and a uuid its 128 bits as a number.
use hoglet.Prelude.{ℕ, String}
use hoglet.Prelude.Int.{ℤ}
use hoglet.Json.{Object}

pub record CapturedEvent : Type 0 where
  pub uuid : ℕ
  pub event : String
  pub distinct_id : String
  pub token : String
  pub timestamp : ℤ
  pub properties : Object
