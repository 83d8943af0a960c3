-- ===== src/AcquireLock.antt =====
-- typescript/src/restart.ts: acquireLock, up to its call of acquireLockWithStream.
pub mod Entry
pub mod Arriving
pub mod Answering
pub mod Tests
use signet_clients.Prelude.{ℕ, Bool, true, false, Option, none, some, ◌++◌, ltb, if◌then◌else◌}
use signet_clients.Runtime.{
  Text, codes, JsError, JsValue, error, new_error, Outcome, resolved, rejected, Signal,
}
use signet_clients.Errors.{err_message}
use signet_clients.Lock.{LockStream}
use signet_clients.LockSession.{Finite, Session, acquire_lock_with_stream}

-- A JavaScript number: a finite one, or one that is not.
pub data JsNumber : Type 0 where
  finite : Finite → JsNumber
  not_a_number infinity minus_infinity : JsNumber

pub is_positive : Finite → Bool
is_positive x = if x.negative then false else ltb 0 x.num

-- `!Number.isFinite(ttlSeconds) || ttlSeconds <= 0` is false.
pub valid_ttl : JsNumber → Option Finite
unfolding is_positive
valid_ttl (finite x) = if is_positive x then some x else none
valid_ttl not_a_number = none
valid_ttl infinity = none
valid_ttl minus_infinity = none

-- `show` is the number as a template literal prints it; `opened` is what
-- `client.acquireRestartLock()` gives.
module _ {S : Type 0} (io : LockStream S) (show : JsNumber → Text) (opened : Outcome S) where
  pub open_stream : Outcome S → Text → Text → Finite → Option ℕ → Signal → Outcome (Session S)
  open_stream (resolved stream) namespace service ttl interval signal =
      acquire_lock_with_stream io stream namespace service ttl interval signal
  open_stream (rejected e) namespace service ttl interval signal =
      rejected
        (error (new_error (codes "signet: open AcquireRestartLock stream: " ++ err_message e)))

  pub checked : Option Finite → JsNumber → Text → Text → Option ℕ → Signal → Outcome (Session S)
  unfolding open_stream
  checked none ttl namespace service interval signal =
      rejected (error (new_error (codes "signet: ttlSeconds must be > 0, got " ++ show ttl)))
  checked (some x) ttl namespace service interval signal =
      open_stream opened namespace service x interval signal

  pub acquire_lock : Text → Text → JsNumber → Option ℕ → Signal → Outcome (Session S)
  unfolding checked
  acquire_lock namespace service ttl interval signal =
      checked (valid_ttl ttl) ttl namespace service interval signal
