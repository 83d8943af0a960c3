-- ===== src/Lock.antt =====
-- typescript/src/restart.ts: class Lock, the messages of its stream and the stream's interface.
use signet_clients.Prelude.{
  ℕ, max, Bool, true, false, ◌||◌, Option, none, some, List, [], ◌∷◌, ◌++◌, if◌then◌else◌,
}
use signet_clients.Runtime.{Text, JsError, JsValue}
use signet_clients.Timestamp.{Date}

pub record Request : Type 0 where
  pub namespace : Text
  pub service : Text
  pub ttl_seconds : ℕ
  pub heartbeat : Bool

pub data MessageType : Type 0 where
  unspecified queue_position acquired ttl_extended unrecognized : MessageType

-- `position` is not read.
pub record Response : Type 0 where
  pub message_type : MessageType
  pub token : Text
  pub expires_at : Option Date

-- What the lock needs of its stream besides `recv`, whose outcomes are events: each operation
-- gives the stream's next state and the value that it throws, if any.
pub record LockStream (S : Type 0) : Type 0 where
  pub send : Request → S → S × Option JsValue
  pub close_send : S → S × Option JsValue

pub record Lock : Type 0 where
  pub token : Text
  pub expires_at : Option Date
  pub released : Bool
  pub lost_reported : Bool
  -- The interval of the timer, while it is set.
  pub heartbeat_timer : Option ℕ
  pub recv_done : Bool
  -- What the promise `lost` has resolved to, and the arguments of the 'lost' events so far.
  pub lost : Option JsError
  pub emitted : List JsError

unfoldable pub new_lock : Lock
new_lock = record {
  token = [];
  expires_at = none;
  released = false;
  lost_reported = false;
  heartbeat_timer = none;
  recv_done = false;
  lost = none;
  emitted = [];
}

unfoldable pub set_acquired : Text → Option Date → Lock → Lock
set_acquired token expires_at k = record k { token = token; expires_at = expires_at }

unfoldable pub update_expiry : Option Date → Lock → Lock
update_expiry none k = k
update_expiry (some t) k = record k { expires_at = some t }

unfoldable pub report_lost : JsError → Lock → Lock
report_lost err k = if k.released || k.lost_reported then k else record k {
  lost_reported = true;
  lost = some (elim k.lost [ some first ↦ first | none ↦ err ]);
  emitted = k.emitted ++ err ∷ [];
}

unfoldable pub finish_recv_loop : Lock → Lock
finish_recv_loop k = record k { recv_done = true }

unfoldable pub start_heartbeat : ℕ → Lock → Lock
start_heartbeat interval_ms k = record k { heartbeat_timer = some (max 1 interval_ms) }

unfoldable pub stop_heartbeat : Lock → Lock
stop_heartbeat k = record k { heartbeat_timer = none }
