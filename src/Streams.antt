-- ===== src/Streams.antt =====
-- typescript/src/restart.ts: lockStreamFromGrpc and watchStreamFromGrpc. The grpc-js stream is
-- not part of the repository: `calls` is what the adapter has called on it, in order, and its
-- 'data', 'error' and 'end' events are operations of the adapter.
pub mod Calls
pub mod Received
pub mod Tests
use signet_clients.Prelude.{
  Bool, true, false, Option, none, some, List, [], ◌∷◌, ◌++◌, if◌then◌else◌,
}
use signet_clients.Runtime.{
  Text, codes, JsError, JsValue, error, new_error, Outcome, resolved, rejected,
}
use signet_clients.Errors.{as_error}
use signet_clients.Mailbox
use signet_clients.Mailbox.{MailboxItem, value, done, AsyncMailbox, push_value, push_terminal}
use signet_clients.Lock.{Request, Response, LockStream}

-- The item that `recv` awaits, as the outcome of `recv`; `closed` is its text for a closed stream.
pub item_outcome : {T : Type 0} → Text → MailboxItem T → Outcome T
item_outcome closed (value v) = resolved v
item_outcome closed (MailboxItem.error e) = rejected (error e)
item_outcome closed done = rejected (error (new_error closed))

abbrev pub lock_stream_closed : Text
lock_stream_closed = codes "signet: AcquireRestartLock stream closed by server"

abbrev pub watch_stream_closed : Text
watch_stream_closed = codes "signet: WatchServiceBundle stream closed by server"

-- The listeners that both adapters register.
module _ {T : Type 0} where
  pub on_data : T → AsyncMailbox T → AsyncMailbox T
  on_data msg m = push_value m msg

  pub on_error : JsValue → AsyncMailbox T → AsyncMailbox T
  on_error err m = push_terminal m (MailboxItem.error (as_error err))

  pub on_end : AsyncMailbox T → AsyncMailbox T
  on_end m = push_terminal m done

pub data GrpcCall : Type 0 where
  writes : Request → GrpcCall
  ends : GrpcCall

pub record GrpcLockStream : Type 0 where
  pub mailbox : AsyncMailbox Response
  pub send_closed : Bool
  pub calls : List GrpcCall

unfoldable pub lock_stream_from_grpc : GrpcLockStream
lock_stream_from_grpc = record { mailbox = Mailbox.empty; send_closed = false; calls = [] }

abbrev pub send_after_close : JsValue
send_after_close =
    error
      (new_error (codes "signet: cannot send on AcquireRestartLock stream after Release/closeSend"))

unfoldable pub send : Request → GrpcLockStream → GrpcLockStream × Option JsValue
send req g =
    if g.send_closed
    then (g, some send_after_close)
    else (record g { calls = g.calls ++ writes req ∷ [] }, none)

unfoldable pub close_send : GrpcLockStream → GrpcLockStream × Option JsValue
close_send g =
    if g.send_closed
    then (g, none)
    else (record g { send_closed = true; calls = g.calls ++ ends ∷ [] }, none)

-- The adapter as the stream of a lock.
abbrev pub grpc_lock_stream : LockStream GrpcLockStream
grpc_lock_stream = record { send = send; close_send = close_send }

-- What the lock and the grpc-js stream do to the adapter.
pub data Op : Type 0 where
  sends : Request → Op
  closes : Op
  data_comes : Response → Op
  error_comes : JsValue → Op
  end_comes : Op
  recvs : Op

pub step : GrpcLockStream → Op → GrpcLockStream
unfolding send close_send on_data on_error on_end
step g (sends req) = (send req g).0
step g closes = (close_send g).0
step g (data_comes msg) = record g { mailbox = on_data msg g.mailbox }
step g (error_comes err) = record g { mailbox = on_error err g.mailbox }
step g end_comes = record g { mailbox = on_end g.mailbox }
step g recvs = record g { mailbox = Mailbox.next g.mailbox }

pub run : GrpcLockStream → List Op → GrpcLockStream
run g [] = g
run g (op ∷ ops) = run (step g op) ops

-- `watchStreamFromGrpc`: a mailbox with the same listeners.
pub watch_stream_from_grpc : {T : Type 0} → AsyncMailbox T
watch_stream_from_grpc = Mailbox.empty

-- What `recv` number `i` of an adapter has settled to.
pub recv_outcome : {T : Type 0} → Text → Option (MailboxItem T) → Option (Outcome T)
recv_outcome closed none = none
recv_outcome closed (some item) = some (item_outcome closed item)
