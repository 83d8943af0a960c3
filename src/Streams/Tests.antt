-- ===== src/Streams/Tests.antt =====
-- Runs of the adapter over a grpc-js stream.
use signet_clients.Prelude.{◌≡◌, List, [], ◌∷◌, none, false}
use signet_clients.Runtime.{codes}
use signet_clients.Mailbox.History.{reply, history, start}
use signet_clients.Lock.{Request, acquired, Response}
use signet_clients.Streams.{
  lock_stream_from_grpc, Op, sends, closes, data_comes, end_comes, recvs, run, recv_outcome,
  lock_stream_closed,
}
use signet_clients.Streams.Calls.{expected_calls, run-calls}
use signet_clients.Streams.Received.{mailbox_calls, settled, run-recv_outcome}

abbrev ask : Request
ask = record { namespace = codes "n"; service = codes "s"; ttl_seconds = 30; heartbeat = false }

abbrev granted : Response
granted = record { message_type = acquired; token = codes "t"; expires_at = none }

-- A request, a message, a close, and two calls of `recv` around the end of the stream.
abbrev exchange : List Op
exchange =
    sends ask ∷ data_comes granted ∷ recvs ∷ closes ∷ sends ask ∷ recvs ∷ end_comes ∷ closes ∷ []

run-calls_example : (run lock_stream_from_grpc exchange).calls ≡ expected_calls exchange
run-calls_example = run-calls exchange

run-recv_outcome_example :
    recv_outcome lock_stream_closed ((run lock_stream_from_grpc exchange).mailbox.promises 1)
    ≡ settled (reply (history start (mailbox_calls exchange)) 1)
run-recv_outcome_example = run-recv_outcome exchange 1
