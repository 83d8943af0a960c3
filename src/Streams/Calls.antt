-- ===== src/Streams/Calls.antt =====
-- What the adapter calls on the grpc-js stream.
use signet_clients.Prelude.{
  ◌≡◌, refl, ap, ◌∙◌, true, false, List, [], ◌∷◌, ◌++◌, append_assoc, append-nil, if_cases,
  else_branch, sym, Option,
}
use signet_clients.Runtime.{JsValue}
use signet_clients.Lock.{Request}
use signet_clients.Streams.{
  GrpcCall, writes, ends, GrpcLockStream, lock_stream_from_grpc, send, close_send, Op, sends,
  closes, data_comes, error_comes, end_comes, recvs, step, run,
}

-- The requests sent before the first close, then one `end`, if there was a close.
abbrev pub expected_calls : List Op → List GrpcCall
expected_calls [] = []
expected_calls (sends req ∷ ops) = writes req ∷ expected_calls ops
expected_calls (closes ∷ ops) = ends ∷ []
expected_calls (data_comes msg ∷ ops) = expected_calls ops
expected_calls (error_comes err ∷ ops) = expected_calls ops
expected_calls (end_comes ∷ ops) = expected_calls ops
expected_calls (recvs ∷ ops) = expected_calls ops

module _ (g : GrpcLockStream) where
  sends_closed : (req : Request) → g.send_closed ≡ true → step g (sends req) ≡ g
  unfolding step
  sends_closed req h =
      if_cases (λ (r : GrpcLockStream × Option JsValue). r.0 ≡ g) g.send_closed (λ _. refl)
        (λ o. absurd (cc (h, o)))

  closes_closed : g.send_closed ≡ true → step g closes ≡ g
  unfolding step
  closes_closed h =
      if_cases (λ (r : GrpcLockStream × Option JsValue). r.0 ≡ g) g.send_closed (λ _. refl)
        (λ o. absurd (cc (h, o)))

  sends_open :
      (req : Request)
      → g.send_closed ≡ false
      → step g (sends req) ≡ record g { calls = g.calls ++ writes req ∷ [] }
  unfolding step send
  sends_open req h =
      ap (λ (r : GrpcLockStream × Option JsValue). r.0) (else_branch g.send_closed _ _ h)

  closes_open :
      g.send_closed ≡ false
      → step g closes ≡ record g { send_closed = true; calls = g.calls ++ ends ∷ [] }
  unfolding step close_send
  closes_open h =
      ap (λ (r : GrpcLockStream × Option JsValue). r.0) (else_branch g.send_closed _ _ h)

closed-run :
    (g : GrpcLockStream) (ops : List Op) → g.send_closed ≡ true → (run g ops).calls ≡ g.calls
unfolding run step
closed-run g [] h = refl
closed-run g (sends req ∷ ops) h =
    ap (λ (k : GrpcLockStream). (run k ops).calls) (sends_closed g req h) ∙ closed-run g ops h
closed-run g (closes ∷ ops) h =
    ap (λ (k : GrpcLockStream). (run k ops).calls) (closes_closed g h) ∙ closed-run g ops h
closed-run g (data_comes msg ∷ ops) h = closed-run (step g (data_comes msg)) ops h
closed-run g (error_comes err ∷ ops) h = closed-run (step g (error_comes err)) ops h
closed-run g (end_comes ∷ ops) h = closed-run (step g end_comes) ops h
closed-run g (recvs ∷ ops) h = closed-run (step g recvs) ops h

open-run :
    (g : GrpcLockStream) (ops : List Op)
    → g.send_closed ≡ false
    → (run g ops).calls ≡ g.calls ++ expected_calls ops
unfolding run step
open-run g [] h = sym (append-nil g.calls)
open-run g (sends req ∷ ops) h =
    ap (λ (k : GrpcLockStream). (run k ops).calls) (sends_open g req h)
    ∙ open-run (record g { calls = g.calls ++ writes req ∷ [] }) ops h
    ∙ append_assoc g.calls (writes req ∷ []) (expected_calls ops)
open-run g (closes ∷ ops) h =
    ap (λ (k : GrpcLockStream). (run k ops).calls) (closes_open g h)
    ∙ closed-run (record g { send_closed = true; calls = g.calls ++ ends ∷ [] }) ops refl
open-run g (data_comes msg ∷ ops) h = open-run (step g (data_comes msg)) ops h
open-run g (error_comes err ∷ ops) h = open-run (step g (error_comes err)) ops h
open-run g (end_comes ∷ ops) h = open-run (step g end_comes) ops h
open-run g (recvs ∷ ops) h = open-run (step g recvs) ops h

-- Whatever is sent, closed and received, and in any order, the adapter writes the requests sent
-- before the first close, in their order, and ends the stream once, at the first close; after
-- that it never touches the stream again.
pub run-calls : (ops : List Op) → (run lock_stream_from_grpc ops).calls ≡ expected_calls ops
unfolding lock_stream_from_grpc
run-calls ops = open-run lock_stream_from_grpc ops refl
