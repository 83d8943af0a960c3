-- ===== src/WatchBundle.antt =====
-- typescript/src/restart.ts: the dial of watchBundle, which ties the signal to the grpc-js stream.
-- runWatchLoop calls it as its `open`.
pub mod Cancelling
pub mod Tests
use signet_clients.Prelude.{ℕ, suc, Bool, true, false, List, [], ◌∷◌, if◌then◌else◌}
use signet_clients.Runtime.{
  JsValue, Outcome, resolved, rejected, Signal, no_abort, live, aborted, abort_signal,
}
use signet_clients.Mailbox.{AsyncMailbox}
use signet_clients.Streams.{watch_stream_from_grpc}

-- `cancels` counts the calls of `grpcStream.cancel()`; `listening`: the abort listener of the dial
-- is registered.
pub record Dialled (T : Type 0) : Type 0 where
  pub mailbox : AsyncMailbox T
  pub cancels : ℕ
  pub listening : Bool

module _ {T : Type 0} where
  -- With the stream that `client.watchServiceBundle` has returned.
  pub tie_signal : Signal → Dialled T
  tie_signal no_abort = record { mailbox = watch_stream_from_grpc; cancels = 0; listening = false }
  tie_signal live = record { mailbox = watch_stream_from_grpc; cancels = 0; listening = true }
  tie_signal (aborted reason) = record {
    mailbox = watch_stream_from_grpc;
    cancels = 1;
    listening = false;
  }

  -- The argument is how the call of `client.watchServiceBundle` ends.
  pub open_watch : Signal → Outcome (Unit {0}) → Outcome (Dialled T)
  unfolding tie_signal
  open_watch signal (resolved stream) = resolved (tie_signal signal)
  open_watch signal (rejected e) = rejected e

  -- The abort listener, registered with `once`.
  pub on_signal : Dialled T → Dialled T
  on_signal d = if d.listening then record d { cancels = suc d.cancels; listening = false } else d

  -- The environment's calls of `controller.abort`, of which the first fires the signal.
  fire : Signal → Dialled T → Dialled T
  unfolding on_signal
  fire no_abort d = d
  fire live d = on_signal d
  fire (aborted first) d = d

  pub run_aborts : Signal × Dialled T → List JsValue → Signal × Dialled T
  unfolding fire
  run_aborts (signal, d) [] = (signal, d)
  run_aborts (signal, d) (reason ∷ reasons) =
      run_aborts (abort_signal reason signal, fire signal d) reasons
