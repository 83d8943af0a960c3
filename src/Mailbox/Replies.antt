-- ===== src/Mailbox/Replies.antt =====
-- Any sequence of calls on a fresh mailbox, by induction on the calls.
use signet_clients.Prelude.{ℕ, ◌≡◌, refl, List, [], ◌∷◌, arith}
use signet_clients.Mailbox.{AsyncMailbox, empty, Call, pushes, ends, asks, step, run}
use signet_clients.Mailbox.History.{Stream, reply, observe, history, start, Refines}
use signet_clients.Mailbox.Deliver.{push_value-Refines, push_terminal-Refines}
use signet_clients.Mailbox.Requests.{next-Refines}

module _ {T : Type 0} where
  step-Refines :
      (m : AsyncMailbox T) (s : Stream T) (c : Call T)
      → Refines m s
      → Refines (step m c) (observe s c)
  unfolding step
  step-Refines m s (pushes v) r = push_value-Refines m s r v
  step-Refines m s (ends item) r = push_terminal-Refines m s r item
  step-Refines m s asks r = next-Refines m s r

  run-Refines :
      (m : AsyncMailbox T) (s : Stream T) (cs : List (Call T))
      → Refines m s
      → Refines (run m cs) (history s cs)
  unfolding run
  run-Refines m s [] r = r
  run-Refines m s (c ∷ cs) r = run-Refines (step m c) (observe s c) cs (step-Refines m s c r)

  empty-Refines : Refines (empty {T = T}) start
  unfolding empty
  empty-Refines = record {
    same_requests = refl;
    same_end = refl;
    kept = refl;
    waiting = refl;
    replies = λ i. ground arith;
  }

  -- After any calls of the producer and the consumer on a fresh mailbox, in any order: the promise
  -- of the i-th call of `next` has settled to the i-th value pushed before the end, or, if there
  -- is none, to the terminal item once there is one; promises not handed out have not settled.
  pub run-replies :
      (cs : List (Call T)) (i : ℕ) → (run empty cs).promises i ≡ reply (history start cs) i
  run-replies cs = (run-Refines empty start cs empty-Refines).replies
