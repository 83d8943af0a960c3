-- ===== src/Mailbox.antt =====
-- typescript/src/async-mailbox.ts: a queue between an event-driven producer and a consumer that
-- awaits. A call of `next` returns the number of a promise; `promises` holds what each has settled
-- to, and `waiters` the promises whose resolve functions are still queued.
pub mod History
pub mod Deliver
pub mod Requests
pub mod Replies
pub mod Tests
use signet_clients.Prelude.{ℕ, ◌+◌, suc, List, [], ◌∷◌, ◌++◌, Option, none, some}
use signet_clients.Runtime.{JsError, Promises, no_promises, settle, settle_all}

pub data MailboxItem {ℓ} (T : Type ℓ) : Type ℓ where
  value : T → MailboxItem T
  error : JsError → MailboxItem T
  done : MailboxItem T

pub record AsyncMailbox {ℓ} (T : Type ℓ) : Type ℓ where
  pub buffered : List T
  pub waiters : List ℕ
  pub terminal : Option (MailboxItem T)
  -- How many promises `next` has handed out.
  pub asked : ℕ
  pub promises : Promises (MailboxItem T)

module _ {ℓ} {T : Type ℓ} where
  unfoldable pub empty : AsyncMailbox T
  empty = record { buffered = []; waiters = []; terminal = none; asked = 0; promises = no_promises }

  -- `const waiter = waiters.shift(); if (waiter) waiter(item) else buffered.push(value)`.
  hand_over : AsyncMailbox T → List ℕ → T → AsyncMailbox T
  hand_over m [] v = record m { buffered = m.buffered ++ v ∷ [] }
  hand_over m (w ∷ ws) v = record m { waiters = ws; promises = settle w (value v) m.promises }

  push_open : AsyncMailbox T → Option (MailboxItem T) → T → AsyncMailbox T
  unfolding hand_over
  push_open m (some _) v = m
  push_open m none v = hand_over m m.waiters v

  pub push_value : AsyncMailbox T → T → AsyncMailbox T
  unfolding push_open
  push_value m v = push_open m m.terminal v

  end_open : AsyncMailbox T → Option (MailboxItem T) → MailboxItem T → AsyncMailbox T
  end_open m (some _) item = m
  end_open m none item = record m {
    terminal = some item;
    waiters = [];
    promises = settle_all m.waiters item m.promises;
  }

  pub push_terminal : AsyncMailbox T → MailboxItem T → AsyncMailbox T
  unfolding end_open
  push_terminal m item = end_open m m.terminal item

  -- A new promise, settled with `item` at once.
  answer_now : AsyncMailbox T → MailboxItem T → AsyncMailbox T
  answer_now m item = record m { asked = suc m.asked; promises = settle m.asked item m.promises }

  next_empty : AsyncMailbox T → Option (MailboxItem T) → AsyncMailbox T
  unfolding answer_now
  next_empty m (some item) = answer_now m item
  next_empty m none = record m { asked = suc m.asked; waiters = m.waiters ++ m.asked ∷ [] }

  next_from : AsyncMailbox T → List T → AsyncMailbox T
  unfolding answer_now next_empty
  next_from m [] = next_empty m m.terminal
  next_from m (v ∷ vs) = answer_now (record m { buffered = vs }) (value v)

  -- The promise handed out is number `m.asked`.
  pub next : AsyncMailbox T → AsyncMailbox T
  unfolding next_from
  next m = next_from m m.buffered

-- What the producer and the consumer do.
pub data Call {ℓ} (T : Type ℓ) : Type ℓ where
  pushes : T → Call T
  ends : MailboxItem T → Call T
  asks : Call T

module _ {ℓ} {T : Type ℓ} where
  unfoldable pub step : AsyncMailbox T → Call T → AsyncMailbox T
  unfolding push_value push_terminal next
  step m (pushes v) = push_value m v
  step m (ends item) = push_terminal m item
  step m asks = next m

  unfoldable pub run : AsyncMailbox T → List (Call T) → AsyncMailbox T
  run m [] = m
  run m (c ∷ cs) = run (step m c) cs
