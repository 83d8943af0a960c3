-- ===== src/Mailbox/History.antt =====
-- What a mailbox promises: the n-th call of `next` is answered by the n-th value that arrived
-- before the end of the stream, and every call beyond those by the terminal item.
use signet_clients.Prelude.{
  ℕ, suc, ◌-◌, ◌≡◌, if◌then◌else◌, ltb, List, [], ◌∷◌, ◌++◌, Option, none, some, length, drop,
  get_elem?, range_from, ap, ◌∙◌,
}
use signet_clients.Mailbox.{MailboxItem, value, AsyncMailbox, Call, pushes, ends, asks}

-- The whole stream so far: the values that count, how it ended, and the number of requests.
pub record Stream (T : Type 0) : Type 0 where
  pub values : List T
  pub ended : Option (MailboxItem T)
  pub requests : ℕ

module _ {T : Type 0} where
  abbrev pub reply_beyond : Option T → Option (MailboxItem T) → Option (MailboxItem T)
  reply_beyond (some v) ended = some (value v)
  reply_beyond none ended = ended

  -- What request `i` has been answered by now.
  abbrev pub reply : Stream T → ℕ → Option (MailboxItem T)
  reply s i = if ltb i s.requests then reply_beyond (get_elem? s.values i) s.ended else none

  abbrev pub record_value : Stream T → Option (MailboxItem T) → T → Stream T
  record_value s none v = record s { values = s.values ++ v ∷ [] }
  record_value s (some _) v = s

  abbrev pub record_end : Stream T → Option (MailboxItem T) → MailboxItem T → Stream T
  record_end s none item = record s { ended = some item }
  record_end s (some _) item = s

  abbrev pub observe : Stream T → Call T → Stream T
  observe s (pushes v) = record_value s s.ended v
  observe s (ends item) = record_end s s.ended item
  observe s asks = record s { requests = suc s.requests }

  abbrev pub history : Stream T → List (Call T) → Stream T
  history s [] = s
  history s (c ∷ cs) = history (observe s c) cs

  abbrev pub start : Stream T
  start = record { values = []; ended = none; requests = 0 }

  -- The requests that no value has reached.
  abbrev pub unanswered : Stream T → Option (MailboxItem T) → List ℕ
  unanswered s none = range_from (length s.values) (s.requests - length s.values)
  unanswered s (some _) = []

  pub record Refines (m : AsyncMailbox T) (s : Stream T) : Type 0 where
    pub same_requests : m.asked ≡ s.requests
    pub same_end : m.terminal ≡ s.ended
    pub kept : m.buffered ≡ drop s.requests s.values
    pub waiting : m.waiters ≡ unanswered s s.ended
    pub replies : (i : ℕ) → m.promises i ≡ reply s i

module _ {T : Type 0} (m : AsyncMailbox T) (s : Stream T) (r : Refines m s) where
  pub waiters_open :
      s.ended ≡ none → m.waiters ≡ range_from (length s.values) (s.requests - length s.values)
  waiters_open e = r.waiting ∙ ap (unanswered s) e
