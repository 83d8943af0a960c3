-- ===== src/Mailbox/Deliver.antt =====
-- The producer's calls keep a mailbox in step with its history.
use signet_clients.Prelude.{
  ℕ, suc, ◌+◌, ◌-◌, ◌≤◌, ◌<◌, ◌≡◌, refl, inl, inr, if◌then◌else◌, ltb, leb, ◌==◌, ◌&&◌, Bool-cases,
  List, [], ◌∷◌, ◌++◌, Option, none, some, arith, length, range_from, length-append, drop-append_le,
  drop_all, get_elem?_above, get_elem?-append_left, get_elem?-append_at, sym, ap, ◌∙◌, subst,
  ltb→lt, get_elem?_below, true, false, ◌⊎◌, range_from-nil, range_from-cons, ==_iff,
}
use signet_clients.Runtime.{settle, settle_all, settle-at, settle-other, settle_all-range}
use signet_clients.Mailbox.{
  MailboxItem, value, AsyncMailbox, hand_over, push_open, push_value, end_open, push_terminal,
}
use signet_clients.Mailbox.History.{
  Stream, reply, record_value, record_end, unanswered, Refines, waiters_open,
}

module _ {T : Type 0} (m : AsyncMailbox T) (s : Stream T) (r : Refines m s) where
  -- Nobody waits: the value is buffered.
  buffer-Refines :
      (v : T) → m.waiters ≡ [] → s.ended ≡ none → Refines (hand_over m [] v) (record_value s none v)
  unfolding hand_over
  buffer-Refines v no_one e =
      let caught_up : s.requests ≤ length s.values =
        omega (arith, range_from-nil _ _ (sym (waiters_open m s r e) ∙ no_one)) in
      let none_left : s.requests - length (s.values ++ v ∷ []) ≡ 0 =
        omega (arith, caught_up, length-append s.values (v ∷ [])) in
      record {
        same_requests = r.same_requests;
        same_end = r.same_end;
        kept =
            rw (drop-append_le s.requests s.values (v ∷ []) caught_up)
              (ap (λ b. b ++ v ∷ []) r.kept);
        waiting =
            no_one ∙ sym (ap (unanswered (record_value s none v)) e ∙ ap (range_from _) none_left);
        replies =
            λ i. ground (arith, r.replies i, caught_up, get_elem?-append_left s.values (v ∷ []) i);
      }

  serve_reply :
      (v : T) (w : ℕ)
      → w ≡ length s.values
      → length s.values < s.requests
      → s.ended ≡ none
      → (i : ℕ) → settle w (value v) m.promises i ≡ reply (record_value s none v) i
  serve_reply v w first behind e i =
      let pending : m.promises w ≡ none =
        ground (arith, r.replies w, get_elem?_above s.values w, first, behind, e) in
      elim (Bool-cases (i == w)) [
        | inl same ↦ rw ((==_iff i w).0 same) (
            settle-at w (value v) m.promises pending
            ∙ ground (arith, get_elem?-append_at s.values v w))
        | inr other ↦
            settle-other w i (value v) m.promises (ground arith)
            ∙ r.replies i
            ∙ ground (
              arith,
              get_elem?-append_left s.values (v ∷ []) i,
              get_elem?_above s.values i,
              get_elem?_above (s.values ++ v ∷ []) i,
              length-append s.values (v ∷ []),
            )
      ]

  -- The longest waiter takes the value.
  serve-Refines :
      (v : T) (w : ℕ) (ws : List ℕ)
      → m.waiters ≡ w ∷ ws
      → s.ended ≡ none
      → Refines (hand_over m (w ∷ ws) v) (record_value s none v)
  unfolding hand_over
  serve-Refines v w ws some_one e =
      let (first, behind, rest) =
        range_from-cons _ _ w ws (sym (waiters_open m s r e) ∙ some_one) in
      let grown : length (s.values ++ v ∷ []) ≡ suc (length s.values) =
        omega (arith, length-append s.values (v ∷ [])) in
      record {
        same_requests = r.same_requests;
        same_end = r.same_end;
        kept =
            r.kept
            ∙ drop_all s.requests s.values (omega arith)
            ∙ sym (drop_all s.requests (s.values ++ v ∷ []) (omega arith));
        waiting =
            rest
            ∙ sym (
                ap (unanswered (record_value s none v)) e
                ∙ rw grown (ap (range_from _) (omega arith)));
        replies = serve_reply v w first (omega arith) e;
      }

  hand_over-Refines :
      (v : T) (ws : List ℕ)
      → m.waiters ≡ ws
      → s.ended ≡ none
      → Refines (hand_over m ws v) (record_value s none v)
  hand_over-Refines v [] w e = buffer-Refines v w e
  hand_over-Refines v (w ∷ ws) h e = serve-Refines v w ws h e

  push_open-Refines :
      (v : T) (end : Option (MailboxItem T))
      → s.ended ≡ end
      → Refines (push_open m end v) (record_value s end v)
  unfolding push_open
  push_open-Refines v none e = hand_over-Refines v m.waiters refl e
  push_open-Refines v (some item) e = r

  pub push_value-Refines : (v : T) → Refines (push_value m v) (record_value s s.ended v)
  unfolding push_value
  push_value-Refines v =
      subst (λ end. Refines (push_open m end v) (record_value s s.ended v)) (sym r.same_end)
        (push_open-Refines v s.ended refl)

  beyond_pending : s.ended ≡ none → (i : ℕ) → length s.values ≤ i → m.promises i ≡ none
  beyond_pending e i above = ground (arith, r.replies i, get_elem?_above s.values i)

  end_reply :
      (item : MailboxItem T)
      → s.ended ≡ none
      → (i : ℕ) → settle_all m.waiters item m.promises i ≡ reply (record_end s none item) i
  end_reply item e i = rw (waiters_open m s r e) (
      settle_all-range (length s.values) (s.requests - length s.values) item m.promises i
        (λ j above _. beyond_pending e j above)
      ∙ ended_reply (Bool-cases (ltb i (length s.values))))
    where
      ended_reply :
          (ltb i (length s.values) ≡ true) ⊎ (ltb i (length s.values) ≡ false)
          → (if leb (length s.values) i && ltb i (length s.values + (s.requests - length s.values))
              then some item
              else m.promises i)
            ≡ reply (record_end s none item) i
      ended_reply (inl below) =
          let (v, at_i) = get_elem?_below s.values i (ltb→lt _ _ below) in
          ground (arith, r.replies i, at_i)
      ended_reply (inr above) = ground (arith, r.replies i, get_elem?_above s.values i)

  -- The end of the stream answers everyone who waits.
  end_open-Refines :
      (item : MailboxItem T) (end : Option (MailboxItem T))
      → s.ended ≡ end
      → Refines (end_open m end item) (record_end s end item)
  unfolding end_open
  end_open-Refines item (some _) e = r
  end_open-Refines item none e = record {
    same_requests = r.same_requests;
    same_end = refl;
    kept = r.kept;
    waiting = refl;
    replies = end_reply item e;
  }

  pub push_terminal-Refines :
      (item : MailboxItem T) → Refines (push_terminal m item) (record_end s s.ended item)
  unfolding push_terminal
  push_terminal-Refines item =
      subst (λ end. Refines (end_open m end item) (record_end s s.ended item)) (sym r.same_end)
        (end_open-Refines item s.ended refl)
