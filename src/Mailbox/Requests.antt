-- ===== src/Mailbox/Requests.antt =====
-- The consumer's call of `next` keeps a mailbox in step with its history.
use signet_clients.Prelude.{
  ℕ, suc, ◌+◌, ◌-◌, ◌≤◌, ◌<◌, ◌≡◌, refl, inl, inr, ◌==◌, Bool-cases, List, [], ◌∷◌, ◌++◌, Option,
  none, some, arith, length, range_from, drop_all, drop-cons, drop-nil, get_elem?_above,
  range_from-snoc, sym, ap, ◌∙◌, subst, ap₂, ==_iff,
}
use signet_clients.Runtime.{settle, settle-at, settle-other}
use signet_clients.Mailbox.{
  MailboxItem, value, AsyncMailbox, answer_now, next_empty, next_from, next,
}
use signet_clients.Mailbox.History.{Stream, reply, unanswered, Refines, waiters_open}

module _ {T : Type 0} (m : AsyncMailbox T) (s : Stream T) (r : Refines m s) where
  abbrev one_more : Stream T
  one_more = record s { requests = suc s.requests }

  nothing_kept : m.buffered ≡ [] → length s.values ≤ s.requests
  nothing_kept b = drop-nil s.requests s.values (sym r.kept ∙ b)

  fresh_pending : m.promises m.asked ≡ none
  fresh_pending = r.replies m.asked ∙ ground (arith, r.same_requests)

  -- A promise settled at once with what the new request should get.
  answer_reply :
      (item : MailboxItem T)
      → reply one_more s.requests ≡ some item
      → (i : ℕ) → settle m.asked item m.promises i ≡ reply one_more i
  answer_reply item h i = elim (Bool-cases (i == m.asked)) [
    | inl same ↦
        let at_asked = (==_iff i m.asked).0 same in
        rw at_asked (
          settle-at m.asked item m.promises fresh_pending
          ∙ sym (ap (reply one_more) r.same_requests ∙ h))
    | inr other ↦
        settle-other m.asked i item m.promises (ground arith)
        ∙ ground (arith, r.replies i, r.same_requests)
  ]

  queue_up :
      s.ended ≡ none
      → length s.values ≤ s.requests
      → m.waiters ++ m.asked ∷ [] ≡ unanswered one_more s.ended
  queue_up e caught_up =
      let behind = s.requests - length s.values in
      let last : m.asked ≡ length s.values + behind = omega (arith, r.same_requests) in
      let longer : suc s.requests - length s.values ≡ suc behind = omega arith in
      ap₂ (λ ws w. ws ++ w ∷ []) (waiters_open m s r e) last
      ∙ sym (range_from-snoc (length s.values) behind)
      ∙ sym (ap (unanswered one_more) e ∙ ap (range_from (length s.values)) longer)

  next_empty-Refines :
      (end : Option (MailboxItem T))
      → m.buffered ≡ []
      → s.ended ≡ end
      → Refines (next_empty m end) one_more
  unfolding next_empty answer_now
  next_empty-Refines (some item) b e = record {
    same_requests = ap suc r.same_requests;
    same_end = r.same_end;
    kept = b ∙ sym (drop_all (suc s.requests) s.values (omega (arith, nothing_kept b)));
    waiting = r.waiting ∙ ap (unanswered s) e ∙ sym (ap (unanswered one_more) e);
    replies =
        answer_reply item (ground (arith, e, get_elem?_above s.values s.requests (nothing_kept b)));
  }
  next_empty-Refines none b e = record {
    same_requests = ap suc r.same_requests;
    same_end = r.same_end;
    kept = b ∙ sym (drop_all (suc s.requests) s.values (omega (arith, nothing_kept b)));
    waiting = queue_up e (nothing_kept b);
    replies = λ i. ground (arith, e, r.replies i, get_elem?_above s.values i, nothing_kept b);
  }

  next_buffered-Refines :
      (v : T) (vs : List T)
      → m.buffered ≡ v ∷ vs
      → Refines (answer_now (record m { buffered = vs }) (value v)) one_more
  unfolding answer_now
  next_buffered-Refines v vs b =
      let (first, rest, below) = drop-cons s.requests s.values (sym r.kept ∙ b) in
      record {
        same_requests = ap suc r.same_requests;
        same_end = r.same_end;
        kept = sym rest;
        waiting = r.waiting ∙ nobody below s.ended;
        replies = answer_reply (value v) (ground (arith, first));
      }
    where
      nobody :
          s.requests < length s.values
          → (end : Option (MailboxItem T)) → unanswered s end ≡ unanswered one_more end
      nobody below (some _) = refl
      nobody below none = ap (range_from (length s.values)) (omega arith)

  next_from-Refines :
      (buffered : List T) → m.buffered ≡ buffered → Refines (next_from m buffered) one_more
  unfolding next_from
  next_from-Refines [] b =
      subst (λ end. Refines (next_empty m end) one_more) (sym r.same_end)
        (next_empty-Refines s.ended b refl)
  next_from-Refines (v ∷ vs) b = next_buffered-Refines v vs b

  pub next-Refines : Refines (next m) one_more
  unfolding next
  next-Refines = next_from-Refines m.buffered refl
