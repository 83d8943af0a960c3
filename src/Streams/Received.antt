-- ===== src/Streams/Received.antt =====
-- What `recv` of an adapter gives, in terms of the events of its grpc-js stream.
use signet_clients.Prelude.{ℕ, ◌≡◌, refl, ap, ◌∙◌, List, [], ◌∷◌, Option, none, some, if_cases}
use signet_clients.Runtime.{codes, JsValue, error, new_error, Outcome, resolved, rejected}
use signet_clients.Errors.{as_error}
use signet_clients.Mailbox
use signet_clients.Mailbox.{MailboxItem, done, AsyncMailbox, push_value, push_terminal, next}
use signet_clients.Mailbox.History.{reply, history, start}
use signet_clients.Mailbox.Replies.{run-replies}
use signet_clients.Lock.{Request, Response}
use signet_clients.Streams.{
  recv_outcome, item_outcome, lock_stream_closed, GrpcLockStream, lock_stream_from_grpc, send,
  close_send, Op, sends, closes, data_comes, error_comes, end_comes, recvs, step, run,
}

-- The stream's events and the calls of `recv`, as calls of the mailbox.
abbrev pub mailbox_calls : List Op → List (Mailbox.Call Response)
mailbox_calls [] = []
mailbox_calls (sends req ∷ ops) = mailbox_calls ops
mailbox_calls (closes ∷ ops) = mailbox_calls ops
mailbox_calls (data_comes msg ∷ ops) = Mailbox.pushes msg ∷ mailbox_calls ops
mailbox_calls (error_comes err ∷ ops) =
    Mailbox.ends (MailboxItem.error (as_error err)) ∷ mailbox_calls ops
mailbox_calls (end_comes ∷ ops) = Mailbox.ends done ∷ mailbox_calls ops
mailbox_calls (recvs ∷ ops) = Mailbox.asks ∷ mailbox_calls ops

send-mailbox : (g : GrpcLockStream) (req : Request) → (send req g).0.mailbox ≡ g.mailbox
unfolding send
send-mailbox g req =
    if_cases (λ (r : GrpcLockStream × Option JsValue). r.0.mailbox ≡ g.mailbox) g.send_closed
      (λ _. refl) (λ _. refl)

close_send-mailbox : (g : GrpcLockStream) → (close_send g).0.mailbox ≡ g.mailbox
unfolding close_send
close_send-mailbox g =
    if_cases (λ (r : GrpcLockStream × Option JsValue). r.0.mailbox ≡ g.mailbox) g.send_closed
      (λ _. refl) (λ _. refl)

run-mailbox :
    (g : GrpcLockStream) (ops : List Op)
    → (run g ops).mailbox ≡ Mailbox.run g.mailbox (mailbox_calls ops)
unfolding run Mailbox.run step Mailbox.step
run-mailbox g [] = refl
run-mailbox g (sends req ∷ ops) =
    run-mailbox (step g (sends req)) ops
    ∙ ap (λ m. Mailbox.run m (mailbox_calls ops)) (send-mailbox g req)
run-mailbox g (closes ∷ ops) =
    run-mailbox (step g closes) ops
    ∙ ap (λ m. Mailbox.run m (mailbox_calls ops)) (close_send-mailbox g)
run-mailbox g (data_comes msg ∷ ops) = run-mailbox (step g (data_comes msg)) ops
run-mailbox g (error_comes err ∷ ops) = run-mailbox (step g (error_comes err)) ops
run-mailbox g (end_comes ∷ ops) = run-mailbox (step g end_comes) ops
run-mailbox g (recvs ∷ ops) = run-mailbox (step g recvs) ops

-- What a call of `recv` comes to, by what has arrived for it: a message, the stream's error or its
-- end.
abbrev pub settled : Option (MailboxItem Response) → Option (Outcome Response)
settled none = none
settled (some (MailboxItem.value msg)) = some (resolved msg)
settled (some (MailboxItem.error e)) = some (rejected (error e))
settled (some done) =
    some (rejected (error (new_error (codes "signet: AcquireRestartLock stream closed by server"))))

recv_outcome-settled :
    (arrived : Option (MailboxItem Response))
    → recv_outcome lock_stream_closed arrived ≡ settled arrived
unfolding recv_outcome item_outcome
recv_outcome-settled none = refl
recv_outcome-settled (some (MailboxItem.value msg)) = refl
recv_outcome-settled (some (MailboxItem.error e)) = refl
recv_outcome-settled (some done) = refl

-- The i-th call of `recv` resolves to the i-th message that came before the stream ended; once the
-- stream has failed or ended, every call beyond those rejects: with the stream's error, as an Error,
-- if it failed first, and with an error of the text that says that the server closed it, if it ended
-- first. Until then such a call stays pending, as does one that has not been made. Sending and
-- closing do not matter to it.
pub run-recv_outcome :
    (ops : List Op) (i : ℕ)
    → recv_outcome lock_stream_closed ((run lock_stream_from_grpc ops).mailbox.promises i)
      ≡ settled (reply (history start (mailbox_calls ops)) i)
unfolding lock_stream_from_grpc
run-recv_outcome ops i =
    ap (recv_outcome lock_stream_closed) (
      ap (λ (m : AsyncMailbox Response). m.promises i) (run-mailbox lock_stream_from_grpc ops)
      ∙ run-replies (mailbox_calls ops) i)
    ∙ recv_outcome-settled _
