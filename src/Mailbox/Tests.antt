-- ===== src/Mailbox/Tests.antt =====
-- Runs of the mailbox on short sequences of calls.
use signet_clients.Prelude.{ℕ, ◌≡◌, refl, List, [], ◌∷◌, some}
use signet_clients.Runtime.{settle, settle_all}
use signet_clients.Mailbox.{value, done, empty, Call, pushes, ends, asks, step, run}
use signet_clients.Mailbox.Replies.{run-replies}

-- One request waits, one value comes early, and the stream ends before the third request.
abbrev short_stream : List (Call ℕ)
short_stream = asks ∷ pushes 7 ∷ pushes 8 ∷ ends done ∷ pushes 9 ∷ asks ∷ asks ∷ []

first_waiter_served : (run empty short_stream).promises 0 ≡ some (value 7)
unfolding empty run step settle settle_all
first_waiter_served = refl

run-replies_example : (run empty short_stream).promises 2 ≡ some done
run-replies_example = run-replies short_stream 2
