-- ===== src/LockSession/Validity.antt =====
-- The invariant of a lock session, and that each method of the lock keeps it.
use signet_clients.Prelude.{
  ℕ, ◌≡◌, refl, sym, subst, ◌⊎◌, inl, inr, Bool, true, false, not, Option, none, some, List, [],
  ◌∷◌, arith,
}
use signet_clients.Runtime.{Text, JsError, JsValue, Outcome, resolved, rejected}
use signet_clients.Errors.{Race, on_abort, on_settle}
use signet_clients.Timestamp.{Date}
use signet_clients.Lock.{
  Lock, set_acquired, update_expiry, report_lost, finish_recv_loop, start_heartbeat, stop_heartbeat,
}
use signet_clients.LockSession.{Call, awaiting, returned, failed, Session, settle_call, abort_call}

abbrev pub is_resolved : Option (Outcome (Unit {0})) → Bool
is_resolved none = false
is_resolved (some (resolved _)) = true
is_resolved (some (rejected e)) = false

-- The call succeeds only once ACQUIRED has come.
abbrev pub CallIsHeld : Bool → Call → Type 0
CallIsHeld got (awaiting r) = (is_resolved r.result ≡ false) ⊎ (got ≡ true)
CallIsHeld got returned = got ≡ true
CallIsHeld got (failed e) = Unit {0}

abbrev pub events_of : Option JsError → List JsError
events_of none = []
events_of (some e) = e ∷ []

abbrev pub is_some {ℓ} : {A : Type ℓ} → Option A → Bool
is_some none = false
is_some (some a) = true

-- `got` and `receiving` are those of the session.
pub record LockIsValid (got receiving : Bool) (k : Lock) : Type 0 where
  -- The timer runs only while the lock is held and not released.
  pub timed : (k.heartbeat_timer ≡ none) ⊎ ((got ≡ true) × (k.released ≡ false))
  pub held : (k.released ≡ false) ⊎ (got ≡ true)
  -- The promise `lost` and the 'lost' event agree: both at most once, with one error.
  pub announced : k.emitted ≡ events_of k.lost
  pub flagged : k.lost_reported ≡ is_some k.lost
  pub losable : (k.lost ≡ none) ⊎ (got ≡ true)
  pub exited : k.recv_done ≡ not receiving

module _ {S : Type 0} where
  pub record IsValid (s : Session S) : Type 0 where
    pub lock_valid : LockIsValid s.got_acquired s.receiving s.lock
    pub call_held : CallIsHeld s.got_acquired s.call

report_lost-IsValid :
    (e : JsError) (k : Lock) (receiving : Bool)
    → LockIsValid true receiving k
    → LockIsValid true receiving (report_lost e k)
unfolding report_lost
report_lost-IsValid e k receiving v = ground arith

pub report_lost-IsValid' :
    {got receiving : Bool} (e : JsError) (k : Lock)
    → got ≡ true
    → LockIsValid got receiving k
    → LockIsValid got receiving (report_lost e k)
report_lost-IsValid' {receiving} e k held v =
    subst (λ g. LockIsValid g receiving (report_lost e k)) (sym held)
      (report_lost-IsValid e k receiving (subst (λ g. LockIsValid g receiving k) held v))

pub settle_call-IsHeld :
    (o : Outcome (Unit {0})) (got : Bool) (c : Call)
    → CallIsHeld got c
    → CallIsHeld true (settle_call o c)
settle_call-IsHeld o got (awaiting r) h = inr refl
settle_call-IsHeld o got returned h = refl
settle_call-IsHeld o got (failed e) h = tt

-- The lock's other methods, one by one.
pub set_acquired-IsValid :
    (t : Text) (at : Option Date) (got receiving : Bool) (k : Lock)
    → LockIsValid got receiving k
    → LockIsValid got receiving (set_acquired t at k)
unfolding set_acquired
set_acquired-IsValid t at got receiving k v = record {
  timed = v.timed;
  held = v.held;
  announced = v.announced;
  flagged = v.flagged;
  losable = v.losable;
  exited = v.exited;
}

pub update_expiry-IsValid :
    (at : Option Date) (got receiving : Bool) (k : Lock)
    → LockIsValid got receiving k
    → LockIsValid got receiving (update_expiry at k)
unfolding update_expiry
update_expiry-IsValid none got receiving k v = v
update_expiry-IsValid (some t) got receiving k v = record {
  timed = v.timed;
  held = v.held;
  announced = v.announced;
  flagged = v.flagged;
  losable = v.losable;
  exited = v.exited;
}

pub start_heartbeat-IsValid :
    (ms : ℕ) (receiving : Bool) (k : Lock)
    → LockIsValid false receiving k
    → LockIsValid true receiving (start_heartbeat ms k)
unfolding start_heartbeat
start_heartbeat-IsValid ms receiving k v = ground arith

pub finish_recv_loop-IsValid :
    (got receiving : Bool) (k : Lock)
    → LockIsValid got receiving k
    → LockIsValid got false (finish_recv_loop k)
unfolding finish_recv_loop
finish_recv_loop-IsValid got receiving k v = record {
  timed = v.timed;
  held = v.held;
  announced = v.announced;
  flagged = v.flagged;
  losable = v.losable;
  exited = refl;
}

pub stop_heartbeat-IsValid :
    (got receiving : Bool) (k : Lock)
    → LockIsValid got receiving k
    → LockIsValid got receiving (stop_heartbeat k)
unfolding stop_heartbeat
stop_heartbeat-IsValid got receiving k v = record {
  timed = inl refl;
  held = v.held;
  announced = v.announced;
  flagged = v.flagged;
  losable = v.losable;
  exited = v.exited;
}

release-IsValid :
    (receiving : Bool) (k : Lock)
    → LockIsValid true receiving k
    → LockIsValid true receiving (stop_heartbeat (record k { released = true }))
unfolding stop_heartbeat
release-IsValid receiving k v = record {
  timed = inl refl;
  held = inr refl;
  announced = v.announced;
  flagged = v.flagged;
  losable = v.losable;
  exited = v.exited;
}

pub release-IsValid' :
    {got receiving : Bool} (k : Lock)
    → got ≡ true
    → LockIsValid got receiving k
    → LockIsValid got receiving (stop_heartbeat (record k { released = true }))
release-IsValid' {receiving} k held v =
    subst (λ g. LockIsValid g receiving (stop_heartbeat (record k { released = true }))) (sym held)
      (release-IsValid receiving k (subst (λ g. LockIsValid g receiving k) held v))

pub resolved_held :
    (got : Bool) (r : Race (Unit {0})) {x : Unit {0}}
    → r.result ≡ some (resolved x)
    → CallIsHeld got (awaiting r)
    → got ≡ true
resolved_held got r e h = ground arith

pub timer_held :
    (got receiving : Bool) (k : Lock) (interval : ℕ)
    → LockIsValid got receiving k
    → k.heartbeat_timer ≡ some interval
    → got ≡ true
timer_held got receiving k interval v e = ground arith

pub settle_call_rejected :
    (e : JsValue) (c : Call) → CallIsHeld false c → CallIsHeld false (settle_call (rejected e) c)
unfolding on_settle
settle_call_rejected e (awaiting r) h = ground arith
settle_call_rejected e returned h = h
settle_call_rejected e (failed e') h = tt

pub abort_call-IsHeld : (got : Bool) (c : Call) → CallIsHeld got c → CallIsHeld got (abort_call c)
unfolding abort_call on_abort
abort_call-IsHeld got (awaiting r) h = ground arith
abort_call-IsHeld got returned h = h
abort_call-IsHeld got (failed e) h = tt
