-- ===== src/Errors.antt =====
-- typescript/src/errors.ts: errors from thrown values, and the race of a promise against an
-- AbortSignal. A race is a state that the signal's and the promise's callbacks change.
pub mod Races
pub mod Messages
pub mod Tests
use signet_clients.Prelude.{◌++◌, Bool, true, false, Option, none, some, List, [], ◌∷◌}
use signet_clients.Runtime.{
  Text, codes, JsError, JsValue, error, other, NonError, undefined, null, primitive, string, object,
  ErrorClass, abort_race, absent, new_error, Outcome, resolved, rejected, Signal, no_abort, live,
  aborted, or_else,
}

-- `String(v)` of a value that is no Error.
pub string_of : NonError → Text
string_of undefined = codes "undefined"
string_of null = codes "null"
string_of (primitive t) = t
string_of (string t) = t
string_of (object code t) = t

unfoldable pub as_error : JsValue → JsError
as_error (error e) = e
as_error (other v) = new_error (string_of v)

unfoldable pub err_message : JsValue → Text
err_message v = (as_error v).message

abort_prefix : Text → Text
abort_prefix context = codes "signet: " ++ context ++ codes ": aborted"

reason_error : JsValue → Text → JsError
unfolding abort_prefix
reason_error (error e) context = new_error (abort_prefix context ++ codes ": " ++ e.message)
reason_error (other undefined) context = new_error (abort_prefix context)
reason_error (other null) context = new_error (abort_prefix context)
reason_error (other v) context = new_error (abort_prefix context ++ codes ": " ++ string_of v)

-- `signal.reason` is undefined while the signal has not fired.
pub aborted_error : Signal → Text → JsError
unfolding reason_error abort_prefix
aborted_error no_abort context = new_error (abort_prefix context)
aborted_error live context = new_error (abort_prefix context)
aborted_error (aborted reason) context = reason_error reason context

-- `new AbortRaceError("aborted")`.
abbrev pub abort_race_error : JsValue
abort_race_error = error (record { class = abort_race; code = absent; message = codes "aborted" })

-- `err instanceof AbortRaceError`.
unfoldable pub is_abort_race : JsValue → Bool
is_abort_race (error e) = elim e.class [ ErrorClass.abort_race ↦ true | _ ↦ false ]
is_abort_race (other v) = false

-- `listening`: the abort listener is registered. `result`: what the returned promise settled to.
pub record Race (T : Type 0) : Type 0 where
  pub listening : Bool
  pub result : Option (Outcome T)

module _ {T : Type 0} where
  -- A call of `raceAbort`. With no signal the promise itself is returned.
  unfoldable pub race_abort : Signal → Race T
  race_abort no_abort = record { listening = false; result = none }
  race_abort (aborted reason) = record {
    listening = false;
    result = some (rejected abort_race_error);
  }
  race_abort live = record { listening = true; result = none }

  -- `resolve` and `reject` have no effect on a promise that has settled.
  fire : Bool → Race T → Race T
  fire true r = record { listening = false; result = or_else r.result (rejected abort_race_error) }
  fire false r = r

  -- The signal fires: `onAbort`, registered with `once`.
  unfoldable pub on_abort : Race T → Race T
  unfolding fire
  on_abort r = fire r.listening r

  -- The promise settles: the listener is removed.
  unfoldable pub on_settle : Outcome T → Race T → Race T
  on_settle o r = record { listening = false; result = or_else r.result o }

pub data RaceEvent (T : Type 0) : Type 0 where
  aborts : RaceEvent T
  settles : Outcome T → RaceEvent T

module _ {T : Type 0} where
  pub race_step : Race T → RaceEvent T → Race T
  unfolding on_abort on_settle
  race_step r aborts = on_abort r
  race_step r (settles o) = on_settle o r

  pub race : Race T → List (RaceEvent T) → Race T
  unfolding race_step
  race r [] = r
  race r (ev ∷ evs) = race (race_step r ev) evs
