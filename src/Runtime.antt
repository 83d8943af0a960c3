-- ===== src/Runtime.antt =====
-- The part of the language that the client's code uses: texts as lists of UTF-16 code units,
-- thrown values, errors, settled promises and the AbortSignal.
mod Texts
mod Settling
pub use Texts.{Text, codes}
pub use Settling.{Promises, or_else, no_promises, settle-at, settle-other, settle_all-range}
unfoldable pub use Settling.{settle, settle_all}
use signet_clients.Prelude.{Bool, true, false, Option}

-- The `code` property of a value: absent, a string, or anything else.
pub data CodeProperty : Type 0 where
  absent : CodeProperty
  text_code : Text → CodeProperty
  other_code : CodeProperty

-- `Error` itself, the class `AbortRaceError` of errors.ts, or any other subclass.
pub data ErrorClass : Type 0 where
  plain abort_race foreign : ErrorClass

pub record JsError : Type 0 where
  pub class : ErrorClass
  pub code : CodeProperty
  pub message : Text

-- A value that is no instance of Error. `primitive` stands for numbers, Booleans, bigints and
-- symbols, and `object` for objects, each with its `String(v)`.
pub data NonError : Type 0 where
  undefined null : NonError
  primitive string : Text → NonError
  object : CodeProperty → Text → NonError

-- A value that can be thrown or given as an abort reason.
pub data JsValue : Type 0 where
  error : JsError → JsValue
  other : NonError → JsValue

-- `new Error(message)`.
abbrev pub new_error : Text → JsError
new_error message = record { class = plain; code = absent; message = message }

-- How a promise, or a call that may throw, ends.
pub data Outcome {ℓ} (A : Type ℓ) : Type ℓ where
  resolved : A → Outcome A
  rejected : JsValue → Outcome A

-- An optional AbortSignal: none given, not aborted, or aborted with its reason.
pub data Signal : Type 0 where
  no_abort live : Signal
  aborted : JsValue → Signal

-- `signal?.aborted`.
abbrev pub is_aborted : Signal → Bool
is_aborted no_abort = false
is_aborted live = false
is_aborted (aborted reason) = true

-- The environment's `controller.abort(reason)`: the first one counts.
abbrev pub abort_signal : JsValue → Signal → Signal
abort_signal reason no_abort = no_abort
abort_signal reason live = aborted reason
abort_signal reason (aborted first) = aborted first
