-- ===== src/Errors/Races.antt =====
-- `raceAbort` against its specification: the first event decides.
use signet_clients.Prelude.{
  ◌≡◌, refl, ◌↔◌, Bool, true, false, Option, none, some, List, [], ◌∷◌, arith,
}
use signet_clients.Runtime.{Outcome, rejected, Signal, no_abort, live, aborted}
use signet_clients.Errors.{abort_race_error, race_abort, RaceEvent, aborts, settles, race}

module _ {T : Type 0} where
  -- How the first settling of the promise ends.
  abbrev pub first_settled : List (RaceEvent T) → Option (Outcome T)
  first_settled [] = none
  first_settled (aborts ∷ evs) = first_settled evs
  first_settled (settles o ∷ evs) = some o

  abbrev pub first_event : List (RaceEvent T) → Option (Outcome T)
  first_event [] = none
  first_event (aborts ∷ evs) = some (rejected abort_race_error)
  first_event (settles o ∷ evs) = some o

  abbrev pub winner : Signal → List (RaceEvent T) → Option (Outcome T)
  winner no_abort evs = first_settled evs
  winner live evs = first_event evs
  winner (aborted reason) evs = some (rejected abort_race_error)

  -- A race that is decided stays as it is.
  race_decided :
      (o : Outcome T) (evs : List (RaceEvent T))
      → race (record { listening = false; result = some o }) evs
        ≡ record { listening = false; result = some o }
  unfolding race
  race_decided o [] = refl
  race_decided o (aborts ∷ evs) = race_decided o evs
  race_decided o (settles o' ∷ evs) = race_decided o evs

  race_alone :
      (evs : List (RaceEvent T))
      → race (record { listening = false; result = none }) evs
        ≡ record { listening = false; result = first_settled evs }
  unfolding race
  race_alone [] = refl
  race_alone (aborts ∷ evs) = race_alone evs
  race_alone (settles o ∷ evs) = race_decided o evs

  abbrev pub is_undecided : Option (Outcome T) → Bool
  is_undecided none = true
  is_undecided (some o) = false

  race_listening :
      (evs : List (RaceEvent T))
      → race (record { listening = true; result = none }) evs
        ≡ record { listening = is_undecided (first_event evs); result = first_event evs }
  unfolding race
  race_listening [] = refl
  race_listening (aborts ∷ evs) = race_decided _ evs
  race_listening (settles o ∷ evs) = race_decided o evs

  -- Whatever the order of events, the promise of `raceAbort` settles as the first event that counts
  -- does: the abort rejects it with AbortRaceError, at once if the signal had fired before the call;
  -- without a signal only the given promise counts. Later events change nothing.
  pub race-winner :
      (signal : Signal) (evs : List (RaceEvent T))
      → (race (race_abort signal) evs).result ≡ winner signal evs
  unfolding race_abort
  race-winner no_abort evs = rw (race_alone evs)
  race-winner live evs = rw (race_listening evs)
  race-winner (aborted reason) evs = rw (race_decided (rejected abort_race_error) evs)

  -- The abort listener is registered exactly while a live signal's race is undecided: no settled
  -- race leaves a listener behind.
  pub race-no_leak :
      (signal : Signal) (evs : List (RaceEvent T))
      → ((race (race_abort signal) evs).listening ≡ true)
        ↔ ((signal ≡ live) × ((race (race_abort signal) evs).result ≡ none))
  unfolding race_abort
  race-no_leak no_abort evs = rw (race_alone evs) (ground arith)
  race-no_leak live evs = rw (race_listening evs) (ground arith)
  race-no_leak (aborted reason) evs =
      rw (race_decided (rejected abort_race_error) evs) (ground arith)
