-- ===== src/Errors/Tests.antt =====
-- Runs of the race and of the error helpers.
use signet_clients.Prelude.{ℕ, ◌≡◌, refl, [], ◌∷◌, none, some, List, true, ◌↔◌}
use signet_clients.Runtime.{resolved, rejected, live}
use signet_clients.Errors.{abort_race_error, RaceEvent, aborts, settles, race_abort, race}
use signet_clients.Errors.Races.{race-winner, race-no_leak}

abbrev late_value : List (RaceEvent ℕ)
late_value = aborts ∷ settles (resolved 3) ∷ []

late_value_lost : (race (race_abort live) late_value).result ≡ some (rejected abort_race_error)
unfolding race_abort race
late_value_lost = refl

race-winner_example : (race (race_abort live) late_value).result ≡ some (rejected abort_race_error)
race-winner_example = race-winner live late_value

race-no_leak_example :
    ((race (race_abort live) late_value).listening ≡ true)
    ↔ ((live ≡ live) × ((race (race_abort live) late_value).result ≡ none))
race-no_leak_example = race-no_leak live late_value
