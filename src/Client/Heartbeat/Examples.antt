-- ===== src/Client/Heartbeat/Examples.antt =====
-- Runs of the heartbeat.
use newppp.Prelude.{◌≡◌, refl, Bool, true, false, List, [], ◌∷◌}
use newppp.Client.Heartbeat.{connected, judge, heartbeat, two_missed, heartbeat-two_missed}

abbrev ticks : List Bool
ticks = true ∷ false ∷ true ∷ false ∷ false ∷ true ∷ []

heartbeat-two_missed_example : (heartbeat ticks connected).1 ≡ two_missed ticks
heartbeat-two_missed_example = heartbeat-two_missed ticks

-- The first tick comes before the first ping: a new connection expires when a single ping is unanswered.
one_unanswered : heartbeat (false ∷ false ∷ []) connected ≡ (1, true)
unfolding heartbeat judge
one_unanswered = refl
