-- ===== src/Proto/Counter/Examples.antt =====
-- Runs of the counter generators.
use newppp.Prelude.{◌≡◌, refl, [], ◌∷◌, arith}
use newppp.Proto.Counter.{stream, next, draw}
use newppp.Proto.Counter.Ranges.{Distinct, session_counters, session_counters-Distinct}

three_stream_counters : draw 3 stream ≡ 1 ∷ 2 ∷ 3 ∷ []
unfolding draw next stream
three_stream_counters = refl

session_counters-Distinct_example : Distinct (session_counters 2 1 1 2)
session_counters-Distinct_example =
    session_counters-Distinct 2 1 1 2 (omega arith) (omega arith) (omega arith) (omega arith)
