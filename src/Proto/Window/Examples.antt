-- ===== src/Proto/Window/Examples.antt =====
-- Runs of the replay filter, as in the tests of src/proto/crypto.rs.
use newppp.Prelude.{◌≡◌, refl, true, false, [], ◌∷◌}
use newppp.Proto.Window.{new, check, answers}
use newppp.Proto.Window.Refine.{answers-fresh_answers}
use newppp.Proto.Window.Spec.{fresh_answers}

late_and_repeated :
    answers new (10 ∷ 10 ∷ 9 ∷ 100 ∷ 10 ∷ 37 ∷ 36 ∷ 0 ∷ [])
    ≡ true ∷ false ∷ true ∷ true ∷ false ∷ true ∷ false ∷ false ∷ []
unfolding answers check new
late_and_repeated = refl

answers-fresh_answers_example :
    answers new (5 ∷ 70 ∷ 5 ∷ 6 ∷ 7 ∷ 7 ∷ []) ≡ fresh_answers [] (5 ∷ 70 ∷ 5 ∷ 6 ∷ 7 ∷ 7 ∷ [])
answers-fresh_answers_example = answers-fresh_answers (5 ∷ 70 ∷ 5 ∷ 6 ∷ 7 ∷ 7 ∷ [])
