-- ===== src/Server/Limit/Examples.antt =====
-- The gate at work, as in the tests of src/server/limit.rs.
use newppp.Prelude.{◌≡◌, refl, false, [], ◌∷◌, some, arith}
use newppp.Prelude.Assoc.{lookup, insert, remove}
use newppp.Server.Limit.{
  new, take_slot, take_global, leave_global, release_opt, release_ip, try_admit, drop_guard, World,
  took_slot, admitted, refused, Reach, here, next,
}
use newppp.Server.Limit.Reachable.{Safe, start, Reach-Safe}

abbrev one_slot : World
one_slot = record (start 1 2) { gate = (take_slot (new 1 2) 7).0; trying = some 7 ∷ [] }

abbrev one_admitted : World
one_admitted = record one_slot {
  gate = (take_global one_slot.gate).0;
  guards = some 7 ∷ [];
  trying = [];
}

-- A second call has taken a slot of the address, and there is no global one.
abbrev second_slot : World
second_slot = record one_admitted { gate = (take_slot one_admitted.gate 7).0; trying = some 7 ∷ [] }

abbrev second_refused : World
second_refused = record second_slot {
  gate = (take_global second_slot.gate).0;
  trying = [];
  leaving = some 7 ∷ [];
}

admit_then_full : (try_admit (try_admit (new 1 1) (some 7)).0 (some 7)).1 ≡ false
unfolding try_admit take_slot take_global new lookup insert
admit_then_full = refl

dropped_is_new : drop_guard (try_admit (new 1 1) (some 7)).0 (some 7) ≡ new 1 1
unfolding try_admit take_slot take_global drop_guard leave_global release_opt release_ip new lookup
    insert remove
dropped_is_new = refl

reach_admitted : Reach (start 1 2) one_admitted
unfolding take_slot take_global new lookup
reach_admitted =
    next (next here (took_slot (start 1 2) 7 refl)) (admitted one_slot [] (some 7) [] refl refl)

reach_refused : Reach (start 1 2) second_refused
unfolding take_slot take_global new lookup insert
reach_refused =
    next (next reach_admitted (took_slot one_admitted 7 refl))
      (refused second_slot [] (some 7) [] refl refl)

Reach-Safe_example : Safe 1 2 second_refused
Reach-Safe_example = Reach-Safe 1 2 (omega arith) reach_refused
