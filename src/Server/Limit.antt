-- ===== src/Server/Limit.antt =====
-- `UnauthGate` of src/server/limit.rs, the cap on connections that have not authenticated. An
-- address is a number; the guards that are out are a list, newest first. `try_admit` takes the slot of
-- the address and then a global one, and the guard's drop gives them back one after the other; the
-- relation `Step` interleaves these halves, each of which is atomic: by the lock of the map's entry, or
-- by compare-exchange and `fetch_sub` on the counter.
use newppp.Prelude.{
  not, ℕ, zero, suc, ◌+◌, ◌-◌, ◌%◌, ◌^◌, ◌≤◌, ◌<◌, ◌≡◌, max, Bool, true, false, ltb, leb, ◌==◌,
  if◌then◌else◌, List, [], ◌∷◌, ◌++◌, Option, none, some,
}
use newppp.Prelude.Assoc.{lookup, insert, remove}
pub mod Invariant
pub mod Reachable
mod Examples

pub record UnauthGate : Type 0 where
  pub global : ℕ
  pub per_ip : List (ℕ × ℕ)
  pub max_global : ℕ
  pub max_per_ip : ℕ

unfoldable pub new : ℕ → ℕ → UnauthGate
new max_global max_per_ip = record {
  global = 0;
  per_ip = [];
  max_global = max max_global 1;
  max_per_ip = max max_per_ip 1;
}

-- The count of an address, 0 where it has no entry.
abbrev pub value_or_zero : Option ℕ → ℕ
value_or_zero none = 0
value_or_zero (some n) = n

abbrev pub tally : ℕ → List (ℕ × ℕ) → ℕ
tally ip m = value_or_zero (lookup ip m)

-- `*e = e.saturating_sub(1)`, and the entry goes at 0.
lower : ℕ → Option ℕ → List (ℕ × ℕ) → List (ℕ × ℕ)
lower ip none m = m
lower ip (some n) m = if n - 1 == 0 then remove ip m else insert ip (n - 1) m

unfoldable pub release_ip : UnauthGate → ℕ → UnauthGate
unfolding lower
release_ip g ip = record g { per_ip = lower ip (lookup ip g.per_ip) g.per_ip }

unfoldable pub release_opt : UnauthGate → Option ℕ → UnauthGate
release_opt g none = g
release_opt g (some ip) = release_ip g ip

-- The first half of `try_admit`, and whether it goes on. `or_insert(0)` leaves an entry behind when it
-- refuses, but only where the cap is 0, which `new` excludes: there the entry was there before.
unfoldable pub take_slot : UnauthGate → ℕ → UnauthGate × Bool
take_slot g ip =
    if leb g.max_per_ip (tally ip g.per_ip)
    then (g, false)
    else (record g { per_ip = insert ip (tally ip g.per_ip + 1) g.per_ip }, true)

-- The compare-exchange loop, and whether it took a slot.
unfoldable pub take_global : UnauthGate → UnauthGate × Bool
take_global g =
    if leb g.max_global g.global then (g, false) else (record g { global = g.global + 1 }, true)

-- The second half of `try_admit`: the slot of the address, if there is one, was taken.
admit_global : UnauthGate → Option ℕ → UnauthGate × Bool
admit_global g ip =
    let (g', room) = take_global g in if room then (g', true) else (release_opt g' ip, false)

-- Whether a guard is given out, if no other call comes in between.
unfoldable pub try_admit : UnauthGate → Option ℕ → UnauthGate × Bool
unfolding admit_global
try_admit g none = admit_global g none
try_admit g (some ip) =
    let (g', free) = take_slot g ip in if not free then (g', false) else admit_global g' (some ip)

-- The two halves of `UnauthGuard::drop`; `fetch_sub` wraps.
unfoldable pub leave_global : UnauthGate → UnauthGate
leave_global g = record g { global = (g.global + 2 ^ 64 - 1) % 2 ^ 64 }

unfoldable pub drop_guard : UnauthGate → Option ℕ → UnauthGate
drop_guard g ip = release_opt (leave_global g) ip

-- The gate, the guards that are out, the calls of `try_admit` between their halves, and those that are to
-- give back the slot of their address, refused for want of a global one or dropping a guard. A call with
-- no address begins with its second half.
pub record World : Type 0 where
  pub gate : UnauthGate
  pub guards : List (Option ℕ)
  pub trying : List (Option ℕ)
  pub leaving : List (Option ℕ)

pub data Step : World → World → Type 0 where
  came : (w : World) → Step w (record w { trying = none ∷ w.trying })
  took_slot :
      (w : World) (ip : ℕ)
      → (take_slot w.gate ip).1 ≡ true
      → Step w (record w { gate = (take_slot w.gate ip).0; trying = some ip ∷ w.trying })
  turned_away :
      (w : World) (ip : ℕ)
      → (take_slot w.gate ip).1 ≡ false
      → Step w (record w { gate = (take_slot w.gate ip).0 })
  admitted :
      (w : World) (front : List (Option ℕ)) (ip : Option ℕ) (back : List (Option ℕ))
      → w.trying ≡ front ++ (ip ∷ back)
      → (take_global w.gate).1 ≡ true
      → Step w (record w {
        gate = (take_global w.gate).0;
        guards = ip ∷ w.guards;
        trying = front ++ back;
      })
  refused :
      (w : World) (front : List (Option ℕ)) (ip : Option ℕ) (back : List (Option ℕ))
      → w.trying ≡ front ++ (ip ∷ back)
      → (take_global w.gate).1 ≡ false
      → Step w (record w {
        gate = (take_global w.gate).0;
        trying = front ++ back;
        leaving = ip ∷ w.leaving;
      })
  dropped :
      (w : World) (front : List (Option ℕ)) (ip : Option ℕ) (back : List (Option ℕ))
      → w.guards ≡ front ++ (ip ∷ back)
      → Step w (record w {
        gate = leave_global w.gate;
        guards = front ++ back;
        leaving = ip ∷ w.leaving;
      })
  left_slot :
      (w : World) (front : List (Option ℕ)) (ip : Option ℕ) (back : List (Option ℕ))
      → w.leaving ≡ front ++ (ip ∷ back)
      → Step w (record w { gate = release_opt w.gate ip; leaving = front ++ back })

pub data Reach (s : World) : World → Type 0 where
  here : Reach s s
  next : {t u : World} → Reach s t → Step t u → Reach s u
