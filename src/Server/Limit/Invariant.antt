-- ===== src/Server/Limit/Invariant.antt =====
-- src/server/limit.rs: the counters of `UnauthGate` against the guards that are out.
use newppp.Prelude.{
  ◌∙◌, ℕ, suc, ◌+◌, ◌-◌, ◌^◌, ◌≤◌, ◌<◌, ◌≡◌, refl, leb, ◌==◌, if◌then◌else◌, List, [], ◌∷◌, ◌++◌,
  Option, none, some, arith, length, length-append, Bool-cases, inl, inr,
}
use newppp.Prelude.Assoc.{
  lookup, insert, remove, Distinct, lookup-insert, lookup-remove, insert-Distinct, remove-Distinct,
}
use newppp.Server.Limit.{
  UnauthGate, new, tally, lower, release_ip, release_opt, take_slot, take_global, leave_global,
  World, Step, came, took_slot, turned_away, admitted, refused, dropped, left_slot,
}

-- How many of the guards hold a slot of this address.
abbrev pub held : ℕ → List (Option ℕ) → ℕ
held ip [] = 0
held ip (none ∷ gs) = held ip gs
held ip (some j ∷ gs) = if j == ip then suc (held ip gs) else held ip gs

held-append : (ip : ℕ) (xs ys : List (Option ℕ)) → held ip (xs ++ ys) ≡ held ip xs + held ip ys
held-append ip [] ys = omega arith
held-append ip (none ∷ xs) ys = held-append ip xs ys
held-append ip (some j ∷ xs) ys = ground (arith, held-append ip xs ys)

abbrev pub Positive : List (ℕ × ℕ) → Type 0
Positive [] = Unit {0}
Positive ((ip, n) ∷ m) = (0 < n) × Positive m

insert-Positive : (ip n : ℕ) (m : List (ℕ × ℕ)) → 0 < n → Positive m → Positive (insert ip n m)
unfolding insert
insert-Positive ip n [] h p = (h, tt)
insert-Positive ip n ((j, k) ∷ m) h p = ground (arith, insert-Positive ip n m)

remove-Positive : (ip : ℕ) (m : List (ℕ × ℕ)) → Positive m → Positive (remove ip m)
unfolding remove
remove-Positive ip [] p = tt
remove-Positive ip ((j, k) ∷ m) p = ground (arith, remove-Positive ip m)

tally-insert :
    (ip j n : ℕ) (m : List (ℕ × ℕ)) → tally j (insert ip n m) ≡ (if ip == j then n else tally j m)
tally-insert ip j n m = ground (arith, lookup-insert ip j n m)

tally-remove :
    (ip j : ℕ) (m : List (ℕ × ℕ))
    → Distinct m
    → tally j (remove ip m) ≡ (if ip == j then 0 else tally j m)
tally-remove ip j m d = ground (arith, lookup-remove ip j m d)

-- `release_ip` takes one from the count of its address, and keeps the others.
tally-lower :
    (ip j : ℕ) (o : Option ℕ) (m : List (ℕ × ℕ))
    → lookup ip m ≡ o
    → Distinct m
    → tally j (lower ip o m) ≡ (if ip == j then tally j m - 1 else tally j m)
unfolding lower
tally-lower ip j none m e d = ground arith
tally-lower ip j (some n) m e d = ground (arith, tally-remove ip j m d, tally-insert ip j (n - 1) m)

pub record IsTable (m : List (ℕ × ℕ)) : Type 0 where
  pub distinct : Distinct m
  pub positive : Positive m

lower-IsTable : (ip : ℕ) (o : Option ℕ) (m : List (ℕ × ℕ)) → IsTable m → IsTable (lower ip o m)
unfolding lower
lower-IsTable ip none m t = t
lower-IsTable ip (some n) m t = elim (Bool-cases (n - 1 == 0)) [
  | inl last ↦ rw last (record {
    distinct = remove-Distinct ip m t.distinct;
    positive = remove-Positive ip m t.positive;
  })
  | inr more ↦ rw more (record {
    distinct = insert-Distinct ip (n - 1) m t.distinct;
    positive = insert-Positive ip (n - 1) m (ground arith) t.positive;
  })
]

-- The slots of an address: of its guards, and of the calls that have one or are to give it back.
abbrev pub slots_of : ℕ → World → ℕ
slots_of ip w = held ip w.guards + held ip w.trying + held ip w.leaving

-- The counters against the guards and the calls.
pub record Inv (w : World) : Type 0 where
  pub total : w.gate.global ≡ length w.guards
  pub slots : (ip : ℕ) → tally ip w.gate.per_ip ≡ slots_of ip w
  pub table : IsTable w.gate.per_ip
  pub room : w.gate.global ≤ w.gate.max_global
  pub fair : (ip : ℕ) → slots_of ip w ≤ w.gate.max_per_ip

pub new-Inv :
    (global per_ip : ℕ)
    → Inv (record { gate = new global per_ip; guards = []; trying = []; leaving = [] })
unfolding new lookup
new-Inv global per_ip = record {
  total = refl;
  slots = λ ip. refl;
  table = record { distinct = tt; positive = tt };
  room = omega arith;
  fair = λ ip. omega arith;
}

held-cons :
    (j : ℕ) (ip : Option ℕ) (gs : List (Option ℕ)) → held j (ip ∷ gs) ≡ held j (ip ∷ []) + held j gs
held-cons j none gs = omega arith
held-cons j (some i) gs = ground arith

-- Taking one out of the middle.
held-middle :
    (j : ℕ) (front : List (Option ℕ)) (ip : Option ℕ) (back gs : List (Option ℕ))
    → gs ≡ front ++ (ip ∷ back)
    → held j gs ≡ held j (front ++ back) + held j (ip ∷ [])
held-middle j front ip back gs e =
    rw e (
      omega (arith, held-append j front (ip ∷ back), held-append j front back, held-cons j ip back))

length-middle :
    (front : List (Option ℕ)) (ip : Option ℕ) (back gs : List (Option ℕ))
    → gs ≡ front ++ (ip ∷ back)
    → length gs ≡ suc (length (front ++ back))
length-middle front ip back gs e =
    rw e (omega (arith, length-append front (ip ∷ back), length-append front back))

taken-IsTable : (ip n : ℕ) (m : List (ℕ × ℕ)) → IsTable m → IsTable (insert ip (n + 1) m)
taken-IsTable ip n m t = record {
  distinct = insert-Distinct ip (n + 1) m t.distinct;
  positive = insert-Positive ip (n + 1) m (omega arith) t.positive;
}

tally-release_opt :
    (g : UnauthGate) (ip : Option ℕ) (j : ℕ)
    → IsTable g.per_ip
    → held j (ip ∷ []) ≤ tally j g.per_ip
    → tally j (release_opt g ip).per_ip + held j (ip ∷ []) ≡ tally j g.per_ip
unfolding release_opt release_ip
tally-release_opt g none j t h = omega arith
tally-release_opt g (some ip) j t h =
    ground (arith, h, tally-lower ip j (lookup ip g.per_ip) g.per_ip refl t.distinct)

release_opt-IsTable :
    (g : UnauthGate) (ip : Option ℕ) → IsTable g.per_ip → IsTable (release_opt g ip).per_ip
unfolding release_opt release_ip
release_opt-IsTable g none t = t
release_opt-IsTable g (some ip) t = lower-IsTable ip (lookup ip g.per_ip) g.per_ip t

pub release_opt_keeps :
    (g : UnauthGate) (ip : Option ℕ)
    → ((release_opt g ip).global ≡ g.global)
      × ((release_opt g ip).max_global ≡ g.max_global)
      × ((release_opt g ip).max_per_ip ≡ g.max_per_ip)
unfolding release_opt release_ip
release_opt_keeps g none = (refl, refl, refl)
release_opt_keeps g (some ip) = (refl, refl, refl)

pub Step-Inv : {w u : World} → w.gate.max_global < 2 ^ 64 → Step w u → Inv w → Inv u
unfolding take_slot take_global leave_global
Step-Inv h (came w) v = record {
  total = v.total;
  slots = v.slots;
  table = v.table;
  room = v.room;
  fair = v.fair;
}
Step-Inv h (took_slot w ip e) v =
    elim (Bool-cases (leb w.gate.max_per_ip (tally ip w.gate.per_ip))) [
      | inl capped ↦ absurd (ground arith)
      | inr free ↦ rw free (record {
        total = v.total;
        slots = λ j. ground (
          arith,
          v.slots ip,
          v.slots j,
          tally-insert ip j (tally ip w.gate.per_ip + 1) w.gate.per_ip,
        );
        table = taken-IsTable ip (tally ip w.gate.per_ip) w.gate.per_ip v.table;
        room = v.room;
        fair = λ j. ground (arith, v.slots ip, v.fair j);
      })
    ]
Step-Inv h (turned_away w ip e) v =
    elim (Bool-cases (leb w.gate.max_per_ip (tally ip w.gate.per_ip))) [
      | inl capped ↦ rw capped (record {
        total = v.total;
        slots = v.slots;
        table = v.table;
        room = v.room;
        fair = v.fair;
      })
      | inr free ↦ absurd (ground arith)
    ]
Step-Inv h (admitted w front ip back split e) v =
    elim (Bool-cases (leb w.gate.max_global w.gate.global)) [
      | inl full ↦ absurd (ground arith)
      | inr room ↦ rw room (record {
        total = omega (arith, v.total);
        slots = λ j.
            omega (
              arith,
              v.slots j,
              held-middle j front ip back w.trying split,
              held-cons j ip w.guards,
            );
        table = v.table;
        room = ground arith;
        fair = λ j.
            omega (
              arith,
              v.fair j,
              held-middle j front ip back w.trying split,
              held-cons j ip w.guards,
            );
      })
    ]
Step-Inv h (refused w front ip back split e) v =
    elim (Bool-cases (leb w.gate.max_global w.gate.global)) [
      | inr room ↦ absurd (ground arith)
      | inl full ↦ rw full (record {
        total = v.total;
        slots = λ j. omega (
          arith,
          v.slots j,
          held-middle j front ip back w.trying split,
          held-cons j ip w.leaving,
        );
        table = v.table;
        room = v.room;
        fair = λ j.
            omega (
              arith,
              v.fair j,
              held-middle j front ip back w.trying split,
              held-cons j ip w.leaving,
            );
      })
    ]
Step-Inv h (dropped w front ip back split) v = record {
  total = omega (arith, v.total, v.room, h, length-middle front ip back w.guards split);
  slots = λ j.
      omega
        (arith, v.slots j, held-middle j front ip back w.guards split, held-cons j ip w.leaving);
  table = v.table;
  room = omega (arith, v.total, v.room, h, length-middle front ip back w.guards split);
  fair = λ j.
      omega (arith, v.fair j, held-middle j front ip back w.guards split, held-cons j ip w.leaving);
}
Step-Inv h (left_slot w front ip back split) v =
    let (same, cap, ip_cap) = release_opt_keeps w.gate ip in
    record {
      total = same ∙ v.total;
      slots = λ j. omega (
        arith,
        v.slots j,
        held-middle j front ip back w.leaving split,
        tally-release_opt w.gate ip j v.table
            (omega (arith, v.slots j, held-middle j front ip back w.leaving split)),
      );
      table = release_opt-IsTable w.gate ip v.table;
      room = omega (arith, v.room, same, cap);
      fair = λ j. omega (arith, v.fair j, held-middle j front ip back w.leaving split, ip_cap);
    }
