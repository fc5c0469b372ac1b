-- ===== src/Client/Pool/Choice.antt =====
-- src/client/wt.rs: which connection a session gets.
use newppp.Prelude.{
  ◌<◌, ◌≤◌, ◌≡◌, refl, true, false, leb, List, [], ◌∷◌, Option, none, some, arith, All, inl, inr,
  ◌⊎◌, Bool-cases, Option-cases,
}
use newppp.Client.Pool.{Conn, usable, least_used, acquire}

abbrev pub IsIn : Conn → List Conn → Type 0
IsIn c [] = ⊥
IsIn c (d ∷ g) = (c ≡ d) ⊎ IsIn c g

-- Dead, or full.
abbrev pub IsOut : Conn → Type 0
IsOut d = (d.alive ≡ false) ⊎ (50 ≤ d.sessions)

-- Every connection is dead, or full, or has no fewer sessions.
abbrev pub NoneBelow : Conn → List Conn → Type 0
NoneBelow c g = All (λ (d : Conn). IsOut d ⊎ (c.sessions ≤ d.sessions)) g

abbrev pub AllUnusable : List Conn → Type 0
AllUnusable g = All IsOut g

-- A live connection of the pool with room, with the fewest sessions of these.
pub record IsLeastUsed (g : List Conn) (c : Conn) : Type 0 where
  pub from_pool : IsIn c g
  pub is_live : c.alive ≡ true
  pub has_room : c.sessions < 50
  pub none_below : NoneBelow c g

NoneBelow-trans :
    (c d : Conn) (g : List Conn) → c.sessions ≤ d.sessions → NoneBelow d g → NoneBelow c g
NoneBelow-trans c d [] h below = tt
NoneBelow-trans c d (e ∷ g) h below = (
  elim below.0 [ inl unusable ↦ inl unusable | inr more ↦ inr (omega (arith, h, more)) ],
  NoneBelow-trans c d g h below.1,
)

AllUnusable-NoneBelow : (c : Conn) (g : List Conn) → AllUnusable g → NoneBelow c g
AllUnusable-NoneBelow c [] h = tt
AllUnusable-NoneBelow c (e ∷ g) h = (inl h.0, AllUnusable-NoneBelow c g h.1)

usable-room : (c : Conn) → usable c ≡ true → (c.alive ≡ true) × (c.sessions < 50)
usable-room c h = (ground arith, ground arith)

usable-IsOut : (c : Conn) → usable c ≡ false → IsOut c
usable-IsOut c h = elim (Bool-cases c.alive) [
  | inr dead ↦ inl dead
  | inl live ↦ inr (ground (arith, h, live))
]

least_used-cases :
    (g : List Conn)
    → ((least_used g ≡ none) × AllUnusable g)
      ⊎ ((c : Conn) × (least_used g ≡ some c) × IsLeastUsed g c)
unfolding least_used
least_used-cases [] = inl (refl, tt)
least_used-cases (c ∷ g) = elim (Bool-cases (usable c)) [
  | inr unusable ↦ elim (least_used-cases g) [
    | inl (nothing, all) ↦ inl (rw (unusable, nothing) refl, (usable-IsOut c unusable, all))
    | inr (d, found, least) ↦ inr (
      d,
      rw (unusable, found) refl,
      record {
        from_pool = inr least.from_pool;
        is_live = least.is_live;
        has_room = least.has_room;
        none_below = (inl (usable-IsOut c unusable), least.none_below);
      },
    )
  ]
  | inl can ↦ elim (least_used-cases g) [
    | inl (nothing, all) ↦ inr (
      c,
      rw (can, nothing) refl,
      record {
        from_pool = inl refl;
        is_live = (usable-room c can).0;
        has_room = (usable-room c can).1;
        none_below = (inr (omega arith), AllUnusable-NoneBelow c g all);
      },
    )
    | inr (d, found, least) ↦ elim (Bool-cases (leb c.sessions d.sessions)) [
      | inl first ↦ inr (
        c,
        rw (can, found, first) refl,
        record {
          from_pool = inl refl;
          is_live = (usable-room c can).0;
          has_room = (usable-room c can).1;
          none_below =
              (inr (omega arith), NoneBelow-trans c d g (ground (arith, first)) least.none_below);
        },
      )
      | inr second ↦ inr (
        d,
        rw (can, found, second) refl,
        record {
          from_pool = inr least.from_pool;
          is_live = least.is_live;
          has_room = least.has_room;
          none_below = (inr (ground (arith, second)), least.none_below);
        },
      )
    ]
  ]
]

-- A session gets a live connection of the pool that has fewer than 50 sessions, and of these one with the
-- fewest, and the pool stays as it is; if there is none, it gets what dialling answers.
pub acquire_least :
    (dialled : Option Conn) (g : List Conn)
    → ((c : Conn) × (acquire dialled g ≡ (g, some c)) × IsLeastUsed g c)
      ⊎ (((acquire dialled g).1 ≡ dialled) × AllUnusable g)
unfolding acquire
acquire_least dialled g = elim (least_used-cases g) [
  | inr (c, found, least) ↦ inl (c, rw (acquire, found) refl, least)
  | inl (nothing, all) ↦ elim (Option-cases dialled) [
    | inl failed ↦ inr (rw (acquire, nothing, failed) refl, all)
    | inr (c, came) ↦ inr (rw (acquire, nothing, came) refl, all)
  ]
]
