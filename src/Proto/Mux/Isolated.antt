-- ===== src/Proto/Mux/Isolated.antt =====
-- src/proto/mux.rs: what `handle_client_frame` does to other sessions than the one of the frame.
use newppp.Prelude.{
  ℕ, ◌≡◌, ◌≢◌, ◌∙◌, refl, Bool, true, false, List, [], ◌∷◌, Option, none, some, arith,
}
use newppp.Prelude.Assoc.{lookup, remove}
use newppp.Proto.OpenError.{code_to_open_error}
use newppp.Proto.Frame.{FrameType, Frame, flag_fin}
use newppp.Proto.Frame
use newppp.Proto.Mux.{
  MuxInner, Opening, opened, refused, resolve_open, resolve_udp, resolve_either, route_data,
  drop_route, has_flag, handle_client_frame,
}

lookup-remove_other :
    {V : Type 0} (k j : ℕ) (m : List (ℕ × V)) → k ≢ j → lookup j (remove k m) ≡ lookup j m
unfolding lookup remove
lookup-remove_other k j [] h = refl
lookup-remove_other k j ((i, v) ∷ m) h = ground (arith, lookup-remove_other k j m h)

-- Everything that the maps say of a session id is the same in both.
abbrev pub SameFor : ℕ → MuxInner → MuxInner → Type 0
SameFor j m m' =
    (lookup j m'.sessions ≡ lookup j m.sessions)
    × (lookup j m'.udp ≡ lookup j m.udp)
    × (lookup j m'.pending_open ≡ lookup j m.pending_open)
    × (lookup j m'.pending_udp ≡ lookup j m.pending_udp)
    × (m'.closed ≡ m.closed)

module _ (k j : ℕ) (h : k ≢ j) where
  resolve_udp-SameFor :
      (o : Option ℕ) (m : MuxInner) (r : Opening) → SameFor j m (resolve_udp o m k r).0
  unfolding resolve_udp
  resolve_udp-SameFor none m r = (refl, refl, refl, refl, refl)
  resolve_udp-SameFor (some tx) m r =
      (refl, refl, refl, lookup-remove_other k j m.pending_udp h, refl)

  resolve_open-SameFor :
      (o : Option ℕ) (m : MuxInner) (r : Opening) → SameFor j m (resolve_open o m k r).0
  unfolding resolve_open
  resolve_open-SameFor none m r = (refl, refl, refl, refl, refl)
  resolve_open-SameFor (some tx) m r =
      (refl, refl, lookup-remove_other k j m.pending_open h, refl, refl)

  resolve_either-SameFor :
      (o : Option ℕ) (m : MuxInner) (r : Opening) → SameFor j m (resolve_either o m k r).0
  unfolding resolve_either
  resolve_either-SameFor none m r = resolve_udp-SameFor (lookup k m.pending_udp) m r
  resolve_either-SameFor (some tx) m r = resolve_open-SameFor (some tx) m r

  route_data-SameFor :
      (takes : ℕ → Bool) (o : Option ℕ) (m : MuxInner) (p : List ℕ)
      → SameFor j m (route_data takes o m k p).0
  unfolding route_data
  route_data-SameFor takes none m p = (refl, refl, refl, refl, refl)
  route_data-SameFor takes (some tx) m p = (
    ground (arith, lookup-remove_other k j m.sessions h),
    ground arith,
    ground arith,
    ground arith,
    ground arith,
  )

  drop_route-SameFor :
      (b : Bool) (m0 m : MuxInner) → SameFor j m0 m → SameFor j m0 (drop_route b m k)
  unfolding drop_route
  drop_route-SameFor true m0 m (s, u, o, p, c) =
      (lookup-remove_other k j m.sessions h ∙ s, u, o, p, c)
  drop_route-SameFor false m0 m same = same

frame-SameFor :
    (utf8 : List ℕ → Bool) (takes : ℕ → Bool) (m : MuxInner) (f : Frame) (other : ℕ) (t : FrameType)
    → f.ftype ≡ t
    → f.sid ≢ other
    → SameFor other m (handle_client_frame utf8 takes m f).0
      × ((handle_client_frame utf8 takes m f).2 ≡ false)
unfolding handle_client_frame
frame-SameFor utf8 takes m f other Frame.open_ok e h =
    rw e (resolve_open-SameFor f.sid other h (lookup f.sid m.pending_open) m opened, refl)
frame-SameFor utf8 takes m f other Frame.open_err e h = rw e (
  resolve_either-SameFor f.sid other h (lookup f.sid m.pending_open) m
      (refused (code_to_open_error f.payload)),
  refl,
)
frame-SameFor utf8 takes m f other Frame.udp_ok e h =
    rw e (resolve_udp-SameFor f.sid other h (lookup f.sid m.pending_udp) m opened, refl)
frame-SameFor utf8 takes m f other Frame.error e h = rw e (
  drop_route-SameFor f.sid other h true m _ (
      resolve_either-SameFor f.sid other h (lookup f.sid m.pending_open) m
        (refused (code_to_open_error f.payload))),
  refl,
)
frame-SameFor utf8 takes m f other Frame.data_frame e h = rw e (
  drop_route-SameFor f.sid other h (has_flag f.flags flag_fin) m _
      (route_data-SameFor f.sid other h takes (lookup f.sid m.sessions) m f.payload),
  refl,
)
frame-SameFor utf8 takes m f other Frame.close e h = rw e (
  (
    lookup-remove_other f.sid other m.sessions h,
    lookup-remove_other f.sid other m.udp h,
    refl,
    refl,
    refl,
  ),
  refl,
)
frame-SameFor utf8 takes m f other _ e h = rw e ((refl, refl, refl, refl, refl), refl)

-- Whatever frame the client handles, all that its maps hold for another session id than the frame's
-- stays, the state is not marked as closed, and the answer is that the connection is not to be torn
-- down.
pub handle_client_frame-SameFor :
    (utf8 : List ℕ → Bool) (takes : ℕ → Bool) (m : MuxInner) (f : Frame) (other : ℕ)
    → f.sid ≢ other
    → SameFor other m (handle_client_frame utf8 takes m f).0
      × ((handle_client_frame utf8 takes m f).2 ≡ false)
handle_client_frame-SameFor utf8 takes m f other h =
    frame-SameFor utf8 takes m f other f.ftype refl h
