-- ===== src/Receive/Disconnect.antt =====
-- mt_call_si_static.c: what `mt_disc_cb` leaves for the next connection.
use ric_plt_lib_rmr.Base.{
  ℕ, ◌≡◌, ◌≢◌, ◌<◌, refl, true, false, none, some, [], arith, ◌≤◌, length, get_or, set, get_or-set,
  ltb, lt→ltb, sym, List, ◌++◌, ◌+◌,
}
use mathlib.Core.Path.{subst}
use ric_plt_lib_rmr.Base.Int.{pos, negsuc}
use ric_plt_lib_rmr.Symtab.{num, rmr_sym_pull, rmr_sym_ndel}
use ric_plt_lib_rmr.Symtab.Find.{key_eq_refl}
use ric_plt_lib_rmr.Symtab.Valid.{IsValid, lookup}
use ric_plt_lib_rmr.Symtab.Delete.{lookup-del}
use ric_plt_lib_rmr.Route.Key.{pull-lookup}
use ric_plt_lib_rmr.Endpoint.{Links, no_endpoint, ep_at, fd2ep_del, close_fd}
use ric_plt_lib_rmr.River.{River, Raw, done}
use ric_plt_lib_rmr.River.Frames.{AllFrames, IsPartial, concat}
use ric_plt_lib_rmr.River.Stream.{Carry}
use ric_plt_lib_rmr.River.Chunks.{IsReady, river_run, run-Delivers}
use ric_plt_lib_rmr.Receive.{Ctx, renew, new_river, reset_river, mt_disc_cb}

module _ (ctx : Ctx) (links : Links) (sock : ℕ) where
  -- After the loss of a connection whose descriptor is in the array, its river is ready for the
  -- first byte of a new stream, and the rivers of all other descriptors are as they were.
  pub disc-IsReady :
      sock < ctx.nrivers
      → ctx.nrivers ≤ length ctx.rivers
      → (i : ℕ) → i ≢ sock
      → IsReady [] (get_or (mt_disc_cb ctx links (pos sock)).0.rivers sock new_river)
        × (get_or (mt_disc_cb ctx links (pos sock)).0.rivers i new_river
            ≡ get_or ctx.rivers i new_river)
  unfolding mt_disc_cb reset_river
  disc-IsReady inside room i other =
      let r = renew (get_or ctx.rivers sock new_river) in
      let there : sock < length ctx.rivers = omega (arith, inside, room) in
      let kept = get_or-set ctx.rivers sock i r new_river there in
      let is_renewed : get_or (set ctx.rivers sock r) sock new_river ≡ r =
        ground (arith, get_or-set ctx.rivers sock sock r new_river there) in
      let in_array : ltb sock ctx.nrivers ≡ true = lt→ltb sock ctx.nrivers inside in
      rw (in_array) (subst (IsReady []) (sym is_renewed) refl, ground (arith, kept, other))

  -- With a well-formed table of descriptors: after the loss of a connection whose descriptor is not 0
  -- and stood for an endpoint, it stands for none any more, and the endpoint is closed, without a
  -- socket.
  pub disc-closed :
      IsValid links.fd2ep
      → sock ≢ 0
      → (p : ℕ) → lookup links.fd2ep (num sock) ≡ some p
      → p < length links.eps
      → (lookup (mt_disc_cb ctx links (pos sock)).1.fd2ep (num sock) ≡ none)
        × ((ep_at (mt_disc_cb ctx links (pos sock)).1 p).open_now ≡ false)
        × ((ep_at (mt_disc_cb ctx links (pos sock)).1 p).nn_sock ≡ negsuc 0)
  unfolding mt_disc_cb close_fd fd2ep_del rmr_sym_ndel
  disc-closed valid set p e room =
      let (found, same, valid') = pull-lookup links.fd2ep valid sock set in
      let (_, gone) = lookup-del (rmr_sym_pull links.fd2ep sock).1 valid' (num sock) set in
      ground (
        arith,
        found,
        e,
        gone (num sock) set,
        key_eq_refl (num sock),
        get_or-set links.eps p p
            (record (get_or links.eps p no_endpoint) { open_now = false; nn_sock = negsuc 0 })
            no_endpoint room,
      )

-- After the loss of a connection whose descriptor is in the array, at whatever place of a message,
-- the messages of a new stream on that descriptor are passed on, all and each whole, however the
-- stream is cut; the rivers of all other descriptors are as they were. The sizes are from 9 up.
pub disc-Delivers :
    (ctx : Ctx) (links : Links) (sock : ℕ)
    → sock < ctx.nrivers
    → ctx.nrivers ≤ length ctx.rivers
    → (max_ibm : ℕ) (cs ms : List (List ℕ)) (l : List ℕ) → AllFrames ms
    → IsPartial l
    → concat cs ≡ concat ms ++ l
    → let ctx' = (mt_disc_cb ctx links (pos sock)).0 in
      ((raws : List Raw) × (r' : River) × (river_run max_ibm (get_or ctx'.rivers sock new_river) cs
          ≡ done raws r')
        × Carry raws ms
        × IsReady l r')
      × ((i : ℕ) → i ≢ sock → get_or ctx'.rivers i new_river ≡ get_or ctx.rivers i new_river)
disc-Delivers ctx links sock inside room max_ibm cs ms l frames part e =
    let ctx' = (mt_disc_cb ctx links (pos sock)).0 in
    let apart : sock + 1 ≢ sock = omega arith in
    let (ready, _) = disc-IsReady ctx links sock inside room (sock + 1) apart in
    (
      run-Delivers max_ibm cs ms l [] (get_or ctx'.rivers sock new_river) ready frames part e,
      λ i other. (disc-IsReady ctx links sock inside room i other).1,
    )
