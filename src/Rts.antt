-- ===== src/Rts.antt =====
-- src/rmr/si/src/rmr_si.c: rmr_rts_msg, the return of a message to its sender. The message is not nil
-- and has a header.
pub mod Names
pub mod Room
pub mod Source
mod Tests
use ric_plt_lib_rmr.Base.{
  ℕ, ◌+◌, ◌-◌, ◌*◌, ◌/◌, ◌%◌, Bool, true, false, Option, none, some, List, ltb, ◌==◌, if◌then◌else◌,
  get_or, set,
}
use ric_plt_lib_rmr.Base.Int.{ℤ, pos, negsuc}
use ric_plt_lib_rmr.River.{net32}
use ric_plt_lib_rmr.Receive.{at_flags}
use ric_plt_lib_rmr.Route.{Store}
use ric_plt_lib_rmr.Route.Select.{Selected, uta_epsock_byname}
use ric_plt_lib_rmr.Mbuf.{c_string}
use ric_plt_lib_rmr.Send.Wire.{System}
use ric_plt_lib_rmr.Send.Message.{
  SendState, rmr_ok, rmr_err_noendpt, Msg, Origin, fill_src, at_src, at_srcip, at_rmr_ver,
  rmr_max_src, send_msg,
}
use ric_plt_lib_rmr.Fanout.{incr_ep_counts}

-- HFL_CALL_MSG taken off the flags
unfoldable pub no_call_flag : Msg → Msg
no_call_flag m =
    let b = get_or m.tp_buf at_flags 0 in
    record m { tp_buf = set m.tp_buf at_flags (b - 4 * (b / 4 % 2)) }

-- the descriptor to write to, if there is one, the endpoint, and the store
pub record Target : Type 0 where
  pub fd : Option ℤ
  pub ep : Option ℕ
  pub store : Store

-- the source and its address, as they stand in the header
abbrev pub src_of : Msg → List ℕ
src_of m = c_string rmr_max_src m.tp_buf at_src

abbrev pub srcip_of : Msg → List ℕ
srcip_of m = c_string rmr_max_src m.tp_buf at_srcip

-- what a search by name came to
unfoldable pub target_of : Selected → Target
target_of s = record { fd = if s.state == 0 then none else s.nn_sock; ep = s.uep; store = s.store }

-- Without the endpoint of the name, the connection that the message came by, or else the endpoint of
-- the address.
unfoldable pub fall_back : (List ℕ → ℤ) → Msg → ℤ → Target → Target
unfolding target_of
fall_back connect m (pos fd) t = record t { fd = some (pos fd) }
fall_back connect m (negsuc n) t =
    if ltb 2 (net32 m.tp_buf at_rmr_ver)
    then target_of (uta_epsock_byname connect t.store (srcip_of m))
    else t

unfoldable pub find_target : (List ℕ → ℤ) → Store → Msg → Target
unfolding target_of fall_back
find_target connect s m =
    let t = target_of (uta_epsock_byname connect s (src_of m)) in
    elim t.fd [ some _ ↦ t | none ↦ fall_back connect m m.rts_fd t ]

-- The message with our name as its source.
unfoldable pub from_us : Origin → Msg → Msg
from_us ctx m = record m { state = rmr_ok; tp_buf = fill_src m.tp_buf at_src ctx.my_name }

-- The message that came back from the send, with the source that it had before.
unfoldable pub restored : List ℕ → List ℕ → Msg → Msg
restored src ip m = record m {
  tp_buf = fill_src (fill_src m.tp_buf at_src src) at_srcip ip;
  addsrc = true;
}

-- What the caller gets, the store, and what went out to which descriptor.
pub record Returned : Type 0 where
  pub msg : Option Msg
  pub store : Store
  pub wire : Option (ℤ × List ℕ)

-- after the send of `m`
unfoldable pub after_rts : Msg → Target → ℤ → Option (Option Msg × List ℕ) → Option Returned
unfolding restored
after_rts m t fd none = none
after_rts m t fd (some (none, w)) =
    some (record { msg = none; store = t.store; wire = some (fd, w) })
after_rts m t fd (some (some r, w)) = some (record {
  msg = some (restored (src_of m) (srcip_of m) r);
  store = record t.store { links = incr_ep_counts r.state t.ep t.store.links };
  wire = some (fd, w);
})

module _ (connect : List ℕ → ℤ) (ctx : Origin) (garbage : ℕ → List ℕ) (os : ℕ → System) where
  -- with the descriptor that was found
  unfoldable pub rts_to : Msg → Target → Option ℤ → Option Returned
  unfolding after_rts from_us
  rts_to m t none =
      some
        (record { msg = some (record m { state = rmr_err_noendpt }); store = t.store; wire = none })
  rts_to m t (some fd) = after_rts m t fd (send_msg ctx garbage os (from_us ctx m) (negsuc 0))

  unfoldable pub rmr_rts_msg : Store → Msg → Option Returned
  unfolding rts_to no_call_flag find_target
  rmr_rts_msg s msg = let m = no_call_flag msg in let t = find_target connect s m in rts_to m t t.fd
