-- ===== src/Wormhole/Tests.antt =====
-- wormholes.c: the theorems at a context with one wormhole.
use ric_plt_lib_rmr.Base.{ℕ, ◌≡◌, refl, true, false, replicate, none, some, List, [], ◌∷◌}
use ric_plt_lib_rmr.Base.Int.{ℤ, pos, negsuc}
use ric_plt_lib_rmr.Symtab.{SymTab, find_ele, slot, hits, sym_hash, rmr_sym_get}
use ric_plt_lib_rmr.Symtab.Valid.{empty}
use ric_plt_lib_rmr.Endpoint.{ep_at, uta_link2, rt_link2_ep, has_char, fd2ep_add}
use ric_plt_lib_rmr.Route.{rt_ensure_ep, uta_get_ep}
use ric_plt_lib_rmr.Wormhole.{WhCtx, wh_init, find_hole, rmr_wh_open, wh_endpoint, hole_at, rmr_ok}
use ric_plt_lib_rmr.Wormhole.Open.{open-keeps}
use ric_plt_lib_rmr.Wormhole.Send.{Sent, without_call, rmr_wh_send_msg, wh_send_msg-Direct}
use ric_plt_lib_rmr.Send.Wire.{writable, wrote, System}
use ric_plt_lib_rmr.Send.Message.{SendState, Msg, Origin}
use ric_plt_lib_rmr.Send.Outcome.{Settled}

-- every connection gets descriptor 9
abbrev connects : List ℕ → ℤ
connects name = pos 9

abbrev no_table : SymTab ℕ
no_table = empty 11

abbrev no_wormhole : WhCtx
no_wormhole = record {
  wormholes = none;
  has_rtable = true;
  store = record { rtes = []; links = record { eps = []; fd2ep = no_table }; ephash = no_table };
}

-- "a:1" and "b:2"
abbrev first_target : List ℕ
first_target = b'a' ∷ b':' ∷ b'1' ∷ []

abbrev second_target : List ℕ
second_target = b'b' ∷ b':' ∷ b'2' ∷ []

abbrev one_wormhole : WhCtx
one_wormhole = (rmr_wh_open connects no_wormhole first_target).1

opens : (rmr_wh_open connects no_wormhole first_target).0 ≡ pos 0
unfolding rmr_wh_open wh_init find_hole rt_ensure_ep uta_get_ep rmr_sym_get find_ele slot sym_hash
    hits rt_link2_ep uta_link2 has_char fd2ep_add
opens = refl

is_held : wh_endpoint one_wormhole (pos 0) ≡ (rmr_ok, some 0)
unfolding wh_endpoint hole_at rmr_wh_open wh_init find_hole rt_ensure_ep uta_get_ep rmr_sym_get
    find_ele slot sym_hash hits rt_link2_ep uta_link2 has_char fd2ep_add
is_held = refl

open-keeps_example :
    wh_endpoint (rmr_wh_open connects one_wormhole second_target).1 (pos 0) ≡ (rmr_ok, some 0)
open-keeps_example = open-keeps connects one_wormhole second_target (pos 0) 0 is_held

abbrev origin : Origin
origin = record {
  my_name = b'm' ∷ b':' ∷ b'1' ∷ [];
  my_ip = b'1' ∷ b':' ∷ b'1' ∷ [];
  trace_data_len = 0;
  d1_len = 4;
  d2_len = 0;
  max_plen = 64;
}

abbrev msg : Msg
msg = record {
  state = SendState.rmr_ok;
  mtype = pos 12;
  sub_id = negsuc 0;
  len = pos 5;
  tp_buf = replicate 340 0;
  alloc_len = 340;
  rts_fd = negsuc 0;
  noalloc = false;
  addsrc = false;
}

abbrev zeros : ℕ → List ℕ
zeros n = replicate n 0

abbrev all_taken : ℕ → System
all_taken try = record { session = true; poll = writable; writes = λ i. wrote 1000 }

wh_send_msg-Direct_example :
    (r : Sent) × (rmr_wh_send_msg connects origin zeros all_taken one_wormhole (pos 0) msg ≡ some r)
    × (w : List ℕ) × (wh_endpoint r.ctx (pos 0) ≡ (rmr_ok, some 0))
    × (r.wire ≡ some ((ep_at r.ctx.store.links 0).nn_sock, w))
    × Settled origin zeros (without_call msg) r.msg w
wh_send_msg-Direct_example =
    wh_send_msg-Direct connects origin zeros all_taken one_wormhole (pos 0) msg 0 is_held
