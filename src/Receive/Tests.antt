-- ===== src/Receive/Tests.antt =====
-- mt_call_si_static.c and sr_si_static.c: the theorems at small messages.
use ric_plt_lib_rmr.Base.{
  ℕ, ◌+◌, ◌≤◌, ◌≢◌, get_or, ◌≡◌, refl, true, false, List, [], ◌∷◌, ◌++◌, arith, replicate,
}
use ric_plt_lib_rmr.Base.Int.{pos, negsuc}
use ric_plt_lib_rmr.Symtab.{SymTab, num, putin}
use ric_plt_lib_rmr.Symtab.Valid.{empty}
use ric_plt_lib_rmr.Endpoint.{Links, no_endpoint}
use ric_plt_lib_rmr.Ring.Tests.{counter, counter-IsSemaphore, wrapped, wrapped-Good}
use ric_plt_lib_rmr.River.{River, good, Raw}
use ric_plt_lib_rmr.Receive.{
  Ctx, no_chute, alloc_mbuf, ref_tpbuf, rmr_ok, too_long, payload_len, rmr_hdr_len, tp_hdr_len,
  queue_normal,
}
use ric_plt_lib_rmr.River.{done}
use ric_plt_lib_rmr.River.Stream.{Carry}
use ric_plt_lib_rmr.River.Chunks.{IsReady, river_run}
use ric_plt_lib_rmr.River.Tests.{
  first_message, second_message, chunks, messages-AllFrames, rest-IsPartial,
}
use ric_plt_lib_rmr.Receive.{new_river, mt_disc_cb}
use ric_plt_lib_rmr.Receive.Disconnect.{disc-Delivers}
use ric_plt_lib_rmr.Receive.Bounds.{accepted_bounds}
use ric_plt_lib_rmr.Receive.Deliver.{Queued, queue_normal-Queued}

-- A message of 280 bytes with the given payload length and flags, one byte of extra data, the call id
-- 2, and five bytes behind it.
abbrev message : List ℕ → ℕ → Raw
message plen flags = record {
  bytes =
      replicate 54 0
      ++ plen
      ++ replicate 184 0
      ++ (flags ∷ 0 ∷ 0 ∷ 0 ∷ [])
      ++ (0 ∷ 0 ∷ 0 ∷ 224 ∷ 0 ∷ 0 ∷ 0 ∷ 0 ∷ 0 ∷ 0 ∷ 0 ∷ 1 ∷ 0 ∷ 0 ∷ 0 ∷ 0 ∷ [])
      ++ (0 ∷ 0 ∷ 0 ∷ 9 ∷ [])
      ++ replicate 8 0
      ++ (2 ∷ 1 ∷ 1 ∷ 1 ∷ 1 ∷ 1 ∷ []);
  nbytes = 280;
}

abbrev plain : Raw
plain = message (0 ∷ 0 ∷ 0 ∷ 4 ∷ []) 0

abbrev call : Raw
call = message (0 ∷ 0 ∷ 0 ∷ 4 ∷ []) 4

abbrev huge_payload : Raw
huge_payload = message (255 ∷ 255 ∷ 255 ∷ 255 ∷ []) 0

accepted_bounds_example :
    ((ref_tpbuf (alloc_mbuf plain 5 false) 280).len ≡ pos (payload_len plain))
    × ((ref_tpbuf (alloc_mbuf plain 5 false) 280).state ≡ rmr_ok)
    × (tp_hdr_len + rmr_hdr_len plain + payload_len plain ≤ 280)
unfolding payload_len rmr_hdr_len too_long
accepted_bounds_example =
    accepted_bounds plain (alloc_mbuf plain 5 false) refl (omega arith) (omega arith) refl

abbrev ctx : Ctx
ctx = record {
  mbufs = [];
  mring = wrapped;
  chutes = replicate 4 no_chute;
  dcount = 0;
  acc_dcount = 0;
  acc_ecount = 1;
  last_warning = 0;
  max_ibm = 4096;
  rivers = [];
  nrivers = 0;
  river_hash = empty 129;
}

queue_normal-Queued_example :
    Queued counter counter-IsSemaphore 1000 ctx 3 (queue_normal counter 1000 ctx 3)
queue_normal-Queued_example =
    queue_normal-Queued counter counter-IsSemaphore 1000 ctx 3 wrapped-Good (omega arith)
      (omega arith) (omega arith)

-- descriptor 2 in the array, in the middle of a message, and open
abbrev in_stream : River
in_stream = record {
  state = good;
  accum = 10 ∷ 0 ∷ [];
  nbytes = 5120;
  ipt = 2;
  msg_size = negsuc 0;
}

abbrev connected : Ctx
connected = record ctx { rivers = in_stream ∷ in_stream ∷ in_stream ∷ []; nrivers = 3 }

abbrev fds : SymTab ℕ
fds = (putin true (empty 11) (num 2) 0).1

abbrev links : Links
links = record { eps = record no_endpoint { nn_sock = pos 2; open_now = true } ∷ []; fd2ep = fds }

disc-Delivers_example :
    let ctx' = (mt_disc_cb connected links (pos 2)).0 in
    ((raws : List Raw) × (r' : River) × (river_run 4096 (get_or ctx'.rivers 2 new_river) chunks
        ≡ done raws r')
      × Carry raws (first_message ∷ second_message ∷ [])
      × IsReady (12 ∷ []) r')
    × ((i : ℕ) → i ≢ 2 → get_or ctx'.rivers i new_river ≡ get_or connected.rivers i new_river)
disc-Delivers_example =
    disc-Delivers connected links 2 (omega arith) (omega arith) 4096 chunks
      (first_message ∷ second_message ∷ []) (12 ∷ []) messages-AllFrames rest-IsPartial refl
