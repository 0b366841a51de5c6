-- ===== src/Mbuf/Tests.antt =====
-- mbuf_api.c: trace data that is set on a message with a full buffer.
use ric_plt_lib_rmr.Base.{
  ℕ, ◌+◌, ◌<◌, ◌≡◌, refl, false, List, [], ◌∷◌, arith, length, length-replicate, replicate,
}
use ric_plt_lib_rmr.Base.Int.{pos, negsuc}
use ric_plt_lib_rmr.Receive.{tp_hdr_len, at_len0, rmr_hdr_len}
use ric_plt_lib_rmr.Mbuf.{rmr_get_trace}
use ric_plt_lib_rmr.Mbuf.Trace.{HasHeader, rmr_set_trace}
use ric_plt_lib_rmr.Mbuf.Traced.{set_trace-get_trace}
use ric_plt_lib_rmr.Mbuf.Truncated.{set_trace-truncates}
use ric_plt_lib_rmr.Send.Clone.{raw_of}
use ric_plt_lib_rmr.Send.Message.{SendState, Msg, put32, total_len}

abbrev msg : Msg
msg = record {
  state = SendState.rmr_ok;
  mtype = pos 12;
  sub_id = negsuc 0;
  len = pos 6;
  tp_buf = put32 (put32 (replicate 340 0) at_len0 280) (at_len0 + 8) 4;
  alloc_len = 340;
  rts_fd = negsuc 0;
  noalloc = false;
  addsrc = false;
}

abbrev zeros : ℕ → List ℕ
zeros n = replicate n 0

abbrev trace : List ℕ
trace = 8 ∷ 9 ∷ []

msg-HasHeader : HasHeader msg
unfolding put32
msg-HasHeader = record { len0 = refl; whole = omega arith }

set_trace-get_trace_example :
    let (m, n) = rmr_set_trace zeros msg (7 ∷ trace) (length (7 ∷ trace)) in
    (n ≡ length (7 ∷ trace)) × (rmr_get_trace m.tp_buf (length (7 ∷ trace)) ≡ 7 ∷ trace)
unfolding put32
set_trace-get_trace_example =
    set_trace-get_trace zeros msg 7 trace (λ k. length-replicate k 0) msg-HasHeader (omega arith)
      (omega arith) (omega arith) (omega arith)

set_trace-truncates_example :
    let m = (rmr_set_trace zeros msg (7 ∷ trace) (length (7 ∷ trace))).0 in
    (total_len m m.tp_buf ≡ pos msg.alloc_len)
    × (msg.alloc_len < 6 + rmr_hdr_len (raw_of m) + tp_hdr_len)
unfolding put32 rmr_hdr_len
set_trace-truncates_example =
    set_trace-truncates zeros msg 6 7 trace (λ k. length-replicate k 0) msg-HasHeader refl refl
      (omega arith) (omega arith) (omega arith)
