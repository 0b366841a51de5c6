-- ===== src/Send/Tests.antt =====
-- sr_si_static.c: the theorems at a message of 5 bytes in a buffer of 340.
use ric_plt_lib_rmr.Base.{
  ℕ, zero, suc, ◌+◌, ◌<◌, ◌≤◌, ◌≡◌, refl, true, false, Option, some, List, [], ◌∷◌, arith, length,
  replicate, take, get_or, length-replicate,
}
use ric_plt_lib_rmr.Base.Int.{pos, negsuc}
use ric_plt_lib_rmr.River.{extract_mlen}
use ric_plt_lib_rmr.River.Length.{insert_mlen}
use ric_plt_lib_rmr.Receive.{rmr_ok, at_len0, tp_hdr_len, rmr_hdr_len, alloc_mbuf, ref_tpbuf}
use ric_plt_lib_rmr.Send.Wire.{eagain, no_room, writable, Write, wrote, failed, System}
use ric_plt_lib_rmr.Send.Loop.{Looped}
use ric_plt_lib_rmr.Send.Message.{
  SendState, rmr_err_retry, Msg, Origin, put32, total_len, sent_buf, send_bytes, send_msg,
}
use ric_plt_lib_rmr.Send.Outcome.{whole_loop, send_loop_ends, Settled, send_msg-Settled}
use ric_plt_lib_rmr.Send.Blocked.{send_msg-part}
use ric_plt_lib_rmr.Send.Roundtrip.{IsSendable, send_bytes-received}
use ric_plt_lib_rmr.Send.Clone.{clone_msg}
use ric_plt_lib_rmr.Send.Copies.{clone_msg-same}
use ric_plt_lib_rmr.Send.Bound.{send_bytes_bound}

abbrev ctx : Origin
ctx = record {
  my_name = b'm' ∷ b':' ∷ b'1' ∷ [];
  my_ip = b'1' ∷ b':' ∷ b'1' ∷ [];
  trace_data_len = 0;
  d1_len = 4;
  d2_len = 0;
  max_plen = 64;
}

abbrev msg : Msg
msg = record {
  state = SendState.rmr_ok;
  mtype = pos 12;
  sub_id = negsuc 0;
  len = pos 5;
  tp_buf = put32 (put32 (replicate 340 0) at_len0 280) (at_len0 + 8) 4;
  alloc_len = 340;
  rts_fd = negsuc 0;
  noalloc = false;
  addsrc = false;
}

abbrev zeros : ℕ → List ℕ
zeros n = replicate n 0

-- no room twice, then all is taken
abbrev busy : ℕ → System
busy zero = record { session = true; poll = no_room; writes = λ i. wrote 0 }
busy (suc zero) = record { session = true; poll = no_room; writes = λ i. wrote 0 }
busy (suc (suc _)) = record { session = true; poll = writable; writes = λ i. wrote 1000 }

abbrev broken_writes : ℕ → Write
broken_writes zero = wrote 9
broken_writes (suc _) = failed eagain

-- ten bytes, then EAGAIN
abbrev broken : ℕ → System
broken _ = record { session = true; poll = writable; writes = broken_writes }

msg-IsSendable : IsSendable msg 5
unfolding put32 rmr_hdr_len
msg-IsSendable = record {
  len_is = refl;
  header = omega arith;
  fits = omega arith;
  there = omega arith;
  small = omega arith;
  mtype_fits = omega arith;
  sub_id_fits = omega arith;
}

send_bytes-received_example :
    let bytes = send_bytes ctx msg in
    let r =
      ref_tpbuf
        (alloc_mbuf (record { bytes = bytes; nbytes = length bytes }) 7 false)
        (length bytes) in
    (r.mtype ≡ pos 12)
    × (r.sub_id ≡ negsuc 0)
    × (r.len ≡ pos 5)
    × (r.state ≡ rmr_ok)
    × (length bytes ≡ 5 + rmr_hdr_len (record { bytes = msg.tp_buf; nbytes = 340 }) + tp_hdr_len)
    × (extract_mlen bytes ≡ length bytes)
send_bytes-received_example = send_bytes-received ctx msg 5 msg-IsSendable 7 false

send_msg-Settled_example :
    (r : Option Msg) × (wire : List ℕ) × (send_msg ctx zeros busy msg (pos 0) ≡ some (r, wire))
    × Settled ctx zeros msg r wire
send_msg-Settled_example = send_msg-Settled ctx zeros busy msg (pos 0)

send_loop_ends_example :
    (l : Looped) × (whole_loop busy (send_bytes ctx msg) (pos 0) ≡ some l)
    × (l.last < 100)
    × (l.blocked ≡ true → l.last + 1 ≡ 100)
send_loop_ends_example = send_loop_ends busy (send_bytes ctx msg) (pos 0)

send_bytes_bound_example : length (send_bytes ctx msg) ≤ 340
send_bytes_bound_example = send_bytes_bound ctx msg

long_enough : 10 < length (send_bytes ctx msg)
unfolding send_bytes total_len put32 rmr_hdr_len insert_mlen
long_enough = omega arith

send_msg-part_example :
    send_msg ctx zeros broken msg (pos 1)
    ≡ some (
      some (record msg { tp_buf = sent_buf ctx msg; state = rmr_err_retry }),
      take 10 (send_bytes ctx msg),
    )
send_msg-part_example = send_msg-part ctx zeros broken msg (pos 1) 9 refl refl refl refl long_enough

clone_msg-same_example : get_or (clone_msg zeros msg).tp_buf 336 0 ≡ get_or msg.tp_buf 336 0
unfolding ric_plt_lib_rmr.Send.Clone.header_copied put32 rmr_hdr_len
clone_msg-same_example =
    clone_msg-same zeros (λ k. length-replicate k 0) msg 5 msg-IsSendable refl (omega arith) 336
      (omega arith) (omega arith)
