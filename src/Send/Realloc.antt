-- ===== src/Send/Realloc.antt =====
-- sr_si_static.c: `realloc_msg` and `realloc_payload`. As for a clone, what lies past the end of a
-- buffer is read as nothing and is not written, and memory is available.
use ric_plt_lib_rmr.Base.{
  ℕ, ◌+◌, ◌-◌, ◌%◌, ◌^◌, Bool, false, not, ◌&&◌, Option, none, some, List, take, drop, ◌==◌,
  if◌then◌else◌,
}
use ric_plt_lib_rmr.Base.Int.{ℤ, pos, negsuc, signed32, ltb_ℤ}
use ric_plt_lib_rmr.River.{Raw, net32}
use ric_plt_lib_rmr.River.Length.{insert_mlen}
use ric_plt_lib_rmr.Receive.{
  tp_hdr_len, at_len0, rmr_hdr_len, data1_addr, MsgState, alloc_mbuf, ref_tpbuf,
}
use ric_plt_lib_rmr.Send.Message.{SendState, Msg, put32, put_bytes, bytes_of, sizeof_mhdr}
use ric_plt_lib_rmr.Send.Clone.{raw_of, payload_addr}

-- DATA2_ADDR, as an offset in the buffer
unfoldable pub data2_addr : Raw → ℕ
data2_addr m =
    tp_hdr_len
    + (net32 m.bytes at_len0 + net32 m.bytes (at_len0 + 4) + net32 m.bytes (at_len0 + 8)) % 2 ^ 32

-- an area of the old message that is copied into the new one
abbrev copy_area : (Raw → ℕ) → ℕ → Msg → Msg → Msg
copy_area addr n old nm = record nm {
  tp_buf = put_bytes nm.tp_buf (addr (raw_of nm)) (take n (drop (addr (raw_of old)) old.tp_buf));
}

-- the size of the new message, without the transport header
abbrev pub new_len : Msg → ℕ → ℕ
new_len m tr_len = m.alloc_len + tr_len - net32 m.tp_buf (at_len0 + 4)

-- The header in a new buffer, with the new trace length.
unfoldable pub with_trace_len : (ℕ → List ℕ) → Msg → ℕ → List ℕ
with_trace_len garbage m tr_len =
    let tpb_len = new_len m tr_len + tp_hdr_len in
    let buf = insert_mlen tpb_len (garbage tpb_len) in
    put32 (put_bytes buf tp_hdr_len (take sizeof_mhdr (drop tp_hdr_len m.tp_buf))) (at_len0 + 4)
      tr_len

-- A message with another trace length; its trace area holds what the memory did.
unfoldable pub realloc_msg : (ℕ → List ℕ) → Msg → ℕ → Msg
realloc_msg garbage m tr_len =
    let h = record m {
      tp_buf = with_trace_len garbage m tr_len;
      alloc_len = new_len m tr_len;
      rts_fd = pos 0;
    } in
    let d1 = copy_area data1_addr (net32 h.tp_buf (at_len0 + 8)) m h in
    let d2 = copy_area data2_addr (net32 d1.tp_buf (at_len0 + 12)) m d1 in
    record d2 {
      tp_buf =
          put_bytes d2.tp_buf (payload_addr d2) (bytes_of m.len (drop (payload_addr m) m.tp_buf));
    }

-- the room for a payload, an `int`
abbrev pub payload_size : Msg → ℤ
payload_size m =
    signed32 ((m.alloc_len + 2 ^ 32 + 2 ^ 32 - (rmr_hdr_len (raw_of m) + tp_hdr_len)) % 2 ^ 32)

-- rmr_payload_size, for a message with a header
unfoldable rmr_payload_size : Msg → ℤ
rmr_payload_size m = payload_size m

-- a size that is not negative
abbrev pub natural : ℤ → ℕ
natural (pos n) = n
natural (negsuc n) = 0

-- The buffer with the old header, and the old payload too if it is copied. The old room for a payload
-- is not negative.
unfoldable pub with_payload : (ℕ → List ℕ) → Msg → ℕ → Bool → List ℕ
with_payload garbage m mlen copy =
    let hdr = rmr_hdr_len (raw_of m) in
    let n = if copy then natural (payload_size m) + hdr else hdr in
    put_bytes (put32 (garbage mlen) at_len0 sizeof_mhdr) tp_hdr_len
      (take n (drop tp_hdr_len m.tp_buf))

abbrev state_of : MsgState → SendState
state_of MsgState.rmr_ok = SendState.rmr_ok
state_of MsgState.rmr_err_trunc = SendState.rmr_err_trunc
state_of MsgState.rmr_err_unset = SendState.rmr_err_unset

-- What `ref_tpbuf` makes of the new buffer. A clone has no flags of the old message.
abbrev with_ref : Msg → List ℕ → ℕ → Bool → Bool → Msg
with_ref m buf mlen copy clone =
    let r = ref_tpbuf (alloc_mbuf (record { bytes = buf; nbytes = mlen }) 0 false) mlen in
    record {
      state = state_of r.state;
      mtype = if copy then m.mtype else negsuc 0;
      sub_id = if copy then m.sub_id else negsuc 0;
      len = if copy then m.len else pos 0;
      tp_buf = buf;
      alloc_len = mlen;
      rts_fd = m.rts_fd;
      noalloc = if clone then false else m.noalloc;
      addsrc = if clone then false else m.addsrc;
    }

-- The message is given back as it is if it is not to be cloned and its payload has the room; `none`
-- is nil, for a size that is not positive. A clone leaves the old message alone.
unfoldable realloc_payload : (ℕ → List ℕ) → Msg → ℤ → Bool → Bool → Option Msg
realloc_payload garbage m (negsuc n) copy clone = none
realloc_payload garbage m (pos n) copy clone =
    let old = payload_size m in
    let mlen =
      rmr_hdr_len (raw_of m) + tp_hdr_len + (if ltb_ℤ old (pos n) then n else natural old) in
    if n == 0
    then none
    else if not clone && not (ltb_ℤ old (pos n))
    then some m
    else some (with_ref m (with_payload garbage m mlen copy) mlen copy clone)
