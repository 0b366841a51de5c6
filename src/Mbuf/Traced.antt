-- ===== src/Mbuf/Traced.antt =====
-- mbuf_api.c: trace data is read back.
use ric_plt_lib_rmr.Base.{
  ℕ, ◌+◌, ◌%◌, ◌^◌, ◌≤◌, ◌<◌, ◌≡◌, inl, inr, refl, ap, ◌∙◌, Bool-cases, List, ◌∷◌, arith, ltb, ◌==◌,
  if◌then◌else◌, length, take, drop, take-all,
}
use ric_plt_lib_rmr.Base.Int.{pos, signed32}
use ric_plt_lib_rmr.River.{net32}
use ric_plt_lib_rmr.Receive.{tp_hdr_len, at_len0}
use ric_plt_lib_rmr.Mbuf.{trace_addr, rmr_get_trace, copied}
use ric_plt_lib_rmr.Mbuf.Trace.{
  with_area, rmr_set_trace, HasHeader, put_bytes-cut, net32-put_bytes, base-words, realloc_msg-word,
  length-realloc_msg,
}
use ric_plt_lib_rmr.Send.Message.{Msg, put_bytes, sizeof_mhdr}
use ric_plt_lib_rmr.Send.Realloc.{new_len, realloc_msg}

asked : (n len : ℕ) → len ≡ n → n < 2 ^ 31 → (if ltb n len then pos n else signed32 len) ≡ pos n
asked n len e h = ground (arith, e)

-- Data that is put where the header says, in an area of its size, is read back.
put-get_trace :
    (buf trace : List ℕ)
    → net32 buf at_len0 ≡ sizeof_mhdr
    → net32 buf (at_len0 + 4) ≡ length trace
    → tp_hdr_len + sizeof_mhdr + length trace ≤ length buf
    → length trace < 2 ^ 31
    → rmr_get_trace (put_bytes buf (trace_addr buf) trace) (length trace) ≡ trace
unfolding rmr_get_trace copied
put-get_trace buf trace w0 w1 h small =
    let a = tp_hdr_len + sizeof_mhdr in
    let at : trace_addr buf ≡ a = omega (arith, w0) in
    let put = put_bytes buf a trace in
    let u0 = net32-put_bytes buf trace a at_len0 (omega arith) ∙ w0 in
    let u1 = net32-put_bytes buf trace a (at_len0 + 4) (omega arith) ∙ w1 in
    let there : trace_addr put ≡ a = omega (arith, u0) in
    ap (λ i. rmr_get_trace (put_bytes buf i trace) (length trace)) at
    ∙ ap (copied put)
        (asked (length trace) (net32 put (at_len0 + 4) % 2 ^ 32) (omega (arith, u1, small)) small)
    ∙ ap (λ i. take (length trace) (drop i put)) there
    ∙ put_bytes-cut buf trace a h

module _ (garbage : ℕ → List ℕ) (new : (k : ℕ) → length (garbage k) ≡ k) (m : Msg)
    (ok : HasHeader m) (size : ℕ) (small : size < 2 ^ 31)
    (areas : sizeof_mhdr + size + net32 m.tp_buf (at_len0 + 8) + net32 m.tp_buf (at_len0 + 12)
      < 2 ^ 32)
    (room : sizeof_mhdr + size ≤ new_len m size) where
  new_area-words :
      (net32 (realloc_msg garbage m size).tp_buf at_len0 ≡ sizeof_mhdr)
      × (net32 (realloc_msg garbage m size).tp_buf (at_len0 + 4) ≡ size)
  new_area-words =
      let (w0, w1, _, _) = base-words garbage new m ok size small room areas in
      let word = realloc_msg-word garbage new m ok size small room areas in
      (word at_len0 (omega arith) ∙ w0, word (at_len0 + 4) (omega arith) ∙ w1)

  -- the message has an area of the size
  with_area-words :
      tp_hdr_len + sizeof_mhdr + net32 m.tp_buf (at_len0 + 4) ≤ length m.tp_buf
      → let buf = (with_area garbage m size).tp_buf in
        (net32 buf at_len0 ≡ sizeof_mhdr)
        × (net32 buf (at_len0 + 4) ≡ size)
        × (tp_hdr_len + sizeof_mhdr + size ≤ length buf)
  unfolding with_area
  with_area-words old_room = elim (Bool-cases (net32 m.tp_buf (at_len0 + 4) == size)) [
    | inl y ↦ rw y (ok.len0, ground (arith, y), ground (arith, y, old_room))
    | inr n ↦ rw n (
      new_area-words.0,
      new_area-words.1,
      omega (arith, length-realloc_msg garbage new m ok size small room areas, room),
    )
  ]

-- Trace data that was set is read back whole, whether the message had an area of that size or gets a
-- new buffer; a message whose header and old areas, and the new trace data, have room.
pub set_trace-get_trace :
    (garbage : ℕ → List ℕ) (m : Msg) (b : ℕ) (bs : List ℕ)
    → ((k : ℕ) → length (garbage k) ≡ k)
    → HasHeader m
    → length (b ∷ bs) < 2 ^ 31
    → sizeof_mhdr + length (b ∷ bs) + net32 m.tp_buf (at_len0 + 8) + net32 m.tp_buf (at_len0 + 12)
      < 2 ^ 32
    → sizeof_mhdr + length (b ∷ bs) ≤ new_len m (length (b ∷ bs))
    → tp_hdr_len + sizeof_mhdr + net32 m.tp_buf (at_len0 + 4) ≤ length m.tp_buf
    → let (m', n) = rmr_set_trace garbage m (b ∷ bs) (length (b ∷ bs)) in
      (n ≡ length (b ∷ bs)) × (rmr_get_trace m'.tp_buf (length (b ∷ bs)) ≡ b ∷ bs)
unfolding rmr_set_trace
set_trace-get_trace garbage m b bs new ok small areas room old_room =
    let trace = b ∷ bs in
    let n = length trace in
    let buf = (with_area garbage m n).tp_buf in
    let (w0, w1, l) = with_area-words garbage new m ok n small areas room old_room in
    (
      refl,
      ap (λ t. rmr_get_trace (put_bytes buf (trace_addr buf) t) n) (take-all trace)
          ∙ put-get_trace buf trace w0 w1 l small,
    )
