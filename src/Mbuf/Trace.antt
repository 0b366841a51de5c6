-- ===== src/Mbuf/Trace.antt =====
-- mbuf_api.c: rmr_set_trace, and what is read back and sent afterwards.
use ric_plt_lib_rmr.Base.{
  ℕ, zero, suc, [], ◌∷◌, ◌+◌, ◌-◌, ◌^◌, ◌≤◌, ◌<◌, ◌≡◌, ◌⊎◌, inl, inr, refl, sym, ap, ◌∙◌, List,
  arith, ◌==◌, if◌then◌else◌, length, get_or, take, drop,
}
use ric_plt_lib_rmr.Base.Int.{pos}
use ric_plt_lib_rmr.River.{net32}
use ric_plt_lib_rmr.River.Length.{insert_mlen}
use ric_plt_lib_rmr.Receive.{tp_hdr_len, at_len0, rmr_hdr_len, data1_addr}
use ric_plt_lib_rmr.Mbuf.{trace_addr}
use ric_plt_lib_rmr.Send.Message.{Msg, put_bytes, bytes_of, sizeof_mhdr}
use ric_plt_lib_rmr.Send.Clone.{raw_of, payload_addr}
use ric_plt_lib_rmr.Send.Header.{
  net32-same, get_or-put_bytes, put_bytes-at, length-put_bytes, length-put32, get_or-put32,
  net32-put32,
}
use ric_plt_lib_rmr.Send.Roundtrip.{length-size}
use ric_plt_lib_rmr.Send.Copies.{get_or-part, length-part}
use ric_plt_lib_rmr.Send.Realloc.{data2_addr, new_len, with_trace_len, realloc_msg}

-- The message with a trace area of a size: if it has another then it gets the buffer of a new one, and
-- keeps its allocated length.
unfoldable pub with_area : (ℕ → List ℕ) → Msg → ℕ → Msg
with_area garbage m size =
    if net32 m.tp_buf (at_len0 + 4) == size
    then m
    else record m { tp_buf = (realloc_msg garbage m size).tp_buf }

-- The trace data is put where the header says, and its size returned.
unfoldable pub rmr_set_trace : (ℕ → List ℕ) → Msg → List ℕ → ℕ → Msg × ℕ
rmr_set_trace garbage m trace zero = (m, 0)
rmr_set_trace garbage m trace (suc n) =
    let m' = with_area garbage m (suc n) in
    (record m' { tp_buf = put_bytes m'.tp_buf (trace_addr m'.tp_buf) (take (suc n) trace) }, suc n)

list-ext :
    (xs ys : List ℕ)
    → length xs ≡ length ys
    → ((k : ℕ) → k < length xs → get_or xs k 0 ≡ get_or ys k 0)
    → xs ≡ ys
list-ext [] [] e h = refl
list-ext [] (y ∷ ys) e h = absurd (omega (arith, e))
list-ext (x ∷ xs) [] e h = absurd (omega (arith, e))
list-ext (x ∷ xs) (y ∷ ys) e h =
    let tail = list-ext xs ys (omega (arith, e)) (λ k l. h (suc k) (omega (arith, l))) in
    ap (λ v. v ∷ xs) (h 0 (omega arith)) ∙ ap (◌∷◌ y) tail

-- Bytes that are put are cut out again.
pub put_bytes-cut :
    (buf bs : List ℕ) (i : ℕ)
    → i + length bs ≤ length buf
    → take (length bs) (drop i (put_bytes buf i bs)) ≡ bs
put_bytes-cut buf bs i h =
    let l =
      length-part (length bs) i (put_bytes buf i bs)
        (omega (arith, length-put_bytes buf bs i, h)) in
    list-ext (take (length bs) (drop i (put_bytes buf i bs))) bs l (λ k r.
      let inside : k < length bs = omega (arith, l, r) in
      get_or-part (length bs) i k (put_bytes buf i bs) inside ∙ put_bytes-at buf bs i k h inside)

-- A word below the place where bytes are put stays.
pub net32-put_bytes :
    (buf bs : List ℕ) (i w : ℕ) → w + 4 ≤ i → net32 (put_bytes buf i bs) w ≡ net32 buf w
net32-put_bytes buf bs i w h =
    net32-same (put_bytes buf i bs) buf w
      (λ j l r. get_or-put_bytes buf bs i j (inl (omega (arith, h, r))))

-- A message with a whole header in its buffer.
pub record HasHeader (m : Msg) : Type 0 where
  pub len0 : net32 m.tp_buf at_len0 ≡ sizeof_mhdr
  pub whole : tp_hdr_len + sizeof_mhdr ≤ length m.tp_buf

module _ (garbage : ℕ → List ℕ) (new : (k : ℕ) → length (garbage k) ≡ k) (m : Msg)
    (ok : HasHeader m) (size : ℕ) (small : size < 2 ^ 31)
    (room : sizeof_mhdr + size ≤ new_len m size) where
  abbrev pub base : List ℕ
  base = with_trace_len garbage m size

  abbrev sized : List ℕ
  sized = insert_mlen (new_len m size + tp_hdr_len) (garbage (new_len m size + tp_hdr_len))

  abbrev front : List ℕ
  front = take sizeof_mhdr (drop tp_hdr_len m.tp_buf)

  length-front : length front ≡ sizeof_mhdr
  length-front = length-part sizeof_mhdr tp_hdr_len m.tp_buf (omega (arith, ok.whole))

  length-sized : length sized ≡ new_len m size + tp_hdr_len
  length-sized =
      let n = new_len m size + tp_hdr_len in
      length-size n (garbage n) (omega (arith, new n, room)) ∙ new n

  length-base : length base ≡ new_len m size + tp_hdr_len
  unfolding with_trace_len
  length-base =
      length-put32 (put_bytes sized tp_hdr_len front) (at_len0 + 4) size
      ∙ length-put_bytes sized front tp_hdr_len
      ∙ length-sized

  -- the words of the header but for the trace length
  base-word :
      (w : ℕ)
      → at_len0 ≤ w
      → w + 4 ≤ tp_hdr_len + sizeof_mhdr
      → (w + 4 ≤ at_len0 + 4) ⊎ (at_len0 + 8 ≤ w)
      → net32 base w ≡ net32 m.tp_buf w
  unfolding with_trace_len
  base-word w low high away = net32-same base m.tp_buf w (λ j l r.
      let k = j - tp_hdr_len in
      let at : j ≡ tp_hdr_len + k = omega (arith, low, l) in
      let inside : k < sizeof_mhdr = omega (arith, low, l, r, high) in
      get_or-put32 (put_bytes sized tp_hdr_len front) (at_len0 + 4) size j
        (elim away [ inl a ↦ inl (omega (arith, a, r)) | inr a ↦ inr (omega (arith, a, l)) ])
      ∙ ap (λ i. get_or (put_bytes sized tp_hdr_len front) i 0) at
      ∙ put_bytes-at sized front tp_hdr_len k (omega (arith, length-front, length-sized, room))
          (omega (arith, length-front, inside))
      ∙ get_or-part sizeof_mhdr tp_hdr_len k m.tp_buf inside
      ∙ ap (λ i. get_or m.tp_buf i 0) (sym at))

  base-trace : net32 base (at_len0 + 4) ≡ size
  unfolding with_trace_len
  base-trace =
      net32-put32 (put_bytes sized tp_hdr_len front) (at_len0 + 4) size
        (omega (arith, length-put_bytes sized front tp_hdr_len, length-sized, room))
        (omega (arith, small))

  module _
      (areas : sizeof_mhdr + size + net32 m.tp_buf (at_len0 + 8) + net32 m.tp_buf (at_len0 + 12)
        < 2 ^ 32) where
    -- the four words of the header in the base
    pub base-words :
        (net32 base at_len0 ≡ sizeof_mhdr)
        × (net32 base (at_len0 + 4) ≡ size)
        × (net32 base (at_len0 + 8) ≡ net32 m.tp_buf (at_len0 + 8))
        × (net32 base (at_len0 + 12) ≡ net32 m.tp_buf (at_len0 + 12))
    base-words = (
      base-word at_len0 (omega arith) (omega arith) (inl (omega arith)) ∙ ok.len0,
      base-trace,
      base-word (at_len0 + 8) (omega arith) (omega arith) (inr (omega arith)),
      base-word (at_len0 + 12) (omega arith) (omega arith) (inr (omega arith)),
    )

    -- The words of the header are not touched by what is copied behind it.
    pub realloc_msg-word :
        (w : ℕ)
        → w + 4 ≤ tp_hdr_len + sizeof_mhdr
        → net32 (realloc_msg garbage m size).tp_buf w ≡ net32 base w
    unfolding realloc_msg data1_addr data2_addr payload_addr rmr_hdr_len
    realloc_msg-word w high =
        let (w0, w1, w2, w3) = base-words in
        let h = record m { tp_buf = base; alloc_len = new_len m size; rts_fd = pos 0 } in
        let x1 = take (net32 base (at_len0 + 8)) (drop (data1_addr (raw_of m)) m.tp_buf) in
        let a1 = data1_addr (raw_of h) in
        let b1 = put_bytes base a1 x1 in
        let low1 : tp_hdr_len + sizeof_mhdr ≤ a1 = omega (arith, w0, w1, areas) in
        let same1 : (v : ℕ) → v + 4 ≤ tp_hdr_len + sizeof_mhdr → net32 b1 v ≡ net32 base v =
          λ v l. net32-put_bytes base x1 a1 v (omega (arith, l, low1)) in
        let d1 = record h { tp_buf = b1 } in
        let x2 = take (net32 b1 (at_len0 + 12)) (drop (data2_addr (raw_of m)) m.tp_buf) in
        let a2 = data2_addr (raw_of d1) in
        let low2 : tp_hdr_len + sizeof_mhdr ≤ a2 = omega (
          arith,
          w0,
          w1,
          w2,
          areas,
          same1 at_len0 (omega arith),
          same1 (at_len0 + 4) (omega arith),
          same1 (at_len0 + 8) (omega arith),
        ) in
        let b2 = put_bytes b1 a2 x2 in
        let same2 : (v : ℕ) → v + 4 ≤ tp_hdr_len + sizeof_mhdr → net32 b2 v ≡ net32 base v =
          λ v l. net32-put_bytes b1 x2 a2 v (omega (arith, l, low2)) ∙ same1 v l in
        let d2 = record d1 { tp_buf = b2 } in
        let a3 = payload_addr d2 in
        let low3 : tp_hdr_len + sizeof_mhdr ≤ a3 = omega (
          arith,
          w0,
          w1,
          w2,
          w3,
          areas,
          same2 at_len0 (omega arith),
          same2 (at_len0 + 4) (omega arith),
          same2 (at_len0 + 8) (omega arith),
          same2 (at_len0 + 12) (omega arith),
        ) in
        let x3 = bytes_of m.len (drop (payload_addr m) m.tp_buf) in
        net32-put_bytes b2 x3 a3 w (omega (arith, high, low3)) ∙ same2 w high

    pub length-realloc_msg :
        length (realloc_msg garbage m size).tp_buf ≡ new_len m size + tp_hdr_len
    unfolding realloc_msg
    length-realloc_msg =
        length-put_bytes _ _ _ ∙ length-put_bytes _ _ _ ∙ length-put_bytes _ _ _ ∙ length-base
