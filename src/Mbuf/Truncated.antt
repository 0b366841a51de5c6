-- ===== src/Mbuf/Truncated.antt =====
-- mbuf_api.c: what becomes of a full message whose buffer was exchanged.
use mathlib.Core.Path.{subst}
use ric_plt_lib_rmr.Base.{
  ℕ, ◌+◌, ◌%◌, ◌^◌, ◌≤◌, ◌<◌, ◌≡◌, sym, ap, ◌∙◌, false, List, ◌∷◌, arith, ◌==◌, if◌then◌else◌,
  length, take, take-all,
}
use ric_plt_lib_rmr.Base.Int.{ℤ, pos, signed32, ltb_ℤ}
use ric_plt_lib_rmr.River.{net32}
use ric_plt_lib_rmr.Receive.{tp_hdr_len, at_len0, rmr_hdr_len}
use ric_plt_lib_rmr.Route.{pattern32}
use ric_plt_lib_rmr.Mbuf.{trace_addr}
use ric_plt_lib_rmr.Mbuf.Trace.{
  with_area, rmr_set_trace, HasHeader, net32-put_bytes, base-words, realloc_msg-word,
}
use ric_plt_lib_rmr.Send.Message.{Msg, put_bytes, sizeof_mhdr, total_len}
use ric_plt_lib_rmr.Send.Clone.{raw_of}
use ric_plt_lib_rmr.Send.Realloc.{new_len, with_trace_len, realloc_msg}

too_big :
    (len : ℤ) (n hdr alloc : ℕ)
    → len ≡ pos n
    → n + hdr + tp_hdr_len < 2 ^ 31
    → alloc < n + hdr + tp_hdr_len
    → (if ltb_ℤ (pos alloc) (signed32 ((pattern32 len + hdr + tp_hdr_len) % 2 ^ 32))
        then pos alloc
        else signed32 ((pattern32 len + hdr + tp_hdr_len) % 2 ^ 32))
      ≡ pos alloc
too_big len n hdr alloc e h k = rw e (ground arith)

-- the message with trace data put into its area
abbrev traced : Msg → List ℕ → Msg
traced m trace = record m { tp_buf = put_bytes m.tp_buf (trace_addr m.tp_buf) trace }

-- A message of which less than its `n` bytes of payload is sent, for it counts as too long.
abbrev CutShort : Msg → ℕ → Msg → Type 0
CutShort m n m' =
    (total_len m' m'.tp_buf ≡ pos m.alloc_len)
    × (m.alloc_len < n + rmr_hdr_len (raw_of m') + tp_hdr_len)

module _ (garbage : ℕ → List ℕ) (m : Msg) (n : ℕ) (trace : List ℕ)
    (new : (k : ℕ) → length (garbage k) ≡ k) (ok : HasHeader m) (len : m.len ≡ pos n)
    (full : n + rmr_hdr_len (raw_of m) + tp_hdr_len ≡ m.alloc_len)
    (longer : net32 m.tp_buf (at_len0 + 4) < length trace)
    (small : m.alloc_len + length trace < 2 ^ 31)
    (areas : sizeof_mhdr
        + net32 m.tp_buf (at_len0 + 4)
        + net32 m.tp_buf (at_len0 + 8)
        + net32 m.tp_buf (at_len0 + 12)
      < 2 ^ 32) where
  abbrev buf : List ℕ
  buf = (realloc_msg garbage m (length trace)).tp_buf

  abbrev after : Msg
  after = traced (record m { tp_buf = buf }) trace

  old_hdr :
      rmr_hdr_len (raw_of m)
      ≡ sizeof_mhdr
        + net32 m.tp_buf (at_len0 + 4)
        + net32 m.tp_buf (at_len0 + 8)
        + net32 m.tp_buf (at_len0 + 12)
  unfolding rmr_hdr_len
  old_hdr = omega (arith, ok.len0, areas)

  new_areas :
      sizeof_mhdr + length trace + net32 m.tp_buf (at_len0 + 8) + net32 m.tp_buf (at_len0 + 12)
      < 2 ^ 32
  new_areas = omega (arith, old_hdr, full, small)

  new_room : sizeof_mhdr + length trace ≤ new_len m (length trace)
  new_room = omega (arith, old_hdr, full)

  after-word :
      (w : ℕ)
      → w + 4 ≤ tp_hdr_len + sizeof_mhdr
      → net32 after.tp_buf w ≡ net32 (with_trace_len garbage m (length trace)) w
  after-word w h =
      let word =
        realloc_msg-word garbage new m ok (length trace) (omega (arith, small)) new_room
          new_areas in
      let (w0, _, _, _) =
        base-words garbage new m ok (length trace) (omega (arith, small)) new_room new_areas in
      net32-put_bytes buf trace (trace_addr buf) w
        (omega (arith, h, word at_len0 (omega arith), w0))
      ∙ word w h

  new_hdr :
      rmr_hdr_len (raw_of after)
      ≡ sizeof_mhdr + length trace + net32 m.tp_buf (at_len0 + 8) + net32 m.tp_buf (at_len0 + 12)
  unfolding rmr_hdr_len
  new_hdr =
      let (w0, w1, w2, w3) =
        base-words garbage new m ok (length trace) (omega (arith, small)) new_room new_areas in
      omega (
        arith,
        new_areas,
        w0,
        w1,
        w2,
        w3,
        after-word at_len0 (omega arith),
        after-word (at_len0 + 4) (omega arith),
        after-word (at_len0 + 8) (omega arith),
        after-word (at_len0 + 12) (omega arith),
      )

  after-CutShort : CutShort m n after
  unfolding total_len
  after-CutShort =
      let cut : m.alloc_len < n + rmr_hdr_len (raw_of after) + tp_hdr_len =
        omega (arith, old_hdr, new_hdr, full, longer) in
      (
        too_big m.len n (rmr_hdr_len (raw_of after)) m.alloc_len len
            (omega (arith, old_hdr, new_hdr, full, small)) cut,
        cut,
      )

-- A message that is full, its header, areas and payload as long as what was allocated: when it gets
-- longer trace data, its allocated length stays, and it is sent without the end of its payload.
pub set_trace-truncates :
    (garbage : ℕ → List ℕ) (m : Msg) (n b : ℕ) (bs : List ℕ)
    → ((k : ℕ) → length (garbage k) ≡ k)
    → HasHeader m
    → m.len ≡ pos n
    → n + rmr_hdr_len (raw_of m) + tp_hdr_len ≡ m.alloc_len
    → net32 m.tp_buf (at_len0 + 4) < length (b ∷ bs)
    → m.alloc_len + length (b ∷ bs) < 2 ^ 31
    → sizeof_mhdr
        + net32 m.tp_buf (at_len0 + 4)
        + net32 m.tp_buf (at_len0 + 8)
        + net32 m.tp_buf (at_len0 + 12)
      < 2 ^ 32
    → let m' = (rmr_set_trace garbage m (b ∷ bs) (length (b ∷ bs))).0 in
      (total_len m' m'.tp_buf ≡ pos m.alloc_len)
      × (m.alloc_len < n + rmr_hdr_len (raw_of m') + tp_hdr_len)
unfolding rmr_set_trace with_area
set_trace-truncates garbage m n b bs new ok len full longer small areas =
    let trace = b ∷ bs in
    let other : (net32 m.tp_buf (at_len0 + 4) == length trace) ≡ false = ground (arith, longer) in
    let exchanged : with_area garbage m (length trace)
        ≡ record m { tp_buf = (realloc_msg garbage m (length trace)).tp_buf } =
      ap (λ c. if c then m else record m { tp_buf = (realloc_msg garbage m (length trace)).tp_buf })
        other in
    subst (λ x. CutShort m n (traced x (take (length trace) trace))) (sym exchanged)
      (subst
        (λ t.
          CutShort m n
            (traced (record m { tp_buf = (realloc_msg garbage m (length trace)).tp_buf }) t))
        (sym (take-all trace))
        (after-CutShort garbage m n trace new ok len full longer small areas))
