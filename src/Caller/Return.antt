-- ===== src/Caller/Return.antt =====
-- rmr_si.c, mt_call_si_static.c: the way of a call and of its answer through `dispatch`.
use ric_plt_lib_rmr.Base.{
  ℕ, ◌+◌, ◌-◌, ◌*◌, ◌/◌, ◌%◌, ◌^◌, ◌≤◌, ◌<◌, ◌≡◌, ◌≢◌, ◌⊎◌, inl, inr, ◌∙◌, List, arith, length,
  get_or, set,
}
use ric_plt_lib_rmr.River.{net32}
use ric_plt_lib_rmr.Receive.{tp_hdr_len, at_flags, at_len0, data1_addr}
use ric_plt_lib_rmr.Mbuf.Trace.{HasHeader}
use ric_plt_lib_rmr.Send.Message.{Msg, sizeof_mhdr}
use ric_plt_lib_rmr.Send.Header.{get_or-other, net32-same}
use ric_plt_lib_rmr.Send.Clone.{raw_of}

net32-set : (xs : List ℕ) (i j v : ℕ) → (j < i) ⊎ (i + 4 ≤ j) → net32 (set xs j v) i ≡ net32 xs i
net32-set xs i j v h =
    net32-same (set xs j v) xs i (λ k l r. get_or-other xs j k v (ground (arith, h, l, r)))

-- A message with room for a call id.
pub record HasId (m : Msg) : Type 0 where
  pub header : HasHeader m
  pub small : sizeof_mhdr + net32 m.tp_buf (at_len0 + 4) < 2 ^ 32
  pub d1 : net32 m.tp_buf (at_len0 + 8) ≢ 0
  pub there : tp_hdr_len + sizeof_mhdr + net32 m.tp_buf (at_len0 + 4) < length m.tp_buf

module _ (m : Msg) (ok : HasId m) (id : ℕ) where
  abbrev a : ℕ
  a = tp_hdr_len + sizeof_mhdr + net32 m.tp_buf (at_len0 + 4)

  abbrev flags : ℕ
  flags = get_or m.tp_buf at_flags 0

  abbrev flagged : List ℕ
  flagged = set m.tp_buf at_flags (flags + 4 * (1 - flags / 4 % 2))

  data1-a : data1_addr (raw_of m) ≡ a
  unfolding data1_addr
  data1-a = omega (arith, ok.header.len0, ok.small)

  abbrev called : List ℕ
  called = set flagged (data1_addr (raw_of m)) (id % 2 ^ 8)

  -- a word of the lengths
  word :
      (i : ℕ)
      → at_flags + 4 ≤ i
      → i + 4 ≤ tp_hdr_len + sizeof_mhdr
      → net32 called i ≡ net32 m.tp_buf i
  word i low high =
      net32-set flagged i (data1_addr (raw_of m)) (id % 2 ^ 8) (inr (omega (arith, data1-a, high)))
      ∙ net32-set m.tp_buf i at_flags _ (inl (omega (arith, low)))

  addr-called : data1_addr (record { bytes = called; nbytes = m.alloc_len }) ≡ a
  unfolding data1_addr
  addr-called = omega (
    arith,
    word at_len0 (omega arith) (omega arith),
    word (at_len0 + 4) (omega arith) (omega arith),
    ok.header.len0,
    ok.small,
  )

  abbrev answered : List ℕ
  answered = let b = get_or called at_flags 0 in set called at_flags (b - 4 * (b / 4 % 2))
