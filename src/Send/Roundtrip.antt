-- ===== src/Send/Roundtrip.antt =====
-- sr_si_static.c: a message that was sent is what the receiver's `ref_tpbuf` makes of its bytes.
use mathlib.Core.Path.{subst}
use ric_plt_lib_rmr.Base.{
  ℕ, ◌+◌, ◌-◌, ◌%◌, ◌^◌, ◌≤◌, ◌<◌, ◌≡◌, inl, inr, refl, sym, ap, ◌∙◌, Bool, true, false, List,
  arith, length, take, length-take, length-drop, if◌then◌else◌,
}
use ric_plt_lib_rmr.Base.Int.{pos, signed32, ltb_ℤ}
use ric_plt_lib_rmr.River.{Raw, net32, native32, extract_mlen}
use ric_plt_lib_rmr.River.Length.{insert_mlen, extract_mlen-native, extract-insert_mlen}
use ric_plt_lib_rmr.Receive.{
  rmr_ok, rmr_err_trunc, tp_hdr_len, at_mtype, at_plen, at_len0, at_sub_id, rmr_hdr_len,
  payload_len, alloc_mbuf, ref_tpbuf,
}
use ric_plt_lib_rmr.Route.{pattern32}
use ric_plt_lib_rmr.Route.Key.{IsInt32}
use ric_plt_lib_rmr.Send.Message.{
  Msg, Origin, stamped, with_source, total_len, send_bytes, bytes_of, at_src, at_srcip, fill_src,
  put32, sizeof_mhdr,
}
use ric_plt_lib_rmr.Send.Header.{length-put32, length-fill_src, signed32-pattern32, get_or-take}
use ric_plt_lib_rmr.Send.Words.{
  Elsewhere, net32-source, net32-size, net32-take, stamped-mtype, stamped-sub_id, stamped-plen,
  stamped-others,
}

pub length-source :
    (ctx : Origin) (b : Bool) (buf : List ℕ) → length (with_source ctx b buf) ≡ length buf
length-source ctx false buf = refl
length-source ctx true buf =
    length-fill_src (fill_src buf at_src ctx.my_name) ctx.my_ip at_srcip
    ∙ length-fill_src buf ctx.my_name at_src

pub length-stamped : (m : Msg) → length (stamped m) ≡ length m.tp_buf
length-stamped m =
    let a = put32 m.tp_buf at_mtype (pattern32 m.mtype) in
    let b = put32 a at_sub_id (pattern32 m.sub_id) in
    length-put32 b at_plen (pattern32 m.len)
    ∙ length-put32 a at_sub_id (pattern32 m.sub_id)
    ∙ length-put32 m.tp_buf at_mtype (pattern32 m.mtype)

pub length-size :
    (len : ℕ) (buf : List ℕ) → 13 ≤ length buf → length (insert_mlen len buf) ≡ length buf
unfolding insert_mlen
length-size len buf h = omega (arith, length-drop 13 buf)

native32-take : (n : ℕ) (xs : List ℕ) → 4 ≤ n → native32 (take n xs) 0 ≡ native32 xs 0
native32-take n xs h =
    let same = λ (k : ℕ) (l : k < n). get_or-take n k xs l in
    omega (
      arith,
      same 0 (omega arith),
      same 1 (omega arith),
      same 2 (omega arith),
      same 3 (omega arith),
    )

in_range :
    (x total alloc : ℕ)
    → x ≡ total
    → total ≤ alloc
    → alloc < 2 ^ 31
    → (if ltb_ℤ (pos alloc) (signed32 (x % 2 ^ 32)) then pos alloc else signed32 (x % 2 ^ 32))
      ≡ pos total
in_range x total alloc e h k = ground arith

whole_payload :
    (l hdr p n : ℕ)
    → l ≡ n + hdr + tp_hdr_len
    → l < 2 ^ 31
    → p ≡ n
    → (signed32 p ≡ pos n) × (ltb_ℤ (signed32 ((l + 2 ^ 32 - hdr) % 2 ^ 32)) (signed32 p) ≡ false)
whole_payload l hdr p n e h k = (ground arith, ground arith)

-- A message whose payload fits into its buffer behind a whole header.
pub record IsSendable (m : Msg) (n : ℕ) : Type 0 where
  pub len_is : m.len ≡ pos n
  pub header : sizeof_mhdr ≤ rmr_hdr_len (record { bytes = m.tp_buf; nbytes = m.alloc_len })
  pub fits :
      n + rmr_hdr_len (record { bytes = m.tp_buf; nbytes = m.alloc_len }) + tp_hdr_len ≤ m.alloc_len
  pub there : m.alloc_len ≤ length m.tp_buf
  pub small : m.alloc_len < 2 ^ 31
  pub mtype_fits : IsInt32 m.mtype
  pub sub_id_fits : IsInt32 m.sub_id

module _ (ctx : Origin) (m : Msg) (n : ℕ) (ok : IsSendable m n) where
  abbrev to_send : List ℕ
  to_send = with_source ctx m.addsrc (stamped m)

  abbrev total : ℕ
  total = n + rmr_hdr_len (record { bytes = m.tp_buf; nbytes = m.alloc_len }) + tp_hdr_len

  room : 330 ≤ length m.tp_buf
  room = omega (arith, ok.header, ok.fits, ok.there)

  same_length : (i : ℕ) → at_len0 ≤ i → i + 4 ≤ at_sub_id → net32 to_send i ≡ net32 m.tp_buf i
  same_length i l u =
      net32-source ctx m.addsrc (stamped m) i (omega arith, inr (omega arith, omega arith))
      ∙ stamped-others m room i (omega arith) u

  same_header :
      rmr_hdr_len (record { bytes = to_send; nbytes = m.alloc_len })
      ≡ rmr_hdr_len (record { bytes = m.tp_buf; nbytes = m.alloc_len })
  unfolding rmr_hdr_len
  same_header = omega (
    arith,
    same_length at_len0 (omega arith) (omega arith),
    same_length (at_len0 + 4) (omega arith) (omega arith),
    same_length (at_len0 + 8) (omega arith) (omega arith),
    same_length (at_len0 + 12) (omega arith) (omega arith),
  )

  total_len-total : total_len m to_send ≡ pos total
  unfolding total_len
  total_len-total =
      in_range
        (pattern32 m.len
          + rmr_hdr_len (record { bytes = to_send; nbytes = m.alloc_len })
          + tp_hdr_len)
        total m.alloc_len (omega (arith, same_header, ap pattern32 ok.len_is, ok.fits, ok.small))
        ok.fits ok.small

  abbrev packed : List ℕ
  packed = take total (insert_mlen (pattern32 (pos total)) to_send)

  send_bytes-packed : send_bytes ctx m ≡ packed
  unfolding send_bytes
  send_bytes-packed = ap (λ t. bytes_of t (insert_mlen (pattern32 t) to_send)) total_len-total

  length-packed : length packed ≡ total
  length-packed = length-take total (insert_mlen (pattern32 (pos total)) to_send) (
      omega (
        arith,
        length-size (pattern32 (pos total)) to_send
            (omega (arith, room, length-source ctx m.addsrc (stamped m), length-stamped m)),
        length-source ctx m.addsrc (stamped m),
        length-stamped m,
        ok.fits,
        ok.there,
      ))

  net32-packed : (i : ℕ) → Elsewhere i → i + 4 ≤ total → net32 packed i ≡ net32 (stamped m) i
  net32-packed i e l =
      net32-take total i (insert_mlen (pattern32 (pos total)) to_send) l
      ∙ net32-size (pattern32 (pos total)) i to_send e.0
      ∙ net32-source ctx m.addsrc (stamped m) i e

  -- The bytes have their number in the size field, which the receiver reads.
  Same : List ℕ → Type 0
  Same bytes =
      (fd : ℕ) (huge : Bool)
      → let r =
          ref_tpbuf (alloc_mbuf (record { bytes = bytes; nbytes = length bytes }) fd huge)
            (length bytes) in
        (r.mtype ≡ m.mtype)
        × (r.sub_id ≡ m.sub_id)
        × (r.len ≡ m.len)
        × (r.state ≡ rmr_ok)
        × (length bytes ≡ total)
        × (extract_mlen bytes ≡ length bytes)

  packed_size : extract_mlen packed ≡ length packed
  packed_size =
      let sized = insert_mlen (pattern32 (pos total)) to_send in
      let long : 13 ≤ length to_send =
        omega (arith, room, length-source ctx m.addsrc (stamped m), length-stamped m) in
      let (_, native, _, _, _) =
        extract-insert_mlen (pattern32 (pos total)) to_send (omega arith) long in
      extract_mlen-native packed
      ∙ native32-take total sized (omega (arith, ok.header))
      ∙ native
      ∙ omega (arith, length-packed, ok.fits, ok.small)

  packed_mtype : net32 packed at_mtype ≡ pattern32 m.mtype
  packed_mtype =
      net32-packed at_mtype (omega arith, inl (omega arith)) (omega (arith, ok.header))
      ∙ stamped-mtype m room

  packed_sub_id : net32 packed at_sub_id ≡ pattern32 m.sub_id
  packed_sub_id =
      net32-packed at_sub_id (omega arith, inr (omega arith, omega arith))
        (omega (arith, ok.header))
      ∙ stamped-sub_id m room

  packed_plen : net32 packed at_plen ≡ pattern32 m.len
  packed_plen =
      net32-packed at_plen (omega arith, inl (omega arith)) (omega (arith, ok.header))
      ∙ stamped-plen m room

  packed_length : (i : ℕ) → at_len0 ≤ i → i + 4 ≤ at_sub_id → net32 packed i ≡ net32 m.tp_buf i
  packed_length i l u =
      net32-packed i (omega arith, inr (omega arith, omega arith)) (omega (arith, ok.header))
      ∙ stamped-others m room i (omega arith) u

  packed_header :
      rmr_hdr_len (record { bytes = packed; nbytes = length packed })
      ≡ rmr_hdr_len (record { bytes = m.tp_buf; nbytes = m.alloc_len })
  unfolding rmr_hdr_len
  packed_header = omega (
    arith,
    packed_length at_len0 (omega arith) (omega arith),
    packed_length (at_len0 + 4) (omega arith) (omega arith),
    packed_length (at_len0 + 8) (omega arith) (omega arith),
    packed_length (at_len0 + 12) (omega arith) (omega arith),
  )

  packed_payload : payload_len (record { bytes = packed; nbytes = length packed }) ≡ n
  unfolding payload_len
  packed_payload = omega (arith, packed_plen, ap pattern32 ok.len_is, ok.fits, ok.small)

  packed-Same : Same packed
  unfolding Same ref_tpbuf
  packed-Same fd huge =
      let raw : Raw = record { bytes = packed; nbytes = length packed } in
      let (len_ok, not_cut) =
        whole_payload (length packed) (rmr_hdr_len raw) (payload_len raw) n
          (omega (arith, length-packed, packed_header))
          (omega (arith, length-packed, ok.fits, ok.small)) packed_payload in
      (
        ap (λ w. signed32 (w % 2 ^ 32)) packed_mtype ∙ signed32-pattern32 m.mtype ok.mtype_fits,
        ap (λ w. signed32 (w % 2 ^ 32)) packed_sub_id ∙ signed32-pattern32 m.sub_id ok.sub_id_fits,
        ap
              (λ c.
                if c
                then signed32 ((length packed + 2 ^ 32 - rmr_hdr_len raw) % 2 ^ 32)
                else signed32 (payload_len raw))
              not_cut
            ∙ len_ok
            ∙ sym ok.len_is,
        ap (λ c. if c then rmr_err_trunc else rmr_ok) not_cut,
        length-packed,
        packed_size,
      )

-- A message that fits into its buffer is received as it was sent: as many bytes go out as its
-- transport header, header and payload have, the size field of them says so, and the receiver reads
-- the same type, subscription id and payload length from them, and no error.
pub send_bytes-received :
    (ctx : Origin) (m : Msg) (n : ℕ)
    → IsSendable m n
    → (fd : ℕ) (huge : Bool)
    → let bytes = send_bytes ctx m in
      let r =
        ref_tpbuf
          (alloc_mbuf (record { bytes = bytes; nbytes = length bytes }) fd huge)
          (length bytes) in
      (r.mtype ≡ m.mtype)
      × (r.sub_id ≡ m.sub_id)
      × (r.len ≡ m.len)
      × (r.state ≡ rmr_ok)
      × (length bytes
          ≡ n + rmr_hdr_len (record { bytes = m.tp_buf; nbytes = m.alloc_len }) + tp_hdr_len)
      × (extract_mlen bytes ≡ length bytes)
unfolding Same
send_bytes-received ctx m n ok fd huge =
    subst (Same ctx m n ok) (sym (send_bytes-packed ctx m n ok)) (packed-Same ctx m n ok) fd huge
