-- ===== src/Send/Words.antt =====
-- sr_si_static.c: the words of a buffer that is ready to be sent.
use mathlib.Core.Path.{subst}
use ric_plt_lib_rmr.Base.{
  ℕ, ◌+◌, ◌-◌, ◌^◌, ◌≤◌, ◌<◌, ◌≡◌, ◌⊎◌, inl, inr, refl, ◌∙◌, Bool, true, false, List, arith, length,
  get_or, take,
}
use ric_plt_lib_rmr.Base.Int.{ℤ, pos, negsuc}
use ric_plt_lib_rmr.River.{net32}
use ric_plt_lib_rmr.River.Length.{insert_mlen}
use ric_plt_lib_rmr.Receive.{at_mtype, at_plen, at_sub_id}
use ric_plt_lib_rmr.Route.{pattern32}
use ric_plt_lib_rmr.Send.Message.{
  Msg, Origin, put32, at_src, at_srcip, rmr_max_src, fill_src, stamped, with_source,
}
use ric_plt_lib_rmr.Send.Header.{
  length-put32, get_or-put32, net32-put32, get_or-fill_src, get_or-take, get_or-insert_mlen,
  net32-same,
}

-- where a position of a word is: outside of the size field and of the fields of the source
abbrev pub Elsewhere : ℕ → Type 0
Elsewhere i = (13 ≤ i) × ((i + 4 ≤ at_src) ⊎ ((at_src + rmr_max_src ≤ i) × (i + 4 ≤ at_srcip)))

pub pattern32_below : (z : ℤ) → pattern32 z < 2 ^ 32
pattern32_below (pos n) = omega arith
pattern32_below (negsuc n) = omega arith

net32-fill_src :
    (buf name : List ℕ) (f i : ℕ)
    → (i + 4 ≤ f) ⊎ (f + rmr_max_src ≤ i)
    → net32 (fill_src buf f name) i ≡ net32 buf i
net32-fill_src buf name f i h = net32-same (fill_src buf f name) buf i (λ j l u.
    get_or-fill_src buf name f j (elim h [ inl k ↦ inl (omega arith) | inr k ↦ inr (omega arith) ]))

pub net32-source :
    (ctx : Origin) (b : Bool) (buf : List ℕ) (i : ℕ)
    → Elsewhere i
    → net32 (with_source ctx b buf) i ≡ net32 buf i
net32-source ctx false buf i h = refl
net32-source ctx true buf i (_, h) =
    net32-fill_src (fill_src buf at_src ctx.my_name) ctx.my_ip at_srcip i
      (elim h [ inl k ↦ inl (omega arith) | inr (k, l) ↦ inl l ])
    ∙ net32-fill_src buf ctx.my_name at_src i (elim h [ inl k ↦ inl k | inr (k, l) ↦ inr k ])

pub net32-size : (len i : ℕ) (buf : List ℕ) → 13 ≤ i → net32 (insert_mlen len buf) i ≡ net32 buf i
net32-size len i buf h = net32-same (insert_mlen len buf) buf i (λ j l u.
    let at : 13 + (j - 13) ≡ j = omega arith in
    subst (λ k. get_or (insert_mlen len buf) k 0 ≡ get_or buf k 0) at
      (get_or-insert_mlen len (j - 13) buf))

net32-away :
    (buf : List ℕ) (f v i : ℕ) → (i + 4 ≤ f) ⊎ (f + 4 ≤ i) → net32 (put32 buf f v) i ≡ net32 buf i
net32-away buf f v i h = net32-same (put32 buf f v) buf i (λ j l u.
    get_or-put32 buf f v j (elim h [ inl k ↦ inl (omega arith) | inr k ↦ inr (omega arith) ]))

pub net32-take : (n i : ℕ) (buf : List ℕ) → i + 4 ≤ n → net32 (take n buf) i ≡ net32 buf i
net32-take n i buf h = net32-same (take n buf) buf i (λ j l u. get_or-take n j buf (omega arith))

module _ (m : Msg) (room : 330 ≤ length m.tp_buf) where
  typed : List ℕ
  typed = put32 m.tp_buf at_mtype (pattern32 m.mtype)

  subbed : List ℕ
  unfolding typed
  subbed = put32 typed at_sub_id (pattern32 m.sub_id)

  pub stamped-mtype : net32 (stamped m) at_mtype ≡ pattern32 m.mtype
  unfolding typed subbed
  stamped-mtype =
      net32-away subbed at_plen (pattern32 m.len) at_mtype (inl (omega arith))
      ∙ net32-away typed at_sub_id (pattern32 m.sub_id) at_mtype (inl (omega arith))
      ∙ net32-put32 m.tp_buf at_mtype (pattern32 m.mtype) (omega arith) (pattern32_below m.mtype)

  pub stamped-sub_id : net32 (stamped m) at_sub_id ≡ pattern32 m.sub_id
  unfolding typed subbed
  stamped-sub_id =
      net32-away subbed at_plen (pattern32 m.len) at_sub_id (inr (omega arith))
      ∙ net32-put32 typed at_sub_id (pattern32 m.sub_id)
          (omega (arith, length-put32 m.tp_buf at_mtype (pattern32 m.mtype)))
          (pattern32_below m.sub_id)

  pub stamped-plen : net32 (stamped m) at_plen ≡ pattern32 m.len
  unfolding typed subbed
  stamped-plen =
      net32-put32 subbed at_plen (pattern32 m.len)
        (omega (
          arith,
          length-put32 m.tp_buf at_mtype (pattern32 m.mtype),
          length-put32 typed at_sub_id (pattern32 m.sub_id),
        ))
        (pattern32_below m.len)

  pub stamped-others :
      (i : ℕ) → at_plen + 4 ≤ i → i + 4 ≤ at_sub_id → net32 (stamped m) i ≡ net32 m.tp_buf i
  unfolding typed subbed
  stamped-others i l u =
      net32-away subbed at_plen (pattern32 m.len) i (inr l)
      ∙ net32-away typed at_sub_id (pattern32 m.sub_id) i (inl u)
      ∙ net32-away m.tp_buf at_mtype (pattern32 m.mtype) i (inr (omega arith))
