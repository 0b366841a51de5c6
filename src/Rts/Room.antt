-- ===== src/Rts/Room.antt =====
-- sr_si_static.c: what comes back from a send has room for a header.
use mathlib.Core.Option.{some-injective}
use mathlib.Core.Path.{subst}
use ric_plt_lib_rmr.Base.{
  ℕ, ◌+◌, ◌-◌, ◌^◌, ◌≤◌, ◌≡◌, inl, inr, sym, ap, ◌∙◌, none, some, List, arith, ltb, if◌then◌else◌,
  length, replicate, Bool-cases,
}
use ric_plt_lib_rmr.Base.Int.{ℤ}
use ric_plt_lib_rmr.River.Length.{insert_mlen}
use ric_plt_lib_rmr.Receive.{tp_hdr_len, at_len0, at_sub_id}
use ric_plt_lib_rmr.Route.{pattern32}
use ric_plt_lib_rmr.Send.Wire.{System}
use ric_plt_lib_rmr.Send.Message.{
  SendState, rmr_ok, Msg, Origin, fill_src, put32, put_bytes, at_src, at_srcip, at_rmr_ver,
  rmr_max_src, sizeof_mhdr, new_header, wanted_len, alloc_zcmsg, stamped, with_source, total_len,
  sent_buf, tr_len_of,
}
use ric_plt_lib_rmr.Send.Header.{length-put32, length-put_bytes, length-fill_src}
use ric_plt_lib_rmr.Send.Roundtrip.{length-source, length-stamped, length-size}
use ric_plt_lib_rmr.Send.Outcome.{Settled}

-- a whole header
abbrev pub room : ℕ
room = at_srcip + rmr_max_src

length-new_header :
    (ctx : Origin) (mlen : ℕ) (old : List ℕ)
    → 13 ≤ length old
    → length (new_header ctx mlen old) ≡ length old
unfolding new_header
length-new_header ctx mlen old h =
    let size = insert_mlen mlen old in
    let b0 = put_bytes size tp_hdr_len (replicate sizeof_mhdr 0) in
    let v = put32 b0 at_rmr_ver 3 in
    let b1 = put32 v at_sub_id (2 ^ 32 - 1) in
    let l0 = put32 b1 at_len0 sizeof_mhdr in
    let b2 = put32 l0 (at_len0 + 4) ctx.trace_data_len in
    let b3 = put32 b2 (at_len0 + 8) ctx.d1_len in
    length-fill_src (fill_src b3 at_src ctx.my_name) ctx.my_ip at_srcip
    ∙ length-fill_src b3 ctx.my_name at_src
    ∙ length-put32 b2 (at_len0 + 8) ctx.d1_len
    ∙ length-put32 l0 (at_len0 + 4) ctx.trace_data_len
    ∙ length-put32 b1 at_len0 sizeof_mhdr
    ∙ length-put32 v at_sub_id (2 ^ 32 - 1)
    ∙ length-put32 b0 at_rmr_ver 3
    ∙ length-put_bytes size (replicate sizeof_mhdr 0) tp_hdr_len
    ∙ length-size mlen old h

-- A buffer that is made for a new message has room for a header if the old one has.
alloc_zcmsg-room :
    (ctx : Origin) (garbage : ℕ → List ℕ) (m : Msg) (size : ℕ) (st : SendState) (tr : ℤ)
    → ((k : ℕ) → length (garbage k) ≡ k)
    → room ≤ length m.tp_buf
    → room ≤ length (alloc_zcmsg ctx garbage (some m) size st tr).tp_buf
unfolding alloc_zcmsg
alloc_zcmsg-room ctx garbage m size st tr new h =
    let want = wanted_len ctx size tr in
    let big : room ≤ want = omega arith in
    elim (Bool-cases (ltb m.alloc_len want)) [
      | inl y ↦ rw y (
          omega (
            arith,
            length-new_header ctx want (garbage want) (omega (arith, new want, big)),
            new want,
            big,
          ))
      | inr n ↦
          rw n (omega (arith, length-new_header ctx m.alloc_len m.tp_buf (omega (arith, h)), h))
    ]

length-sent_buf :
    (ctx : Origin) (m : Msg) → room ≤ length m.tp_buf → length (sent_buf ctx m) ≡ length m.tp_buf
length-sent_buf ctx m h =
    let buf = with_source ctx m.addsrc (stamped m) in
    let l = length-source ctx m.addsrc (stamped m) ∙ length-stamped m in
    length-size (pattern32 (total_len m buf)) buf (omega (arith, l, h)) ∙ l

-- the message that comes back from a send has room for a header
pub send_msg-room :
    (ctx : Origin) (garbage : ℕ → List ℕ) (os : ℕ → System) (m r : Msg) (w : List ℕ)
    → ((k : ℕ) → length (garbage k) ≡ k)
    → room ≤ length m.tp_buf
    → Settled ctx garbage m (some r) w
    → room ≤ length r.tp_buf
unfolding Settled
send_msg-room ctx garbage os m r w new h (inl (_, e)) =
    let sent = record m { tp_buf = sent_buf ctx m } in
    let a = alloc_zcmsg ctx garbage (some sent) 0 rmr_ok (tr_len_of sent) in
    let there : room ≤ length a.tp_buf =
      alloc_zcmsg-room ctx garbage sent 0 rmr_ok (tr_len_of sent) new
        (omega (arith, length-sent_buf ctx m h, h)) in
    elim (Bool-cases m.noalloc) [
      | inl y ↦ (let never : some r ≡ none = e ∙ ap (λ b. if b then none else some a) y in cc)
      | inr n ↦
          (let same : some r ≡ some a = e ∙ ap (λ b. if b then none else some a) n in
            subst (λ x. room ≤ length x.tp_buf) (sym (some-injective r a same)) there)
    ]
send_msg-room ctx garbage os m r w new h (inr (_, st, e, _)) =
    subst (λ x. room ≤ length x.tp_buf)
      (sym (some-injective r (record m { tp_buf = sent_buf ctx m; state = st }) e))
      (omega (arith, length-sent_buf ctx m h, h))
