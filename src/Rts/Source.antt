-- ===== src/Rts/Source.antt =====
-- rmr_si.c: a message that rmr_rts_msg gives back can be returned again.
use mathlib.Core.Path.{subst}
use ric_plt_lib_rmr.Base.{
  ℕ, ◌-◌, ◌*◌, ◌/◌, ◌%◌, ◌≤◌, ◌<◌, ◌≡◌, ◌⊎◌, inl, inr, refl, sym, ap, ◌∙◌, Option, none, some, List,
  arith, length, length-set, get_or, set,
}
use ric_plt_lib_rmr.Base.Int.{ℤ, negsuc}
use ric_plt_lib_rmr.Receive.{at_flags}
use ric_plt_lib_rmr.Route.{Store}
use ric_plt_lib_rmr.Send.Wire.{System}
use ric_plt_lib_rmr.Send.Message.{
  rmr_err_noendpt, Msg, Origin, fill_src, at_src, at_srcip, rmr_max_src,
}
use ric_plt_lib_rmr.Send.Header.{length-fill_src, get_or-fill_src, get_or-other}
use ric_plt_lib_rmr.Send.Outcome.{Settled, send_msg-Settled}
use ric_plt_lib_rmr.Rts.{
  no_call_flag, src_of, srcip_of, from_us, restored, Returned, Target, find_target, after_rts,
  rts_to, rmr_rts_msg,
}
use ric_plt_lib_rmr.Rts.Names.{c_string-no_end, c_string-same, fill_src-c_string}
use ric_plt_lib_rmr.Rts.Room.{room, send_msg-room}

-- The source and its address are read back from a message that they were put back into.
restored-same :
    (m r : Msg)
    → length (src_of m) < rmr_max_src
    → length (srcip_of m) < rmr_max_src
    → room ≤ length r.tp_buf
    → (src_of (restored (src_of m) (srcip_of m) r) ≡ src_of m)
      × (srcip_of (restored (src_of m) (srcip_of m) r) ≡ srcip_of m)
unfolding restored
restored-same m r short short_ip h =
    let b = fill_src r.tp_buf at_src (src_of m) in
    let l = length-fill_src r.tp_buf (src_of m) at_src in
    (
      c_string-same rmr_max_src (fill_src b at_srcip (srcip_of m)) b at_src
            (λ j low high. get_or-fill_src b (srcip_of m) at_srcip j (inl (omega (arith, high))))
          ∙ fill_src-c_string r.tp_buf (src_of m) at_src
              (c_string-no_end rmr_max_src m.tp_buf at_src) short (omega (arith, h)),
      fill_src-c_string b (srcip_of m) at_srcip (c_string-no_end rmr_max_src m.tp_buf at_srcip)
          short_ip (omega (arith, h, l)),
    )

-- The flags are no part of the names.
no_call_flag-same :
    (m : Msg) → (src_of (no_call_flag m) ≡ src_of m) × (srcip_of (no_call_flag m) ≡ srcip_of m)
unfolding no_call_flag
no_call_flag-same m =
    let b = get_or m.tp_buf at_flags 0 in
    let v = b - 4 * (b / 4 % 2) in
    (
      c_string-same rmr_max_src (set m.tp_buf at_flags v) m.tp_buf at_src
          (λ j low high. get_or-other m.tp_buf at_flags j v (inl (omega (arith, high)))),
      c_string-same rmr_max_src (set m.tp_buf at_flags v) m.tp_buf at_srcip
          (λ j low high. get_or-other m.tp_buf at_flags j v (inr (omega (arith, low)))),
    )

room-no_call : (m : Msg) → room ≤ length m.tp_buf → room ≤ length (no_call_flag m).tp_buf
unfolding no_call_flag
room-no_call m h =
    let b = get_or m.tp_buf at_flags 0 in
    omega (arith, length-set m.tp_buf at_flags (b - 4 * (b / 4 % 2)), h)

-- No message, or one with the source and the address of `m`.
abbrev Kept : Msg → Returned → Type 0
Kept m r =
    (r.msg ≡ none)
    ⊎ ((m' : Msg) × (r.msg ≡ some m') × (src_of m' ≡ src_of m) × (srcip_of m' ≡ srcip_of m))

abbrev Keeps : Msg → Option Returned → Type 0
Keeps m o = (r : Returned) × (o ≡ some r) × Kept m r

module _ (connect : List ℕ → ℤ) (ctx : Origin) (garbage : ℕ → List ℕ) (os : ℕ → System) (m : Msg)
    (t : Target) (new : (k : ℕ) → length (garbage k) ≡ k) (h : room ≤ length m.tp_buf)
    (short : length (src_of m) < rmr_max_src) (short_ip : length (srcip_of m) < rmr_max_src) where
  length-from_us : room ≤ length (from_us ctx m).tp_buf
  unfolding from_us
  length-from_us = omega (arith, length-fill_src m.tp_buf ctx.my_name at_src, h)

  after_rts-Kept :
      (fd : ℤ) (r : Option Msg) (w : List ℕ)
      → Settled ctx garbage (from_us ctx m) r w
      → Keeps m (after_rts m t fd (some (r, w)))
  unfolding after_rts
  after_rts-Kept fd none w st = (_, refl, inl refl)
  after_rts-Kept fd (some r) w st =
      let (src, ip) =
        restored-same m r short short_ip
          (send_msg-room ctx garbage os (from_us ctx m) r w new length-from_us st) in
      (_, refl, inr (restored (src_of m) (srcip_of m) r, refl, src, ip))

  rts_to-Kept : (fd : Option ℤ) → Keeps m (rts_to connect ctx garbage os m t fd)
  unfolding rts_to
  rts_to-Kept none = (_, refl, inr (record m { state = rmr_err_noendpt }, refl, refl, refl))
  rts_to-Kept (some fd) =
      let (r, w, e, st) = send_msg-Settled ctx garbage os (from_us ctx m) (negsuc 0) in
      subst (λ x. Keeps m (after_rts m t fd x)) (sym e) (after_rts-Kept fd r w st)

-- Whatever comes of the send, a message that rmr_rts_msg gives back has the source and the address of
-- the message that was to be returned, so that it can be called again; names of fewer than 64
-- characters in a buffer with room for a header.
pub rmr_rts_msg-source :
    (connect : List ℕ → ℤ) (ctx : Origin) (garbage : ℕ → List ℕ) (os : ℕ → System) (s : Store)
    (m : Msg)
    → ((k : ℕ) → length (garbage k) ≡ k)
    → room ≤ length m.tp_buf
    → length (src_of m) < rmr_max_src
    → length (srcip_of m) < rmr_max_src
    → (r : Returned) × (rmr_rts_msg connect ctx garbage os s m ≡ some r)
      × ((r.msg ≡ none)
          ⊎ ((m' : Msg) × (r.msg ≡ some m') × (src_of m' ≡ src_of m) × (srcip_of m' ≡ srcip_of m)))
unfolding rmr_rts_msg
rmr_rts_msg-source connect ctx garbage os s m new h short short_ip =
    let n = no_call_flag m in
    let t = find_target connect s n in
    let (src, ip) = no_call_flag-same m in
    let (r, e, back) =
      rts_to-Kept connect ctx garbage os n t new (room-no_call m h)
        (omega (arith, ap length src, short)) (omega (arith, ap length ip, short_ip)) t.fd in
    (r, e, elim back [ inl nil ↦ inl nil | inr (m', f, a, b) ↦ inr (m', f, a ∙ src, b ∙ ip) ])
