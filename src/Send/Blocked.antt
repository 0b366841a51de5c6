-- ===== src/Send/Blocked.antt =====
-- sr_si_static.c and si95/sisendt.c: a send whose number of retries is negative when the system has
-- no room, and one that the system interrupts in the middle of a message.
use ric_plt_lib_rmr.Base.{
  ℕ, zero, suc, ◌<◌, ◌≡◌, refl, ap, ◌∙◌, Bool, true, false, Option, some, List, [], ◌∷◌, arith,
  length, take,
}
use ric_plt_lib_rmr.Base.Int.{ℤ, negsuc}
use ric_plt_lib_rmr.Send.Wire.{
  Errno, eagain, ebusy, si_error, si_err_blocked, Poll, no_room, writable, Write, wrote, failed,
  System, Sent, no_bytes, out, write_all, write_some, si_sendt, si_sendt-blocked,
}
use ric_plt_lib_rmr.Send.Loop.{
  Budget, Looped, start_budget, most, send_loop, round_end, loop_end, spend, most-positive,
}
use ric_plt_lib_rmr.Send.Message.{
  rmr_err_retry, rmr_err_sendfailed, Msg, Origin, sent_buf, send_bytes, send_done, send_msg,
}
use ric_plt_lib_rmr.Send.Outcome.{whole_loop, loop_result, start-spins}

-- an attempt that ends the loop
fuel_ends :
    (os : ℕ → System) (bytes : List ℕ) (fuel : ℕ) (b : Budget) (s : Sent) (l : Looped)
    → 0 < fuel
    → si_sendt (os 0) bytes ≡ s
    → ((again : Option Looped) → round_end os bytes b s [] 0 again ≡ some l)
    → send_loop os bytes fuel b [] 0 ≡ some l
unfolding send_loop
fuel_ends os bytes zero b s l f e h = absurd (omega arith)
fuel_ends os bytes (suc fuel) b s l f e h =
    let again = send_loop os bytes fuel (spend b) (si_sendt (os 0) bytes).wire 1 in
    ap (λ z. round_end os bytes b z [] 0 again) e ∙ h again

first_ends :
    (os : ℕ → System) (bytes : List ℕ) (r : ℤ) (s : Sent) (l : Looped)
    → si_sendt (os 0) bytes ≡ s
    → ((again : Option Looped) → round_end os bytes (start_budget r) s [] 0 again ≡ some l)
    → whole_loop os bytes r ≡ some l
first_ends os bytes r s l e h =
    fuel_ends os bytes (most (start_budget r)) (start_budget r) s l
      (most-positive (start_budget r) (start-spins r)) e h

-- With a negative number of retries, as rmr_rts_msg and the wormhole sends use, a send for which the
-- system has no room fails at once, and the state is not that to retry.
pub send_msg-blocked :
    (ctx : Origin) (garbage : ℕ → List ℕ) (os : ℕ → System) (msg : Msg) (n : ℕ)
    → (os 0).session ≡ true
    → (os 0).poll ≡ no_room
    → send_msg ctx garbage os msg (negsuc n)
      ≡ some (some (record msg { tp_buf = sent_buf ctx msg; state = rmr_err_sendfailed }), [])
unfolding send_msg send_done round_end start_budget
send_msg-blocked ctx garbage os msg n s p =
    let bytes = send_bytes ctx msg in
    let m = record msg { tp_buf = sent_buf ctx msg } in
    ap (loop_result ctx garbage m) (
      first_ends os bytes (negsuc n) (no_bytes si_err_blocked ebusy)
        (loop_end false false (no_bytes si_err_blocked ebusy) [] 0)
        (si_sendt-blocked (os 0) bytes s p) (λ again. refl))

write_all-stopped :
    (ws : ℕ → Write) (i n : ℕ) (bs : List ℕ) (e : Errno)
    → ws i ≡ failed e
    → n < length bs
    → write_all ws i n bs ≡ record { status = si_error; errno = e; wire = take n bs }
unfolding write_all
write_all-stopped ws i n [] e f h = absurd (omega arith)
write_all-stopped ws i zero (b ∷ bs) e f h = rw (f, write_all) refl
write_all-stopped ws i (suc n) (b ∷ bs) e f h =
    ap (out b) (write_all-stopped ws i n bs e f (omega arith))

si_sendt-stopped :
    (session : Bool) (poll : Poll) (ws : ℕ → Write) (n : ℕ) (bytes : List ℕ) (e : Errno)
    → session ≡ true
    → poll ≡ writable
    → ws 0 ≡ wrote n
    → ws 1 ≡ failed e
    → suc n < length bytes
    → si_sendt (record { session = session; poll = poll; writes = ws }) bytes
      ≡ record { status = si_error; errno = e; wire = take (suc n) bytes }
unfolding si_sendt write_some write_all
si_sendt-stopped session poll ws n [] e s p w f h = absurd (omega arith)
si_sendt-stopped session poll ws n (b ∷ bs) e s p w f h =
    rw (s, p, w, write_some, write_all) (ap (out b) (write_all-stopped ws 1 n bs e f (omega arith)))

-- If the system takes a part of a message and then reports EAGAIN, the part has gone out, and the
-- state is that to retry, which sends the whole message again.
pub send_msg-part :
    (ctx : Origin) (garbage : ℕ → List ℕ) (os : ℕ → System) (msg : Msg) (retries : ℤ) (n : ℕ)
    → (os 0).session ≡ true
    → (os 0).poll ≡ writable
    → (os 0).writes 0 ≡ wrote n
    → (os 0).writes 1 ≡ failed eagain
    → suc n < length (send_bytes ctx msg)
    → send_msg ctx garbage os msg retries
      ≡ some (
        some (record msg { tp_buf = sent_buf ctx msg; state = rmr_err_retry }),
        take (suc n) (send_bytes ctx msg),
      )
unfolding send_msg send_done round_end
send_msg-part ctx garbage os msg retries n s p w f h =
    let bytes = send_bytes ctx msg in
    let m = record msg { tp_buf = sent_buf ctx msg } in
    let part : Sent = record { status = si_error; errno = eagain; wire = take (suc n) bytes } in
    ap (loop_result ctx garbage m) (
      first_ends os bytes retries part (loop_end false false part [] 0)
        (si_sendt-stopped (os 0).session (os 0).poll (os 0).writes n bytes eagain s p w f h)
        (λ again. refl))
