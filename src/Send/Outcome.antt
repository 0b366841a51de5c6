-- ===== src/Send/Outcome.antt =====
-- sr_si_static.c: that `send_msg` returns, after how many attempts, and what came of the message.
use ric_plt_lib_rmr.Base.{
  ℕ, zero, suc, ◌+◌, ◌*◌, ◌<◌, ◌≡◌, ◌⊎◌, inl, inr, refl, ap, ◌∙◌, Bool, true, false, Option, none,
  some, List, [], ◌++◌, arith, if◌then◌else◌,
}
use ric_plt_lib_rmr.Base.Int.{ℤ, pos, negsuc}
use ric_plt_lib_rmr.Send.Wire.{System, IsFrontOf, si_sendt-IsFrontOf}
use ric_plt_lib_rmr.Send.Loop.{Looped, start_budget, most, send_loop, Runs, send_loop-IsRun}
use ric_plt_lib_rmr.Send.Message.{
  SendState, rmr_ok, rmr_err_retry, rmr_err_sendfailed, Msg, Origin, failure, is_eagain, sent_buf,
  send_bytes, send_done, send_msg, alloc_zcmsg, tr_len_of,
}

pub start-spins : (r : ℤ) → 0 < (start_budget r).spins
unfolding start_budget
start-spins (pos zero) = omega arith
start-spins (pos (suc n)) = omega arith
start-spins (negsuc n) = omega arith

abbrev pub whole_loop : (ℕ → System) → List ℕ → ℤ → Option Looped
whole_loop os bytes r = send_loop os bytes (most (start_budget r)) (start_budget r) [] 0

whole_loop-Runs :
    (os : ℕ → System) (bytes : List ℕ) (r : ℤ)
    → Runs os bytes (start_budget r) [] 0 (whole_loop os bytes r)
whole_loop-Runs os bytes r =
    send_loop-IsRun os bytes (most (start_budget r)) (start_budget r) [] 0 (start-spins r)
      (omega arith)

-- the most attempts for a number of retries
abbrev pub limit : ℤ → ℕ
limit (pos zero) = 100
limit (pos (suc n)) = 1000 * suc n
limit (negsuc n) = 1

most-limit : (r : ℤ) → most (start_budget r) ≡ limit r
unfolding most start_budget
most-limit (pos zero) = refl
most-limit (pos (suc n)) = ground arith
most-limit (negsuc n) = refl

-- The retry loop ends, whatever the system answers: after 100 attempts at most without retries, a
-- thousand for each retry, and one if the number is negative. If it ends because the send would block,
-- it made all of them.
pub send_loop_ends :
    (os : ℕ → System) (bytes : List ℕ) (r : ℤ)
    → (l : Looped) × (whole_loop os bytes r ≡ some l)
      × (l.last < limit r)
      × (l.blocked ≡ true → l.last + 1 ≡ limit r)
send_loop_ends os bytes r =
    let (l, e, run) = whole_loop-Runs os bytes r in
    (
      l,
      e,
      omega (arith, run.not_more, most-limit r),
      λ b. omega (arith, run.all_used b, most-limit r),
    )

-- the states of a message that was not sent
unfoldable pub Failed : SendState → Type 0
Failed st = (st ≡ rmr_err_retry) ⊎ (st ≡ rmr_err_sendfailed)

-- The message was sent: its bytes went out once and whole, and there is a new message if the caller
-- wants one. Or it was not: the caller gets it back, to be sent again or as failed, and a front of
-- its bytes may have gone out.
unfoldable pub Settled : Origin → (ℕ → List ℕ) → Msg → Option Msg → List ℕ → Type 0
Settled ctx garbage msg r wire =
    ((wire ≡ send_bytes ctx msg)
      × (r ≡ (
          if msg.noalloc
          then none
          else some (
              alloc_zcmsg ctx garbage (some (record msg { tp_buf = sent_buf ctx msg })) 0 rmr_ok
                (tr_len_of (record msg { tp_buf = sent_buf ctx msg }))))))
    ⊎ (((rest : List ℕ) × (wire ++ rest ≡ send_bytes ctx msg))
        × (st : SendState) × (r ≡ some (record msg { tp_buf = sent_buf ctx msg; state = st }))
        × Failed st)

if-Failed : (b : Bool) (x y : SendState) → Failed x → Failed y → Failed (if b then x else y)
if-Failed true x y h k = h
if-Failed false x y h k = k

failure-Failed : (l : Looped) → Failed (failure l)
unfolding Failed
failure-Failed l =
    if-Failed l.blocked rmr_err_retry
      (if is_eagain l.errno then rmr_err_retry else rmr_err_sendfailed) (inl refl)
      (if-Failed (is_eagain l.errno) rmr_err_retry rmr_err_sendfailed (inl refl) (inr refl))

-- the result of a send for the end of its loop
abbrev pub loop_result : Origin → (ℕ → List ℕ) → Msg → Option Looped → Option (Option Msg × List ℕ)
loop_result ctx garbage m none = none
loop_result ctx garbage m (some l) = some (send_done ctx garbage m l, l.wire)

done-Settled :
    (ctx : Origin) (garbage : ℕ → List ℕ) (msg : Msg) (l : Looped) (ok : Bool)
    → (ok ≡ true → l.wire ≡ send_bytes ctx msg)
    → ((rest : List ℕ) × (l.wire ++ rest ≡ send_bytes ctx msg))
    → Settled ctx garbage msg
        (if ok
          then (if msg.noalloc
              then none
              else some (
                  alloc_zcmsg ctx garbage
                    (some (record msg { tp_buf = sent_buf ctx msg }))
                    0
                    rmr_ok
                    (tr_len_of (record msg { tp_buf = sent_buf ctx msg }))))
          else some (record msg { tp_buf = sent_buf ctx msg; state = failure l }))
        l.wire
unfolding Settled Failed
done-Settled ctx garbage msg l true w f = inl (w refl, refl)
done-Settled ctx garbage msg l false w f = inr (f, failure l, refl, failure-Failed l)

-- A send always returns, whatever the system answers: the message's bytes went out once and whole,
-- and the result is nil or a new message, as the caller wants; or the message comes back with the
-- state to retry or failed, and a front of its bytes, perhaps none, went out.
pub send_msg-Settled :
    (ctx : Origin) (garbage : ℕ → List ℕ) (os : ℕ → System) (msg : Msg) (retries : ℤ)
    → (r : Option Msg) × (wire : List ℕ) × (send_msg ctx garbage os msg retries ≡ some (r, wire))
      × Settled ctx garbage msg r wire
unfolding send_msg send_done IsFrontOf
send_msg-Settled ctx garbage os msg retries =
    let bytes = send_bytes ctx msg in
    let m = record msg { tp_buf = sent_buf ctx msg } in
    let (l, e, run) = whole_loop-Runs os bytes retries in
    let ((rest, front), whole) = si_sendt-IsFrontOf (os l.last) bytes in
    (
      send_done ctx garbage m l,
      l.wire,
      ap (loop_result ctx garbage m) e,
      done-Settled ctx garbage msg l l.sent (λ s. run.wired ∙ whole (run.was_sent s))
          (rest, ap (λ w. w ++ rest) run.wired ∙ front),
    )
