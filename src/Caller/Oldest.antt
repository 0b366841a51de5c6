-- ===== src/Caller/Oldest.antt =====
-- rmr_si.c: rmr_mt_rcv takes the oldest message of the ring; it is the only receiver at that time.
use mathlib.Core.Path.{subst}
use ric_plt_lib_rmr.Base.{
  ◌≡◌, refl, ap, ◌∙◌, sym, true, false, Option, none, some, List, if◌then◌else◌,
}
use ric_plt_lib_rmr.Base.Int.{ℤ}
use ric_plt_lib_rmr.Ring.{Ring, Eventfd, IsSemaphore, Pointer, uta_ring_extract}
use ric_plt_lib_rmr.Ring.Queue
use ric_plt_lib_rmr.Ring.Valid.{contents}
use ric_plt_lib_rmr.Ring.Refine.{Good, extract_alone}
use ric_plt_lib_rmr.Receive.{Ctx, set_chute}
use ric_plt_lib_rmr.Send.Message.{rmr_ok, Msg}
use ric_plt_lib_rmr.Caller.{
  Answer, await, Got, taken, mbuf_at, received_msg, timed_out, not_queued, with_ring, unpost, poll,
  polled, oldest_of, take_oldest, waited, is_poll, rmr_mt_rcv,
}

-- the result of a receive for what the ring gave
abbrev pub taken_or : Ctx → Option Msg → Pointer → Got
taken_or ctx old none = timed_out old
taken_or ctx old (some p) = taken p (record (received_msg (mbuf_at ctx p)) { state = rmr_ok })

abbrev pub polled_or : Ctx → Option Msg → Pointer → Got
polled_or ctx old none = not_queued old
polled_or ctx old (some p) = taken p (received_msg (mbuf_at ctx p))

oldest_of-got :
    (ctx : Ctx) (old : Option Msg) (x : Pointer) (r : Ring)
    → ((oldest_of ctx old (x, r)).0 ≡ taken_or ctx old x)
      × ((oldest_of ctx old (x, r)).1 ≡ with_ring ctx r)
unfolding oldest_of
oldest_of-got ctx old none r = (refl, refl)
oldest_of-got ctx old (some p) r = (refl, refl)

-- the context after a poll
abbrev pub polled_ctx : Ctx → Pointer → Ring → Ctx
polled_ctx ctx none r = with_ring ctx r
polled_ctx ctx (some p) r = set_chute (with_ring ctx r) 0 unpost

polled-got :
    (ctx : Ctx) (old : Option Msg) (x : Pointer) (r : Ring)
    → ((polled ctx old (x, r)).0 ≡ polled_or ctx old x)
      × ((polled ctx old (x, r)).1.mring ≡ r)
      × ((polled ctx old (x, r)).1 ≡ polled_ctx ctx x r)
unfolding polled
polled-got ctx old none r = (refl, refl, refl)
polled-got ctx old (some p) r = (refl, refl, refl)

-- the other threads do nothing to the ring
abbrev pub alone : Ring → Ring
alone r = r

module _ (fd : Eventfd) (sem : IsSemaphore fd) (old : Option Msg) where
  pub take_oldest-pop :
      (ctx : Ctx)
      → Good ctx.mring
      → let (got, ctx') = take_oldest fd true alone ctx old in
        let (x, q) = Queue.pop (contents ctx.mring) in
        (got ≡ taken_or ctx old x)
        × (contents ctx'.mring ≡ q)
        × Good ctx'.mring
        × (ctx' ≡ with_ring ctx ctx'.mring)
  unfolding take_oldest
  take_oldest-pop ctx g =
      let (x, ring) = uta_ring_extract fd true alone ctx.mring in
      let (e, c, g') = extract_alone fd sem ctx.mring g in
      let (got, after) = oldest_of-got ctx old x ring in
      let same : (oldest_of ctx old (x, ring)).1.mring ≡ ring = ap Ctx.mring after in
      (
        got ∙ ap (taken_or ctx old) e,
        ap contents same ∙ c,
        subst Good (sym same) g',
        after ∙ ap (with_ring ctx) (sym same),
      )

  pub poll-pop :
      (ctx : Ctx)
      → Good ctx.mring
      → let (got, ctx') = poll fd true alone ctx old in
        let (x, q) = Queue.pop (contents ctx.mring) in
        (got ≡ polled_or ctx old x)
        × (contents ctx'.mring ≡ q)
        × Good ctx'.mring
        × (ctx' ≡ polled_ctx ctx x ctx'.mring)
  unfolding poll
  poll-pop ctx g =
      let (x, ring) = uta_ring_extract fd true alone ctx.mring in
      let (e, c, g') = extract_alone fd sem ctx.mring g in
      let (got, same, after) = polled-got ctx old x ring in
      (
        got ∙ ap (polled_or ctx old) e,
        ap contents same ∙ c,
        subst Good (sym same) g',
        after
            ∙ ap (λ y. polled_ctx ctx y ring) e
            ∙ ap (polled_ctx ctx (Queue.pop (contents ctx.mring)).0) (sym same),
      )

  -- A wait that ends well gives the oldest message of the ring as it is then, with the state RMR_OK,
  -- and takes it off the queue; should the queue be empty, the message that was given comes back with
  -- the state RMR_ERR_TIMEOUT. The ring is valid and its event count right, and there is one
  -- receiver only: it gets the lock of the ring, and nobody else takes from it.
  pub rmr_mt_rcv-oldest :
      (answers : List Answer) (ctx c : Ctx) (max_wait : ℤ)
      → is_poll max_wait ≡ false
      → await answers ctx ≡ some (true, c)
      → Good c.mring
      → (c' : Ctx) × (rmr_mt_rcv fd true alone answers ctx old max_wait
          ≡ some (taken_or c old (Queue.pop (contents c.mring)).0, c'))
        × (contents c'.mring ≡ (Queue.pop (contents c.mring)).1)
  unfolding rmr_mt_rcv waited
  rmr_mt_rcv-oldest answers ctx c max_wait waits e g =
      let (got, queue, _, _) = take_oldest-pop c g in
      let end = waited fd true alone old in
      (
        (take_oldest fd true alone c old).1,
        ap (λ b. if b then some (poll fd true alone ctx old) else end (await answers ctx)) waits
            ∙ ap end e
            ∙ ap (λ r. some (r, (take_oldest fd true alone c old).1)) got,
        queue,
      )
