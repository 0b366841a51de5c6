-- ===== src/Receive/Deliver.antt =====
-- mt_call_si_static.c: where a received message ends up, and what a disconnect leaves.
use ric_plt_lib_rmr.Base.{
  ap, ◌⊎◌, ℕ, ◌+◌, ◌-◌, ◌%◌, ◌^◌, ◌<◌, ◌≡◌, refl, Bool, true, false, some, List, arith, length,
  length-set, get_or, get_or-set, Option,
}
use ric_plt_lib_rmr.Ring.{Ring, Eventfd, IsSemaphore, uta_ring_insert}
use ric_plt_lib_rmr.Ring.Queue
use ric_plt_lib_rmr.Ring.Valid.{contents}
use ric_plt_lib_rmr.Ring.Refine.{Good, insert_alone}
use ric_plt_lib_rmr.River.{Raw}
use ric_plt_lib_rmr.Receive.{
  Ctx, Chute, no_chute, post, queued, queue_normal, is_call_msg, rmr_d1_len, call_id, dispatch,
}

abbrev pub to_nat : Bool → ℕ
to_nat true = 1
to_nat false = 0

module _ (fd : Eventfd) (sem : IsSemaphore fd) (now : ℕ) (ctx : Ctx) (p : ℕ) where
  abbrev pub pushed : Bool × List (Option ℕ)
  pushed = Queue.push (ctx.mring.nelements - 1) (contents ctx.mring) (some p)

  -- What queueing a message does, in terms of the queue that the ring holds.
  pub record Queued (ctx' : Ctx) : Type 0 where
    pub queue : contents ctx'.mring ≡ pushed.1
    pub good : Good ctx'.mring
    pub enqueued : ctx'.acc_ecount ≡ (ctx.acc_ecount + to_nat pushed.0) % 2 ^ 64
    pub dropped : ctx'.acc_dcount ≡ (ctx.acc_dcount + (1 - to_nat pushed.0)) % 2 ^ 64
    pub woken :
        (get_or ctx'.chutes 0 no_chute).barrier
        ≡ (get_or ctx.chutes 0 no_chute).barrier + to_nat pushed.0

  queued-Queued :
      (ok : Bool) (ring : Ring)
      → ok ≡ pushed.0
      → contents ring ≡ pushed.1
      → Good ring
      → 0 < length ctx.chutes
      → ctx.acc_ecount < 2 ^ 64
      → ctx.acc_dcount < 2 ^ 64
      → Queued (queued fd now ctx ok ring)
  unfolding queued
  queued-Queued true ring ok q g some_chute e d = record {
    queue = q;
    good = g;
    enqueued = rw (← ok);
    dropped = rw (← ok) (omega arith);
    woken = rw (← ok) (
        ap Chute.barrier
          (get_or-set ctx.chutes 0 0 (post (get_or ctx.chutes 0 no_chute)) no_chute some_chute));
  }
  queued-Queued false ring ok q g some_chute e d = record {
    queue = q;
    good = g;
    enqueued = rw (← ok) (omega arith);
    dropped = rw (← ok);
    woken = rw (← ok) (omega arith);
  }

  -- With a valid ring whose event count is right, at least one chute, and counters of 64 bits: a
  -- message goes to the end of the ring, is counted and wakes the receiver if there is room; else it
  -- is counted as dropped and the queue stays as it is.
  pub queue_normal-Queued :
      Good ctx.mring
      → 0 < length ctx.chutes
      → ctx.acc_ecount < 2 ^ 64
      → ctx.acc_dcount < 2 ^ 64
      → Queued (queue_normal fd now ctx p)
  unfolding queue_normal
  queue_normal-Queued g some_chute e d =
      let (ok, q, g') = insert_alone fd sem ctx.mring (some p) g in
      queued-Queued (uta_ring_insert fd true (λ r. r) ctx.mring (some p)).0
        (uta_ring_insert fd true (λ r. r) ctx.mring (some p)).1 ok q g' some_chute e d

length-queued :
    (fd : Eventfd) (now : ℕ) (ctx : Ctx) (ok : Bool) (ring : Ring)
    → length (queued fd now ctx ok ring).chutes ≡ length ctx.chutes
unfolding queued
length-queued fd now ctx true ring = length-set ctx.chutes 0 (post (get_or ctx.chutes 0 no_chute))
length-queued fd now ctx false ring = refl

-- Queueing keeps the number of chutes.
pub length-queue_normal :
    (fd : Eventfd) (now : ℕ) (ctx : Ctx) (p : ℕ)
    → length (queue_normal fd now ctx p).chutes ≡ length ctx.chutes
unfolding queue_normal
length-queue_normal fd now ctx p =
    let (ok, ring) = uta_ring_insert fd true (λ r. r) ctx.mring (some p) in
    length-queued fd now ctx ok ring

module _ (fd : Eventfd) (now : ℕ) (ctx : Ctx) (raw : Raw) (p : ℕ) where
  -- A call message, a message without extra data, and one with call id 0 is queued.
  pub dispatch-queue :
      (is_call_msg raw ≡ true) ⊎ (rmr_d1_len raw ≡ 0) ⊎ (call_id raw ≡ 0)
      → dispatch fd now ctx raw p ≡ queue_normal fd now ctx p
  unfolding dispatch
  dispatch-queue h = ground arith
