-- ===== src/Caller/Matched.antt =====
-- rmr_si.c, mt_call_si_static.c: what arriving and taken messages make of the receivers' ring and
-- semaphore, in steps between which other threads act. An insertion and an extraction are one step
-- each: each holds a lock of the ring. Polls and rmr_rcv_specific, which take a message without a
-- post or put one back without a post, are no steps here.
use ric_plt_lib_rmr.Base.{
  ℕ, ◌+◌, ◌-◌, ◌<◌, ◌≡◌, ◌≢◌, ◌⊎◌, inl, inr, refl, ap, Bool, true, false, Option, none, some, List,
  [], ◌∷◌, ◌++◌, arith, leb, ltb, length, get_or, length-append, get_or-set, set-outside,
  Bool-cases, ◌%◌, ◌^◌,
}
use ric_plt_lib_rmr.Ring.{Ring, Eventfd, Pointer, uta_ring_insert}
use ric_plt_lib_rmr.Ring.Queue
use ric_plt_lib_rmr.Ring.Valid.{contents}
use ric_plt_lib_rmr.Ring.Refine.{Good}
use ric_plt_lib_rmr.Receive.{Ctx, Chute, no_chute, set_chute, post, queued, queue_normal}
use ric_plt_lib_rmr.Receive.Deliver.{to_nat}
use ric_plt_lib_rmr.Send.Message.{Msg}
use ric_plt_lib_rmr.Caller.{chute_at, unpost, with_ring, take_oldest}

-- There is no nil pointer in a queue.
abbrev pub NoNil : List Pointer → Type 0
NoNil [] = Unit {0}
NoNil (x ∷ q) = ((p : ℕ) × (x ≡ some p)) × NoNil q

-- `inserted` threads put a message into the ring and have not posted the semaphore yet; `woken`
-- receivers took a post and not yet a message.
pub record Receivers : Type 0 where
  pub ctx : Ctx
  pub inserted : ℕ
  pub woken : ℕ

-- after the insertion of a message: one that was dropped is counted
abbrev pub after_insert : Eventfd → ℕ → Receivers → Bool × Ring → Receivers
after_insert fd now s (true, r) = record s { ctx = with_ring s.ctx r; inserted = s.inserted + 1 }
after_insert fd now s (false, r) = record s { ctx = queued fd now s.ctx false r }

-- the post, with the count of the messages that were queued
abbrev pub posted : Ctx → Ctx
posted ctx = set_chute (record ctx { acc_ecount = (ctx.acc_ecount + 1) % 2 ^ 64 }) 0 post

-- `queue_normal` inserts, then posts; a receiver waits, then takes the oldest message.
pub data Step (fd : Eventfd) : Receivers → Receivers → Type 0 where
  inserts :
      (s : Receivers) (now p : ℕ)
      → Step fd s (after_insert fd now s (uta_ring_insert fd true (λ r. r) s.ctx.mring (some p)))
  posts :
      (s : Receivers) (i : ℕ)
      → s.inserted ≡ i + 1
      → Step fd s (record s { ctx = posted s.ctx; inserted = i })
  waits :
      (s : Receivers)
      → 0 < (chute_at s.ctx 0).barrier
      → Step fd s (record s { ctx = set_chute s.ctx 0 unpost; woken = s.woken + 1 })
  takes :
      (s : Receivers) (old : Option Msg)
      → 0 < s.woken
      → Step fd s
          (record s { ctx = (take_oldest fd true (λ r. r) s.ctx old).1; woken = s.woken - 1 })
  answer :
      (s : Receivers) (id : ℕ) (f : Chute → Chute)
      → id ≢ 0
      → Step fd s (record s { ctx = set_chute s.ctx id f })

pub data Reach (fd : Eventfd) (s : Receivers) : Receivers → Type 0 where
  here : Reach fd s s
  next : {t u : Receivers} → Reach fd s t → Step fd t u → Reach fd s u

-- A valid ring of messages; a post of the semaphore, a thread that has yet to post, or a receiver
-- that has yet to take one, for each message.
pub record IsMatched (s : Receivers) : Type 0 where
  pub good : Good s.ctx.mring
  pub full : NoNil (contents s.ctx.mring)
  pub one_each : (chute_at s.ctx 0).barrier + s.inserted + s.woken ≡ length (contents s.ctx.mring)
  pub some_chute : 0 < length s.ctx.chutes

queued-Reach :
    (fd : Eventfd) (s : Receivers) (now : ℕ) (ok : Bool) (r : Ring)
    → Step fd s (after_insert fd now s (ok, r))
    → Reach fd s (record s { ctx = queued fd now s.ctx ok r })
unfolding queued
queued-Reach fd s now true r st =
    next (next here st) (posts (after_insert fd now s (true, r)) s.inserted refl)
queued-Reach fd s now false r st = next here st

-- The whole of `queue_normal` is such steps.
pub queue_normal-Reach :
    (fd : Eventfd) (s : Receivers) (now p : ℕ)
    → Reach fd s (record s { ctx = queue_normal fd now s.ctx p })
unfolding queue_normal
queue_normal-Reach fd s now p =
    let (ok, r) = uta_ring_insert fd true (λ r. r) s.ctx.mring (some p) in
    queued-Reach fd s now ok r (inserts s now p)

NoNil-append : (p : ℕ) (q : List Pointer) → NoNil q → NoNil (q ++ (some p ∷ []))
NoNil-append p [] h = ((p, refl), tt)
NoNil-append p (x ∷ q) h = (h.0, NoNil-append p q h.1)

-- A push keeps a queue without nil, and makes it longer if it succeeds.
pub push_lem :
    (cap p : ℕ) (q : List Pointer)
    → NoNil q
    → NoNil (Queue.push cap q (some p)).1
      × (length (Queue.push cap q (some p)).1 ≡ length q + to_nat (Queue.push cap q (some p)).0)
unfolding Queue.push
push_lem cap p q h = elim (Bool-cases (leb cap (length q))) [
  | inl y ↦ rw y (h, omega arith)
  | inr n ↦ rw n (NoNil-append p q h, length-append q (some p ∷ []))
]

-- A pop of a queue without nil gives a message unless the queue is empty.
pub pop_lem :
    (q : List Pointer)
    → NoNil q
    → NoNil (Queue.pop q).1
      × (((Queue.pop q).0 ≡ none) × (length q ≡ 0) × (length (Queue.pop q).1 ≡ 0)
          ⊎ ((p : ℕ) × ((Queue.pop q).0 ≡ some p) × (length q ≡ length (Queue.pop q).1 + 1)))
unfolding Queue.pop
pop_lem [] h = (tt, inl (refl, refl, refl))
pop_lem (x ∷ q) ((p, e), h) = (h, inr (p, e, omega arith))

pub chute_kept :
    (ctx : Ctx) (id : ℕ) (f : Chute → Chute)
    → id ≢ 0
    → (chute_at (set_chute ctx id f) 0).barrier ≡ (chute_at ctx 0).barrier
chute_kept ctx id f other =
    let c = f (chute_at ctx id) in
    elim (Bool-cases (ltb id (length ctx.chutes))) [
      | inl y ↦ ground (arith, y, other, get_or-set ctx.chutes id 0 c no_chute (ground (arith, y)))
      | inr n ↦
          ap (λ l. (get_or l 0 no_chute).barrier) (set-outside ctx.chutes id c (ground (arith, n)))
    ]

pub changed :
    (ctx : Ctx) (f : Chute → Chute)
    → 0 < length ctx.chutes
    → (chute_at (set_chute ctx 0 f) 0).barrier ≡ (f (chute_at ctx 0)).barrier
changed ctx f h = ap Chute.barrier (get_or-set ctx.chutes 0 0 (f (chute_at ctx 0)) no_chute h)
