-- ===== src/Send/Loop.antt =====
-- sr_si_static.c: the loop of `send_msg` over SIsendt.
use mathlib.Core.List.{append-nil}
use ric_plt_lib_rmr.Base.{
  ℕ, zero, suc, ◌+◌, ◌-◌, ◌*◌, ◌≤◌, ◌<◌, ◌≡◌, refl, ap, ◌∙◌, Bool, true, false, Option, none, some,
  List, ◌++◌, arith, leb, if◌then◌else◌,
}
use ric_plt_lib_rmr.Base.Int.{ℤ, pos, negsuc}
use ric_plt_lib_rmr.Send.Wire.{
  Errno, SiState, si_ok, si_error, si_err_blocked, System, Sent, si_sendt, si_sendt-quiet,
}

-- `left` is the number of retries if it is positive, and 0 if it is not; `spins` is the spins left
-- before the processor is given up.
pub record Budget : Type 0 where
  pub left : ℕ
  pub spins : ℕ

unfoldable pub start_budget : ℤ → Budget
start_budget (pos zero) = record { left = 1; spins = 100 }
start_budget (pos (suc n)) = record { left = suc n; spins = 1000 }
start_budget (negsuc n) = record { left = 0; spins = 1000 }

-- after an attempt that would block
unfoldable pub spend : Budget → Budget
spend b =
    if leb b.spins 1
    then record { left = b.left - 1; spins = 1000 }
    else record { left = b.left; spins = b.spins - 1 }

-- How the loop ends: whether the message was sent, whether the last attempt would block, with
-- retries allowed, errno, the bytes that went out, and the number of the last attempt.
pub record Looped : Type 0 where
  pub sent : Bool
  pub blocked : Bool
  pub errno : Errno
  pub wire : List ℕ
  pub last : ℕ

abbrev pub loop_end : Bool → Bool → Sent → List ℕ → ℕ → Looped
loop_end ok blocked s wire k = record {
  sent = ok;
  blocked = blocked;
  errno = s.errno;
  wire = wire ++ s.wire;
  last = k;
}

-- `os` is what the system answers to the attempt of a number.
module _ (os : ℕ → System) (bytes : List ℕ) where
  abbrev attempt : ℕ → Sent
  attempt k = si_sendt (os k) bytes

  -- the end of a round; `again` is what the next ones come to
  unfoldable pub round_end : Budget → Sent → List ℕ → ℕ → Option Looped → Option Looped
  round_end b s wire k again = elim s.status [
    | si_ok ↦ some (loop_end true false s wire k)
    | si_error ↦ some (loop_end false false s wire k)
    | si_err_blocked ↦
        if leb b.left 0
        then some (loop_end false false s wire k)
        else if leb (spend b).left 0
        then some (loop_end false true s wire k)
        else again
  ]

  -- `do { } while( state && retries > 0 )` from attempt `k` on; `none` is the end of the fuel.
  unfoldable pub send_loop : ℕ → Budget → List ℕ → ℕ → Option Looped
  unfolding round_end
  send_loop zero b wire k = none
  send_loop (suc fuel) b wire k =
      round_end b (attempt k) wire k (send_loop fuel (spend b) (wire ++ (attempt k).wire) (suc k))

-- the most attempts
unfoldable pub most : Budget → ℕ
most b = if leb b.left 0 then 1 else (b.left - 1) * 1000 + b.spins

most-start :
    (n : ℕ)
    → (most (start_budget (pos 0)) ≡ 100)
      × (most (start_budget (pos (suc n))) ≡ 1000 * suc n)
      × (most (start_budget (negsuc n)) ≡ 1)
unfolding most start_budget
most-start n = (refl, ground arith, refl)

most-spend :
    (b : Budget)
    → 0 < b.spins
    → leb b.left 0 ≡ false
    → leb (spend b).left 0 ≡ false
    → (most (spend b) + 1 ≡ most b) × (0 < (spend b).spins)
unfolding most spend
most-spend b h e k = ground arith

most-last :
    (b : Budget) → 0 < b.spins → leb b.left 0 ≡ false → leb (spend b).left 0 ≡ true → most b ≡ 1
unfolding most spend
most-last b h e k = ground arith

pub most-positive : (b : Budget) → 0 < b.spins → 0 < most b
unfolding most
most-positive b h = ground arith

module _ (os : ℕ → System) (bytes : List ℕ) where
  -- What a run of the loop from attempt `k` on comes to: it makes at most so many attempts, all of
  -- them if it would still block; only the last one put bytes out, and it was good if the message
  -- counts as sent.
  pub record IsRun (b : Budget) (wire : List ℕ) (k : ℕ) (l : Looped) : Type 0 where
    pub some_tried : k ≤ l.last
    pub not_more : l.last < k + most b
    pub wired : l.wire ≡ wire ++ (si_sendt (os l.last) bytes).wire
    pub was_sent : l.sent ≡ true → (si_sendt (os l.last) bytes).status ≡ si_ok
    pub all_used : l.blocked ≡ true → l.last + 1 ≡ k + most b

  abbrev pub Runs : Budget → List ℕ → ℕ → Option Looped → Type 0
  Runs b wire k o = (l : Looped) × (o ≡ some l) × IsRun b wire k l

  stop-Runs :
      (b : Budget) (wire : List ℕ) (k : ℕ) (ok blocked : Bool)
      → 0 < b.spins
      → (ok ≡ true → (si_sendt (os k) bytes).status ≡ si_ok)
      → (blocked ≡ true → most b ≡ 1)
      → Runs b wire k (some (loop_end ok blocked (si_sendt (os k) bytes) wire k))
  stop-Runs b wire k ok blocked h s u = (
    loop_end ok blocked (si_sendt (os k) bytes) wire k,
    refl,
    record {
      some_tried = omega arith;
      not_more = omega (arith, most-positive b h);
      wired = refl;
      was_sent = s;
      all_used = λ e. omega (arith, u e);
    },
  )

  goes_on-Runs :
      (b : Budget) (wire : List ℕ) (k : ℕ) (again : Option Looped)
      → (si_sendt (os k) bytes).status ≡ si_err_blocked
      → most (spend b) + 1 ≡ most b
      → Runs (spend b) (wire ++ (si_sendt (os k) bytes).wire) (suc k) again
      → Runs b wire k again
  goes_on-Runs b wire k again st m (l, e, r) =
      let quiet : wire ++ (si_sendt (os k) bytes).wire ≡ wire =
        ap (λ w. wire ++ w) (si_sendt-quiet (os k) bytes st) ∙ append-nil wire in
      (
        l,
        e,
        record {
          some_tried = omega (arith, r.some_tried);
          not_more = omega (arith, r.not_more, m);
          wired = r.wired ∙ ap (λ w. w ++ (si_sendt (os l.last) bytes).wire) quiet;
          was_sent = r.was_sent;
          all_used = λ u. omega (arith, r.all_used u, m);
        },
      )

  if-Runs :
      (b : Budget) (wire : List ℕ) (k : ℕ) (c : Bool) (x y : Option Looped)
      → (c ≡ true → Runs b wire k x)
      → (c ≡ false → Runs b wire k y)
      → Runs b wire k (if c then x else y)
  if-Runs b wire k true x y h g = h refl
  if-Runs b wire k false x y h g = g refl

  round-Runs :
      (b : Budget) (wire : List ℕ) (k : ℕ) (again : Option Looped) (st : SiState)
      → (si_sendt (os k) bytes).status ≡ st
      → 0 < b.spins
      → (most (spend b) + 1 ≡ most b
          → 0 < (spend b).spins
          → Runs (spend b) (wire ++ (si_sendt (os k) bytes).wire) (suc k) again)
      → Runs b wire k (elim st [
        | si_ok ↦ some (loop_end true false (si_sendt (os k) bytes) wire k)
        | si_error ↦ some (loop_end false false (si_sendt (os k) bytes) wire k)
        | si_err_blocked ↦
            if leb b.left 0
            then some (loop_end false false (si_sendt (os k) bytes) wire k)
            else if leb (spend b).left 0
            then some (loop_end false true (si_sendt (os k) bytes) wire k)
            else again
      ])
  round-Runs b wire k again si_ok e h r = stop-Runs b wire k true false h (λ _. e) (λ u. cc)
  round-Runs b wire k again si_error e h r = stop-Runs b wire k false false h (λ u. cc) (λ u. cc)
  round-Runs b wire k again si_err_blocked e h r =
      if-Runs b wire k (leb b.left 0) (some (loop_end false false (si_sendt (os k) bytes) wire k))
        (if leb (spend b).left 0
          then some (loop_end false true (si_sendt (os k) bytes) wire k)
          else again)
        (λ _. stop-Runs b wire k false false h (λ u. cc) (λ u. cc))
        (λ more.
          if-Runs b wire k (leb (spend b).left 0)
            (some (loop_end false true (si_sendt (os k) bytes) wire k)) again
            (λ last. stop-Runs b wire k false true h (λ u. cc) (λ _. most-last b h more last))
            (λ still.
              let (m, s) = most-spend b h more still in goes_on-Runs b wire k again e m (r m s)))

  -- With at least as much fuel as there can be attempts the loop ends, and it makes no more of them.
  pub send_loop-IsRun :
      (fuel : ℕ) (b : Budget) (wire : List ℕ) (k : ℕ)
      → 0 < b.spins
      → most b ≤ fuel
      → Runs b wire k (send_loop os bytes fuel b wire k)
  unfolding send_loop round_end
  send_loop-IsRun zero b wire k h f = absurd (omega (arith, most-positive b h))
  send_loop-IsRun (suc fuel) b wire k h f =
      let wire' = wire ++ (si_sendt (os k) bytes).wire in
      round-Runs b wire k (send_loop os bytes fuel (spend b) wire' (suc k))
        (si_sendt (os k) bytes).status refl h
        (λ m s. send_loop-IsRun fuel (spend b) wire' (suc k) s (omega (arith, m, f)))
