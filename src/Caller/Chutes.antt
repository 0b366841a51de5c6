-- ===== src/Caller/Chutes.antt =====
-- src/rmr/common/src/mt_call_static.c: `init_mtcall`, and which call ids it makes ready.
use ric_plt_lib_rmr.Base.{
  ℕ, zero, suc, ◌+◌, ◌≤◌, ◌<◌, ◌≡◌, ◌↔◌, refl, ap, ◌∙◌, set, length, length-set, length-replicate,
  sym, get_or-set, get_or-replicate, Bool, true, false, Option, none, some, List, arith, ltb,
  if◌then◌else◌, get_or, replicate,
}
use ric_plt_lib_rmr.Receive.{Chute, no_chute}

abbrev pub max_call_id : ℕ
max_call_id = 255

-- `n` chutes that are made ready, from the one at `i` on
unfoldable pub ready_from : ℕ → ℕ → List (Option Chute) → List (Option Chute)
ready_from zero i chutes = chutes
ready_from (suc n) i chutes = ready_from n (i + 1) (set chutes i (some no_chute))

-- The chutes as `init_mtcall` leaves them, when there is memory; `none` is what was in the memory.
-- The loop is over MAX_CALL_ID chutes.
unfoldable pub init_mtcall : List (Option Chute)
init_mtcall = ready_from max_call_id 0 (replicate (max_call_id + 1) none)

length-ready : (n i : ℕ) (c : List (Option Chute)) → length (ready_from n i c) ≡ length c
unfolding ready_from
length-ready zero i c = refl
length-ready (suc n) i c =
    length-ready n (i + 1) (set c i (some no_chute)) ∙ length-set c i (some no_chute)

ready-at :
    (n i k : ℕ) (c : List (Option Chute))
    → i + n ≤ length c
    → get_or (ready_from n i c) k none ≡ (
        if ltb k i
        then get_or c k none
        else if ltb k (i + n)
        then some no_chute
        else get_or c k none)
unfolding ready_from
ready-at zero i k c h = ground arith
ready-at (suc n) i k c h =
    let ih =
      ready-at n (i + 1) k (set c i (some no_chute))
        (omega (arith, length-set c i (some no_chute))) in
    ground (arith, ih, get_or-set c i k (some no_chute) none (omega arith))

made_ready :
    (n id : ℕ)
    → get_or (ready_from n 0 (replicate (n + 1) none)) id none
      ≡ (if ltb id n then some no_chute else none)
made_ready n id =
    let missing : Option Chute = none in
    let c = replicate (n + 1) missing in
    let room = length-replicate (n + 1) missing in
    let at = ready-at n 0 id c (omega (arith, room)) in
    ground (arith, at, get_or-replicate (n + 1) id missing)

if-some : (b : Bool) → (if b then some no_chute else none) ≡ some no_chute → b ≡ true
if-some true h = refl
if-some false h = cc

-- Of the ids that a caller may use, 2 to 255, exactly those below 255 have a chute that was made
-- ready.
init_mtcall-last :
    (id : ℕ)
    → 2 ≤ id
    → id ≤ max_call_id
    → (get_or init_mtcall id none ≡ some no_chute) ↔ (id < max_call_id)
unfolding init_mtcall
init_mtcall-last id low high = (
  λ e. ground (arith, if-some (ltb id max_call_id) (sym (made_ready max_call_id id) ∙ e)),
  λ l.
      (let y : ltb id max_call_id ≡ true = ground (arith, l) in
        made_ready max_call_id id ∙ ap (λ b. if b then some no_chute else none) y),
)
