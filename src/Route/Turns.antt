-- ===== src/Route/Turns.antt =====
-- rtable_si_static.c: the selections in a round robin group, one after the other.
use native.Mathlib.Nat.{mod-add-mod, mod-eq_of_lt, add-mod_right, mod-lt}
use ric_plt_lib_rmr.Base.{
  ℕ, zero, suc, ◌+◌, ◌-◌, ◌%◌, ◌^◌, ◌≡◌, ◌<◌, ◌≤◌, refl, sym, ◌∙◌, none, some, arith, if◌then◌else◌,
  ap, length, get_or, ◌⊎◌, inl, inr, ltb,
}
use ric_plt_lib_rmr.Route.{RrGroup}
use ric_plt_lib_rmr.Route.Select.{choose}

-- the group after `m` selections
unfoldable pub after_choices : ℕ → RrGroup → RrGroup
after_choices zero g = g
after_choices (suc m) g = after_choices m (choose g).1

-- The number that makes `r` up to `j` modulo `n`.
abbrev distance : ℕ → ℕ → ℕ → ℕ
distance n r j = if ltb j r then j + n - r else j - r

distance-sum : (n r j : ℕ) → r < n → (r + distance n r j ≡ j) ⊎ (r + distance n r j ≡ j + n)
distance-sum n r j h = ground arith

mod-sum : (n e j d : ℕ) → j < n → (e % n + d ≡ j) ⊎ (e % n + d ≡ j + n) → (e + d) % n ≡ j
mod-sum n e j d h (inl k) =
    sym (mod-add-mod e n d) ∙ ap (λ t. t % n) k ∙ mod-eq_of_lt {n = j} {m = n} h
mod-sum n e j d h (inr k) =
    sym (mod-add-mod e n d) ∙ ap (λ t. t % n) k ∙ add-mod_right j n ∙ mod-eq_of_lt {n = j} {m = n} h

distance_lem :
    (n e j : ℕ) → j < n → (distance n (e % n) j < n) × ((e + distance n (e % n) j) % n ≡ j)
distance_lem n e j h =
    let r = mod-lt e {m = n} (omega arith) in
    (ground (arith, r), mod-sum n e j (distance n (e % n) j) h (distance-sum n (e % n) j r))

module _ (g : RrGroup) (many : 2 ≤ length g.epts) where
  choose-many : choose g ≡ (
    some (g.ep_idx % length g.epts + 1, get_or g.epts (g.ep_idx % length g.epts) none),
    record g { ep_idx = (g.ep_idx + 1) % 2 ^ 16 },
  )
  unfolding choose
  choose-many = ground arith

after-many :
    (m : ℕ) (g : RrGroup)
    → 2 ≤ length g.epts
    → g.ep_idx + m < 0x10000
    → ((after_choices m g).epts ≡ g.epts) × ((after_choices m g).ep_idx ≡ g.ep_idx + m)
unfolding after_choices
after-many zero g many h = (refl, omega arith)
after-many (suc m) g many h =
    let next : RrGroup = record g { ep_idx = (g.ep_idx + 1) % 2 ^ 16 } in
    let (e, i) = after-many m next many (omega (arith, h)) in
    ground (arith, choose-many g many, e, i)

-- As long as the 16-bit index does not wrap, each of the endpoints of a group of two or more, at
-- any place j, is selected within as many selections as the group has endpoints, and the state that
-- is returned then tells its place.
pub every_turn :
    (g : RrGroup) (j : ℕ)
    → 2 ≤ length g.epts
    → g.ep_idx + length g.epts ≤ 0x10000
    → j < length g.epts
    → (m : ℕ) × (m < length g.epts)
      × ((choose (after_choices m g)).0 ≡ some (j + 1, get_or g.epts j none))
every_turn g j many small h =
    let m = distance (length g.epts) (g.ep_idx % length g.epts) j in
    let (near, place) = distance_lem (length g.epts) g.ep_idx j h in
    let (e, i) = after-many m g many (omega (arith, near, small)) in
    let chosen = choose-many (after_choices m g) (omega (arith, many, ap length e)) in
    (m, near, ground (arith, chosen, e, i, place))
