-- ===== src/Wormhole/Open.antt =====
-- wormholes.c: `rmr_wh_open`.
use ric_plt_lib_rmr.Base.{
  ℕ, zero, suc, ◌+◌, ◌≡◌, ◌≢◌, ◌↔◌, ◌<◌, ◌≤◌, refl, true, Option, none, some, List, [], ◌∷◌, ltb,
  if◌then◌else◌, length, get_or, arith, get_or-set, length-set, length-append, ap, ◌⊎◌, inl, inr,
  Bool-cases, Option-cases, get_or-replicate, get_or-outside,
}
use ric_plt_lib_rmr.Base.Int.{ℤ, pos, negsuc}
use ric_plt_lib_rmr.Endpoint.{Links, ep_at, rt_link2_ep}
use ric_plt_lib_rmr.Route.{rt_ensure_ep}
use ric_plt_lib_rmr.Wormhole.{
  WhCtx, Search, is_open, use_slot, no_holes, wh_init, wh_extend, holes, find_hole, hole_opened,
  searched, ensured, rmr_wh_open, hole_at, wh_endpoint, rmr_wh_state, rmr_ok,
}
use ric_plt_lib_rmr.Wormhole.Slots.{IsResult, FreeBefore, SameFrom, find_hole-IsResult}

holes-extend : (eps : List (Option ℕ)) (j : ℕ) → get_or (wh_extend eps) j none ≡ get_or eps j none
unfolding wh_extend
holes-extend [] j = get_or-replicate 16 j none
holes-extend (e ∷ eps) zero = refl
holes-extend (e ∷ eps) (suc j) = holes-extend eps j

length-extend : (eps : List (Option ℕ)) → length (wh_extend eps) ≡ length eps + 16
unfolding wh_extend
length-extend eps = rw (length-append eps no_holes) refl

link-open :
    (connect : List ℕ → ℤ) (l : Links) (p : ℕ)
    → (rt_link2_ep connect l p).0 ≡ true
    → (ep_at (rt_link2_ep connect l p).1 p).open_now ≡ true
unfolding rt_link2_ep
link-open connect l p h = elim (Bool-cases (ep_at l p).open_now) [
  | inl e ↦ ground (arith, e, h)
  | inr e ↦ ground (arith, e, h)
]

module _ (connect : List ℕ → ℤ) (c : WhCtx) (eps : List (Option ℕ)) (p w : ℕ) where
  abbrev grown : List (Option ℕ)
  grown = if ltb w (length eps) then eps else wh_extend eps

  grown_lem :
      w ≤ length eps → (w < length grown) × ((j : ℕ) → get_or grown j none ≡ get_or eps j none)
  grown_lem h = ground (arith, length-extend eps, holes-extend eps)

  hole_opened-state :
      (v : ℕ)
      → w ≤ length eps
      → (hole_opened connect c eps p w).0 ≡ pos v
      → rmr_wh_state (hole_opened connect c eps p w).1 (pos v) ≡ rmr_ok
  unfolding hole_opened rmr_wh_state wh_endpoint hole_at
  hole_opened-state v h e = ground (
    arith,
    grown_lem h,
    link-open connect c.store.links p,
    length-set grown w (some p),
    get_or-set grown w w (some p) none,
  )

  hole_opened-keeps :
      (u q : ℕ)
      → w ≤ length eps
      → (get_or eps w none ≡ none) ⊎ (get_or eps w none ≡ some p)
      → get_or eps u none ≡ some q
      → get_or (holes (hole_opened connect c eps p w).1) u none ≡ some q
  unfolding hole_opened
  hole_opened-keeps u q h slot e =
      let (room, same) = grown_lem h in
      ground (arith, same u, e, slot, get_or-set grown w u (some p) none room)

module _ (connect : List ℕ → ℤ) (c : WhCtx) (p : ℕ) where
  abbrev the_search : Search
  the_search = find_hole p (ep_at c.store.links p).open_now 0 none (holes c)

  search-IsResult :
      IsResult p
        (ep_at c.store.links p).open_now
        (length (holes c))
        (λ j. get_or (holes c) j none)
        the_search
  unfolding FreeBefore SameFrom
  search-IsResult =
      find_hole-IsResult p (ep_at c.store.links p).open_now (λ j. get_or (holes c) j none)
        (length (holes c)) (holes c) 0 none
        (λ j k e. ap (λ t. get_or (holes c) t none) (omega (arith, e))) tt (omega arith)

  module _ (made : c.wormholes ≡ some (holes c)) where
    searched-state :
        (found : Search) (v : ℕ)
        → IsResult p
            (ep_at c.store.links p).open_now
            (length (holes c))
            (λ j. get_or (holes c) j none)
            found
        → (searched connect c (holes c) p found).0 ≡ pos v
        → rmr_wh_state (searched connect c (holes c) p found).1 (pos v) ≡ rmr_ok
    unfolding searched IsResult rmr_wh_state wh_endpoint hole_at
    searched-state (is_open w) v r e = ground (arith, r, e, made)
    searched-state (use_slot w) v r e = hole_opened-state connect c (holes c) p w v r.0 e

    searched-keeps :
        (found : Search) (u q : ℕ)
        → IsResult p
            (ep_at c.store.links p).open_now
            (length (holes c))
            (λ j. get_or (holes c) j none)
            found
        → get_or (holes c) u none ≡ some q
        → get_or (holes (searched connect c (holes c) p found).1) u none ≡ some q
    unfolding searched IsResult
    searched-keeps (is_open w) u q r e = e
    searched-keeps (use_slot w) u q r e = hole_opened-keeps connect c (holes c) p w u q r.0 r.1 e

module _ (connect : List ℕ → ℤ) (c : WhCtx) where
  module _ (made : c.wormholes ≡ some (holes c)) where
    ensured-state :
        (ep : Option ℕ) (v : ℕ)
        → (ensured connect c (holes c) ep).0 ≡ pos v
        → rmr_wh_state (ensured connect c (holes c) ep).1 (pos v) ≡ rmr_ok
    unfolding ensured
    ensured-state none v e = ground (arith, e)
    ensured-state (some p) v e =
        searched-state connect c p made (the_search connect c p) v (search-IsResult connect c p) e

    ensured-keeps :
        (ep : Option ℕ) (u q : ℕ)
        → get_or (holes c) u none ≡ some q
        → get_or (holes (ensured connect c (holes c) ep).1) u none ≡ some q
    unfolding ensured
    ensured-keeps none u q e = e
    ensured-keeps (some p) u q e =
        searched-keeps connect c p made (the_search connect c p) u q (search-IsResult connect c p) e

no_holes-empty : (u : ℕ) → get_or no_holes u none ≡ none
no_holes-empty u = get_or-replicate 16 u none

-- the two ways to say that an id stands for an endpoint
endpoint-hole :
    (c : WhCtx) (u q : ℕ)
    → (wh_endpoint c (pos u) ≡ (rmr_ok, some q)) ↔ (get_or (holes c) u none ≡ some q)
unfolding wh_endpoint hole_at
endpoint-hole c u q = elim (Option-cases c.wormholes) [
  | inl e ↦ ground (arith, e, no_holes-empty u)
  | inr (w, e) ↦ ground (arith, e, get_or-outside w u none)
]

endpoint-below : (c : WhCtx) (n q : ℕ) → wh_endpoint c (negsuc n) ≢ (rmr_ok, some q)
unfolding wh_endpoint hole_at
endpoint-below c n q h = elim (Option-cases c.wormholes) [
  | inl e ↦ ground (arith, e, h)
  | inr (w, e) ↦ ground (arith, e, h)
]

init-made : (c : WhCtx) → (wh_init c).wormholes ≡ some (holes (wh_init c))
unfolding wh_init
init-made c = elim (Option-cases c.wormholes) [
  | inl e ↦ ground (arith, e)
  | inr (w, e) ↦ ground (arith, e)
]

holes-init : (c : WhCtx) → holes (wh_init c) ≡ holes c
unfolding wh_init
holes-init c = elim (Option-cases c.wormholes) [
  | inl e ↦ ground (arith, e)
  | inr (w, e) ↦ ground (arith, e)
]

module _ (connect : List ℕ → ℤ) (c : WhCtx) where
  -- A wormhole that was opened is in good state: the id that an open returns passes the check.
  pub open-state :
      (target : List ℕ) (w : ℕ)
      → (rmr_wh_open connect c target).0 ≡ pos w
      → rmr_wh_state (rmr_wh_open connect c target).1 (pos w) ≡ rmr_ok
  unfolding rmr_wh_open
  open-state [] w e = ground (arith, e)
  open-state (b ∷ target) w e =
      let c1 = wh_init c in
      let (ep, s) = rt_ensure_ep c1.store (b ∷ target) in
      ground (arith, e, ensured-state connect (record c1 { store = s }) (init-made c) ep w)

  -- An open, whether it fails or not, leaves the endpoint behind every id that was in use.
  pub open-keeps :
      (target : List ℕ) (whid : ℤ) (q : ℕ)
      → wh_endpoint c whid ≡ (rmr_ok, some q)
      → wh_endpoint (rmr_wh_open connect c target).1 whid ≡ (rmr_ok, some q)
  unfolding rmr_wh_open
  open-keeps [] whid q e = e
  open-keeps (b ∷ target) (negsuc n) q e = absurd (endpoint-below c n q e)
  open-keeps (b ∷ target) (pos u) q e =
      let c1 = wh_init c in
      let (ep, s) = rt_ensure_ep c1.store (b ∷ target) in
      let before = (endpoint-hole c u q).0 e in
      let keeps = ensured-keeps connect (record c1 { store = s }) (init-made c) ep u q in
      (endpoint-hole (rmr_wh_open connect c (b ∷ target)).1 u q).1
        (ground (arith, before, holes-init c, keeps))
