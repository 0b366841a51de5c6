-- ===== src/Wormhole/Close.antt =====
-- wormholes.c: `rmr_wh_close`.
use ric_plt_lib_rmr.Base.{
  ℕ, ◌≡◌, ◌≢◌, refl, Option, none, some, List, arith, get_or-set, length-set, set-outside, ap, inl,
  inr, Option-cases,
}
use ric_plt_lib_rmr.Base.Int.{ℤ, pos, negsuc}
use ric_plt_lib_rmr.Wormhole.{
  WhCtx, hole_at, clear_hole, rmr_wh_close, wh_endpoint, rmr_wh_state, rmr_err_whid,
  rmr_err_nowhopen,
}

module _ (eps : List (Option ℕ)) where
  cleared-same : (w : ℤ) → hole_at (clear_hole eps w) w ≡ none
  unfolding hole_at clear_hole
  cleared-same (pos w) = ground (arith, get_or-set eps w w none none, length-set eps w none)
  cleared-same (negsuc n) = refl

  cleared-other : (w u : ℤ) → u ≢ w → hole_at (clear_hole eps w) u ≡ hole_at eps u
  unfolding hole_at clear_hole
  cleared-other (pos w) (pos u) ne = ground (
    arith,
    get_or-set eps w u none none,
    length-set eps w none,
    set-outside eps w none,
    λ (e : u ≡ w). ne (ap pos e),
  )
  cleared-other (pos w) (negsuc n) ne = refl
  cleared-other (negsuc m) u ne = refl

module _ (c : WhCtx) (whid : ℤ) where
  -- After a close of an id, a check of it says that the context has no wormholes, if none was
  -- allocated, and else that the id is not one.
  pub close-state :
      rmr_wh_state (rmr_wh_close c whid) whid
      ≡ elim c.wormholes [ none ↦ rmr_err_nowhopen | some _ ↦ rmr_err_whid ]
  unfolding rmr_wh_close wh_endpoint rmr_wh_state
  close-state = elim (Option-cases c.wormholes) [
    | inl e ↦ ground (arith, e)
    | inr (eps, e) ↦ ground (arith, e, cleared-same eps whid)
  ]

  -- A close leaves every other id as it was: the same check, with the same endpoint behind it.
  pub close-others : (u : ℤ) → u ≢ whid → wh_endpoint (rmr_wh_close c whid) u ≡ wh_endpoint c u
  unfolding rmr_wh_close wh_endpoint
  close-others u ne = elim (Option-cases c.wormholes) [
    | inl e ↦ rw (e) refl
    | inr (eps, e) ↦ ground (arith, e, cleared-other eps whid u ne)
  ]
