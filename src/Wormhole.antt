-- ===== src/Wormhole.antt =====
-- src/rmr/common/src/wormholes.c: direct connections to endpoints, which a user holds by id.
-- The endpoints stand in the store of the route tables; the wormholes of a context are `none` until
-- the first is opened. Memory is available.
pub mod Slots
pub mod Open
pub mod Close
pub mod Send
mod Tests
use ric_plt_lib_rmr.Base.{
  ℕ, ◌+◌, Bool, false, Option, none, some, List, [], ◌∷◌, ◌++◌, ltb, ◌==◌, if◌then◌else◌, length,
  get_or, set, replicate,
}
use ric_plt_lib_rmr.Base.Int.{ℤ, pos, negsuc}
use ric_plt_lib_rmr.Endpoint.{ep_at, rt_link2_ep}
use ric_plt_lib_rmr.Route.{Store, rt_ensure_ep}

-- `eps` is the array of a `wh_mgt_t`, of `nalloc` pointers; `has_rtable` says that there is an
-- active route table.
pub record WhCtx : Type 0 where
  pub wormholes : Option (List (Option ℕ))
  pub has_rtable : Bool
  pub store : Store

pub data WhState : Type 0 where
  rmr_ok rmr_err_whid rmr_err_noendpt rmr_err_nowhopen : WhState

abbrev pub no_holes : List (Option ℕ)
no_holes = replicate 16 none

-- What is there already is left alone.
unfoldable pub wh_init : WhCtx → WhCtx
wh_init c = record c { wormholes = elim c.wormholes [ none ↦ some no_holes | some w ↦ some w ] }

unfoldable pub wh_extend : List (Option ℕ) → List (Option ℕ)
wh_extend eps = eps ++ no_holes

abbrev pub holes : WhCtx → List (Option ℕ)
holes c = elim c.wormholes [ none ↦ no_holes | some w ↦ w ]

-- All wormholes are forgotten.
unfoldable wh_nuke : WhCtx → WhCtx
wh_nuke c = record c { wormholes = none }

-- What the search for an endpoint yields: an id that is returned at once, or the slot to use.
pub data Search : Type 0 where
  is_open use_slot : ℕ → Search

is_ep : ℕ → Option ℕ → Bool
is_ep p none = false
is_ep p (some q) = p == q

-- The loop over the slots from `i` on. The first slot that is empty is kept in `free`, `none`
-- standing for `whid == nalloc`.
unfoldable pub find_hole : ℕ → Bool → ℕ → Option ℕ → List (Option ℕ) → Search
unfolding is_ep
find_hole p linked i free [] = use_slot (elim free [ none ↦ i | some w ↦ w ])
find_hole p linked i free (e ∷ eps) =
    let free' : Option ℕ = elim free [
      | some w ↦ some w
      | none ↦ elim e [ none ↦ some i | some q ↦ none ]
    ] in
    let rest = find_hole p linked (i + 1) free' eps in
    if is_ep p e then (if linked then is_open i else use_slot i) else rest

module _ (connect : List ℕ → ℤ) where
  -- The connection is made, and the endpoint put into its slot.
  hole_opened : WhCtx → List (Option ℕ) → ℕ → ℕ → ℤ × WhCtx
  hole_opened c eps p w =
      let eps' = if ltb w (length eps) then eps else wh_extend eps in
      let (ok, l) = rt_link2_ep connect c.store.links p in
      let s = record c.store { links = l } in
      if ok
      then (pos w, record c { wormholes = some (set eps' w (some p)); store = s })
      else (negsuc 0, record c { wormholes = some eps'; store = s })

  searched : WhCtx → List (Option ℕ) → ℕ → Search → ℤ × WhCtx
  unfolding hole_opened
  searched c eps p (is_open w) = (pos w, c)
  searched c eps p (use_slot w) = hole_opened c eps p w

  ensured : WhCtx → List (Option ℕ) → Option ℕ → ℤ × WhCtx
  unfolding searched
  ensured c eps none = (negsuc 0, c)
  ensured c eps (some p) =
      searched c eps p (find_hole p (ep_at c.store.links p).open_now 0 none eps)

  -- The id of a wormhole to a target, or -1. The route table is held meanwhile.
  unfoldable pub rmr_wh_open : WhCtx → List ℕ → ℤ × WhCtx
  unfolding ensured
  rmr_wh_open c [] = (negsuc 0, c)
  rmr_wh_open c (b ∷ target) =
      let c1 = wh_init c in
      let (ep, s) = rt_ensure_ep c1.store (b ∷ target) in
      if c1.has_rtable then ensured (record c1 { store = s }) (holes c1) ep else (negsuc 0, c1)

-- what is in the slot of an id, nothing if it is out of range
unfoldable pub hole_at : List (Option ℕ) → ℤ → Option ℕ
hole_at eps (pos w) = if ltb w (length eps) then get_or eps w none else none
hole_at eps (negsuc n) = none

clear_hole : List (Option ℕ) → ℤ → List (Option ℕ)
clear_hole eps (pos w) = set eps w none
clear_hole eps (negsuc n) = eps

unfoldable pub rmr_wh_close : WhCtx → ℤ → WhCtx
unfolding clear_hole
rmr_wh_close c whid = record c {
  wormholes = elim c.wormholes [ none ↦ none | some eps ↦ some (clear_hole eps whid) ];
}

-- the check at the start of the calls that use a wormhole, and the endpoint behind an id
unfoldable pub wh_endpoint : WhCtx → ℤ → WhState × Option ℕ
wh_endpoint c whid = elim c.wormholes [
  | none ↦ (rmr_err_nowhopen, none)
  | some eps ↦ elim (hole_at eps whid) [ none ↦ (rmr_err_whid, none) | some p ↦ (rmr_ok, some p) ]
]

unfoldable pub rmr_wh_state : WhCtx → ℤ → WhState
rmr_wh_state c whid =
    let (rc, ep) = wh_endpoint c whid in
    elim ep [
      | none ↦ rc
      | some p ↦ if (ep_at c.store.links p).open_now then rmr_ok else rmr_err_noendpt
    ]
