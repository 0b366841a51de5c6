-- ===== src/Route/Opened.antt =====
-- rtable_si_static.c: the endpoint that a selection gives, and its connection.
use native.Mathlib.Decide.{dec_lt}
use mathlib.Core.Option.{some-injective}
use mathlib.Core.Path.{subst}
use ric_plt_lib_rmr.Base.{
  ℕ, ◌%◌, ◌≡◌, ◌≢◌, ◌<◌, refl, sym, ◌∙◌, Bool, true, false, Option, none, some, List, arith, ap,
  length, get_or, get_or-set, length-set, take,
}
use ric_plt_lib_rmr.Base.Int.{ℤ, pos, negsuc}
use ric_plt_lib_rmr.Endpoint.{Links, ep_at, linked, uta_link2, fd2ep_add, no_endpoint}
use ric_plt_lib_rmr.Route.{Store, RrGroup, rte_at, group_at, set_group}
use ric_plt_lib_rmr.Route.Select.{
  Selected, choose, open_ep, give_ep, uta_epsock_rr, give, select_from, more_of,
}

module _ (connect : List ℕ → ℤ) where
  length-linked : (l : Links) (p : ℕ) (z : ℤ) → length (linked connect l p z).1.eps ≡ length l.eps
  unfolding linked fd2ep_add
  length-linked l p (pos n) =
      length-set l.eps p (record (ep_at l p) { nn_sock = pos n; open_now = true; notify = true })
  length-linked l p (negsuc n) =
      length-set l.eps p (record (ep_at l p) { nn_sock = negsuc n; notify = false })

  length-link2 : (l : Links) (p : ℕ) → length (uta_link2 connect l p).1.eps ≡ length l.eps
  unfolding uta_link2
  length-link2 l p =
      let e = ep_at l p in
      ground (
        arith,
        length-set l.eps p (record e { notify = false }),
        length-linked l p (connect (take 511 e.name)),
      )

  module _ (registers more : Bool) (state : ℕ) (s : Store) (p : ℕ) where
    give_ep-IsOpen :
        p < length s.links.eps
        → (give_ep connect registers more state s p).state ≢ 0
        → let r = give_ep connect registers more state s p in
          ((ep_at r.store.links p).open_now ≡ true)
          × (r.nn_sock ≡ some (ep_at r.store.links p).nn_sock)
    unfolding give_ep open_ep fd2ep_add
    give_ep-IsOpen h ok =
        let l = (uta_link2 connect s.links p).1 in
        let there = length-link2 s.links p in
        ground (
          arith,
          h,
          there,
          ok,
          get_or-set l.eps p p (record (ep_at l p) { open_now = true }) no_endpoint,
        )

uep-give_ep :
    (connect : List ℕ → ℤ) (registers more : Bool) (state : ℕ) (s : Store) (p : ℕ)
    → (give_ep connect registers more state s p).uep ≡ some p
unfolding give_ep
uep-give_ep connect registers more state s p = ground arith

choose-slot :
    (g : RrGroup) (st : ℕ) (e : Option ℕ)
    → (choose g).0 ≡ some (st, e)
    → (i : ℕ) × (get_or g.epts i none ≡ e)
unfolding choose
choose-slot g st e h = elim (dec_lt 1 (length g.epts)) [
  | yes many ↦ (g.ep_idx % length g.epts, ground (arith, many, h))
  | no few ↦ (0, ground (arith, few, h))
]

-- the slots of a group that are not nil point at endpoints
abbrev pub AllThere : Store → RrGroup → Type 0
AllThere s g = (i p : ℕ) → get_or g.epts i none ≡ some p → p < length s.links.eps

-- a selection of an endpoint in a group, which is open, with its own socket
abbrev pub IsOpened : RrGroup → Selected → Type 0
IsOpened g r =
    (i : ℕ) × (p : ℕ) × (get_or g.epts i none ≡ some p)
    × (r.uep ≡ some p)
    × ((ep_at r.store.links p).open_now ≡ true)
    × (r.nn_sock ≡ some (ep_at r.store.links p).nn_sock)

module _ (connect : List ℕ → ℤ) (more : Bool) (s : Store) (g : RrGroup) (there : AllThere s g) where
  give-IsOpened :
      (choice : Option (ℕ × Option ℕ)) (r : Selected)
      → (choose g).0 ≡ choice
      → give connect more s choice ≡ some r
      → r.state ≢ 0
      → IsOpened g r
  unfolding give
  give-IsOpened none r c e ok = ground (arith, e, ok)
  give-IsOpened (some (st, none)) r c e ok = ground (arith, e, ok)
  give-IsOpened (some (st, some p)) r c e ok =
      let (i, slot) = choose-slot g st (some p) c in
      let k = some-injective (give_ep connect true more st s p) r e in
      let (opened, sock) =
        give_ep-IsOpen connect true more st s p (there i p slot)
          (λ z. ok (sym (ap (λ r'. r'.state) k) ∙ z)) in
      subst (IsOpened g) k (i, p, slot, uep-give_ep connect true more st s p, opened, sock)

rr-group :
    (connect : List ℕ → ℤ) (s : Store) (rte g : ℕ) (group : RrGroup) (r : Selected)
    → group_at (rte_at s rte) g ≡ some group
    → g < length (rte_at s rte).rrgroups
    → uta_epsock_rr connect s (some rte) (pos g) ≡ some r
    → give connect (more_of (rte_at s rte) g) (set_group s rte g (choose group).1) (choose group).0
      ≡ some r
unfolding uta_epsock_rr select_from
rr-group connect s rte g group r e inside given = ground (arith, e, inside, given)

-- A round robin selection that succeeds, in a group whose endpoints exist, is of one of them; the
-- endpoint is connected then, and the socket that is returned is its own.
pub rr-IsOpened :
    (connect : List ℕ → ℤ) (s : Store) (rte g : ℕ) (group : RrGroup) (r : Selected)
    → group_at (rte_at s rte) g ≡ some group
    → AllThere s group
    → uta_epsock_rr connect s (some rte) (pos g) ≡ some r
    → r.state ≢ 0
    → IsOpened group r
unfolding uta_epsock_rr set_group
rr-IsOpened connect s rte g group r e there given ok =
    elim (dec_lt g (length (rte_at s rte).rrgroups)) [
      | yes inside ↦
          give-IsOpened connect (more_of (rte_at s rte) g) (set_group s rte g (choose group).1)
            group there (choose group).0 r refl (rr-group connect s rte g group r e inside given) ok
      | no outside ↦ ground (arith, given, ok, outside)
    ]
