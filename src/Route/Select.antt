-- ===== src/Route/Select.antt =====
-- rtable_si_static.c: the selection of the endpoint that a message goes to, by round robin in a
-- group (`uta_epsock_rr`), by name (`uta_epsock_byname`) and by meid (`epsock_meid`).
use ric_plt_lib_rmr.Base.{
  ℕ, zero, suc, ◌+◌, ◌%◌, ◌^◌, Bool, true, false, Option, none, some, List, ltb, if◌then◌else◌,
  length, get_or,
}
use ric_plt_lib_rmr.Base.Int.{ℤ, pos, negsuc}
use ric_plt_lib_rmr.Endpoint.{Links, ep_at, set_ep, uta_link2, fd2ep_add}
use ric_plt_lib_rmr.Route.{
  RrGroup, RtableEnt, RouteTable, Store, rte_at, group_at, get_meid_owner, uta_get_ep, rt_ensure_ep,
  set_group,
}

-- What the `switch` on `nused` chooses: the state that is returned and the endpoint, and the group
-- afterwards. Two or more endpoints take turns.
unfoldable pub choose : RrGroup → Option (ℕ × Option ℕ) × RrGroup
choose g =
    let n = length g.epts in
    let idx = g.ep_idx % n in
    elim n [
      | zero ↦ (none, g)
      | suc zero ↦ (some (1, get_or g.epts 0 none), g)
      | suc (suc _) ↦
          (some (idx + 1, get_or g.epts idx none), record g { ep_idx = (g.ep_idx + 1) % 2 ^ 16 })
    ]

-- What a selection writes to its caller: the returned state, 0 for none, `*more`, the socket and
-- the endpoint, and the store.
pub record Selected : Type 0 where
  pub state : ℕ
  pub more : Bool
  pub nn_sock : Option ℤ
  pub uep : Option ℕ
  pub store : Store

abbrev pub nothing : Bool → Store → Selected
nothing more s = record { state = 0; more = more; nn_sock = none; uep = none; store = s }

abbrev pub is_some : {A : Type 0} → Option A → Bool
is_some none = false
is_some (some _) = true

-- whether the next group is there
abbrev pub more_of : RtableEnt → ℕ → Bool
more_of e g = if ltb (g + 1) (length e.rrgroups) then is_some (group_at e (g + 1)) else false

module _ (connect : List ℕ → ℤ) where
  -- The chosen endpoint is connected if it is not open. `registers` is whether the caller maps the
  -- descriptor itself as well.
  unfoldable pub open_ep : Bool → Links → ℕ → Bool × Links
  open_ep registers l p =
      let (ok, l') = uta_link2 connect l p in
      let opened = set_ep l' p (record (ep_at l' p) { open_now = true }) in
      if (ep_at l p).open_now
      then (true, l)
      else if ok
      then (true, if registers then fd2ep_add opened (ep_at l' p).nn_sock p else opened)
      else (false, l')

  unfoldable pub give_ep : Bool → Bool → ℕ → Store → ℕ → Selected
  give_ep registers more state s p =
      let (ok, l) = open_ep registers s.links p in
      if ok
      then record {
        state = state;
        more = more;
        nn_sock = some (ep_at l p).nn_sock;
        uep = some p;
        store = record s { links = l };
      }
      else record {
        state = 0;
        more = more;
        nn_sock = none;
        uep = some p;
        store = record s { links = l };
      }

  -- `none` is a read through a nil endpoint. The caller gives pointers for the results.
  unfoldable pub give : Bool → Store → Option (ℕ × Option ℕ) → Option Selected
  give more s none = some (nothing more s)
  give more s (some (state, none)) = none
  give more s (some (state, some p)) = some (give_ep true more state s p)

  unfoldable pub select_from : Store → ℕ → ℕ → Option RrGroup → Option Selected
  unfolding give
  select_from s rte g none = some (nothing false s)
  select_from s rte g (some group) =
      let (choice, group') = choose group in
      give (more_of (rte_at s rte) g) (set_group s rte g group') choice

  -- `none` for the entry is a nil pointer.
  unfoldable pub uta_epsock_rr : Store → Option ℕ → ℤ → Option Selected
  unfolding select_from
  uta_epsock_rr s none group = some (nothing false s)
  uta_epsock_rr s (some rte) (negsuc _) = some (nothing false s)
  uta_epsock_rr s (some rte) (pos g) =
      if ltb g (length (rte_at s rte).rrgroups)
      then select_from s rte g (group_at (rte_at s rte) g)
      else some (nothing false s)

  -- An unknown name gets an endpoint, but `*uepp` is what the first search found.
  unfoldable pub uta_epsock_byname : Store → List ℕ → Selected
  uta_epsock_byname s name =
      let (found, s1) = uta_get_ep s name in
      let (ensured, s2) = rt_ensure_ep s1 name in
      elim found [
        | some p ↦ give_ep true false 1 s1 p
        | none ↦ elim ensured [
          | none ↦ nothing false s2
          | some p ↦ record (give_ep true false 1 s2 p) { uep = none }
        ]
      ]

  -- The owner of the meid of a message; the table's counter goes up.
  unfoldable pub epsock_meid : Store → RouteTable → List ℕ → Selected × RouteTable
  epsock_meid s rt meid =
      let (owner, rt') = get_meid_owner rt meid in
      elim owner [ none ↦ (nothing false s, rt') | some p ↦ (give_ep false false 1 s p, rt') ]
