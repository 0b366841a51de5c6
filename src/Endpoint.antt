-- ===== src/Endpoint.antt =====
-- src/rmr/si/src/rtable_si_static.c: endpoints, the making of connections to them, and the table
-- from descriptors to endpoints.
use ric_plt_lib_rmr.Base.{
  ℕ, ◌-◌, ◌^◌, Bool, true, false, not, Option, none, some, List, [], ◌∷◌, ◌==◌, if◌then◌else◌, take,
  get_or, set,
}
use ric_plt_lib_rmr.Base.Int.{ℤ, pos, negsuc}
use ric_plt_lib_rmr.Symtab.{SymTab, rmr_sym_map, rmr_sym_pull, rmr_sym_ndel}

-- `nn_sock` is the descriptor, -1 if there is none; `notify` says that the next failure is logged.
-- The counts are those of EPSC_GOOD, EPSC_FAIL and EPSC_TRANS.
pub record Endpoint : Type 0 where
  pub name : List ℕ
  pub nn_sock : ℤ
  pub open_now : Bool
  pub notify : Bool
  pub good : ℕ
  pub fail : ℕ
  pub trans : ℕ

-- All endpoints, a pointer being an index, and the map of descriptors to them.
pub record Links : Type 0 where
  pub eps : List Endpoint
  pub fd2ep : SymTab ℕ

abbrev pub no_endpoint : Endpoint
no_endpoint = record {
  name = [];
  nn_sock = negsuc 0;
  open_now = false;
  notify = true;
  good = 0;
  fail = 0;
  trans = 0;
}

abbrev pub ep_at : Links → ℕ → Endpoint
ep_at l p = get_or l.eps p no_endpoint

abbrev pub set_ep : Links → ℕ → Endpoint → Links
set_ep l p e = record l { eps = set l.eps p e }

-- `(uint64_t) fd`
abbrev pub fd_key : ℤ → ℕ
fd_key (pos n) = n
fd_key (negsuc n) = 2 ^ 64 - 1 - n

unfoldable pub fd2ep_add : Links → ℤ → ℕ → Links
fd2ep_add l fd p = record l { fd2ep = (rmr_sym_map true l.fd2ep (fd_key fd) p).1 }

unfoldable pub fd2ep_get : Links → ℤ → Option ℕ × Links
fd2ep_get l fd = let (p, t) = rmr_sym_pull l.fd2ep (fd_key fd) in (p, record l { fd2ep = t })

unfoldable pub fd2ep_del : Links → ℤ → Option ℕ × Links
fd2ep_del l fd =
    let (p, t) = rmr_sym_pull l.fd2ep (fd_key fd) in
    elim p [
      | none ↦ (none, record l { fd2ep = t })
      | some q ↦ (some q, record l { fd2ep = rmr_sym_ndel t (fd_key fd) })
    ]

-- what `mt_disc_cb` does to the endpoint of a lost descriptor
unfoldable pub close_fd : Links → ℤ → Links
close_fd l fd =
    let (p, l') = fd2ep_del l fd in
    elim p [
      | none ↦ l'
      | some q ↦ set_ep l' q (record (ep_at l' q) { open_now = false; nn_sock = negsuc 0 })
    ]

unfoldable pub uta_ep_failed : Links → ℕ → Links
uta_ep_failed l p = set_ep l p (record (ep_at l p) { open_now = false })

-- strchr
unfoldable pub has_char : ℕ → List ℕ → Bool
has_char c [] = false
has_char c (x ∷ s) = if x == c then true else has_char c s

module _ (connect : List ℕ → ℤ) where
  -- A connection to `sock`, which `SIconnect` returned.
  unfoldable pub linked : Links → ℕ → ℤ → Bool × Links
  linked l p (negsuc n) =
      (false, set_ep l p (record (ep_at l p) { nn_sock = negsuc n; notify = false }))
  linked l p (pos n) =
      let l' =
        set_ep l p (record (ep_at l p) { nn_sock = pos n; open_now = true; notify = true }) in
      (true, fd2ep_add l' (pos n) p)

  -- Connects an endpoint that is not open; `connect` is `SIconnect`, given the name. A name is cut
  -- at 511 bytes.
  unfoldable pub uta_link2 : Links → ℕ → Bool × Links
  unfolding linked
  uta_link2 l p =
      let e = ep_at l p in
      if not (has_char b':' e.name)
      then (false, set_ep l p (record e { notify = false }))
      else if e.open_now
      then (true, l)
      else linked l p (connect (take 511 e.name))

  unfoldable pub rt_link2_ep : Links → ℕ → Bool × Links
  rt_link2_ep l p =
      let (ok, l') = uta_link2 l p in
      if (ep_at l p).open_now then (true, l) else ((ep_at l' p).open_now, l')
