-- ===== src/Route.antt =====
-- Route tables: src/rmr/common/src/rt_generic_static.c and src/rmr/si/src/rtable_si_static.c.
-- A table maps the key of a message to a route table entry, a list of round robin groups, and the
-- name of a managed element (meid) to the endpoint that owns it. Entries are shared between
-- tables and counted, so that they stand in a store; so do the endpoints.
pub mod Clone
pub mod Select
pub mod Key
pub mod Turns
pub mod Opened
pub mod Names
pub mod Entries
pub mod Added
mod Tests
use ric_plt_lib_rmr.Base.{
  ℕ, ◌+◌, ◌-◌, ◌*◌, ◌%◌, ◌^◌, Bool, true, false, not, ◌&&◌, Option, none, some, List, [], ◌∷◌, ◌++◌,
  leb, ◌==◌, if◌then◌else◌, length, get_or, set, replicate,
}
use ric_plt_lib_rmr.Base.Int.{ℤ, pos, negsuc}
use ric_plt_lib_rmr.Endpoint.{Endpoint, Links, no_endpoint}
use ric_plt_lib_rmr.Symtab.{SymTab, text, rmr_sym_get, rmr_sym_pull, rmr_sym_map, rmr_sym_put}

-- RT_NAME_SPACE and RT_ME_SPACE
abbrev pub rt_name_space : ℕ
rt_name_space = 1

abbrev pub rt_me_space : ℕ
rt_me_space = 2

abbrev pub max_ep_group : ℕ
max_ep_group = 32

-- the bit pattern of an int32_t
abbrev pub pattern32 : ℤ → ℕ
pattern32 (pos n) = n % 2 ^ 32
pattern32 (negsuc n) = 2 ^ 32 - 1 - n % 2 ^ 32

abbrev pub unset_subid : ℤ
unset_subid = negsuc 0

abbrev pub is_unset : ℤ → Bool
is_unset (pos n) = false
is_unset (negsuc n) = n == 0

-- The upper half is the subscription id, all ones if there is none; `or` of disjoint bits is a sum.
-- In the first case `mtype` is widened with its sign, which changes no upper bit.
unfoldable pub build_rt_key : ℤ → ℤ → ℕ
build_rt_key sub_id mtype =
    if is_unset sub_id
    then 0xffffffff * 2 ^ 32 + pattern32 mtype
    else pattern32 sub_id * 2 ^ 32 + pattern32 mtype

-- `epts` has the pointers that are used, `nused` of them, of which one can be nil; there is room for
-- `max_ep_group`. The index is an uint16_t.
pub record RrGroup : Type 0 where
  pub ep_idx : ℕ
  pub epts : List (Option ℕ)

-- `rrgroups` has `nrrgroups` slots.
pub record RtableEnt : Type 0 where
  pub key : ℕ
  pub refs : ℕ
  pub mtype : ℤ
  pub rrgroups : List (Option RrGroup)

-- The values of `hash` are entries under number keys, and endpoints under meids; `failed` is the
-- member `error`.
pub record RouteTable : Type 0 where
  pub failed : Bool
  pub hash : SymTab ℕ
  pub updates : ℕ
  pub mupdates : ℕ
  pub ref_count : ℕ

-- What is allocated: entries, endpoints, and the hash of endpoint names that all tables share.
pub record Store : Type 0 where
  pub rtes : List RtableEnt
  pub links : Links
  pub ephash : SymTab ℕ

abbrev pub no_rte : RtableEnt
no_rte = record { key = 0; refs = 0; mtype = negsuc 0; rrgroups = [] }

abbrev pub rte_at : Store → ℕ → RtableEnt
rte_at s p = get_or s.rtes p no_rte

abbrev pub set_rte : Store → ℕ → RtableEnt → Store
set_rte s p e = record s { rtes = set s.rtes p e }

-- Looks for the full key, then, if it may and the subscription id was set, for that of the type
-- alone. The table's counters go up.
unfoldable pub uta_get_rte : RouteTable → ℤ → ℤ → Bool → Option ℕ × RouteTable
uta_get_rte rt sid mtype try_alt =
    let (first, h) = rmr_sym_pull rt.hash (build_rt_key sid mtype) in
    let (second, h') = rmr_sym_pull h (build_rt_key unset_subid mtype) in
    elim first [
      | some p ↦ (some p, record rt { hash = h })
      | none ↦
          if try_alt && not (is_unset sid)
          then (second, record rt { hash = h' })
          else (none, record rt { hash = h })
    ]

unfoldable pub get_meid_owner : RouteTable → List ℕ → Option ℕ × RouteTable
get_meid_owner rt [] = (none, rt)
get_meid_owner rt (c ∷ cs) =
    let (p, h) = rmr_sym_get rt.hash (text (c ∷ cs) rt_me_space) in (p, record rt { hash = h })

unfoldable pub uta_get_ep : Store → List ℕ → Option ℕ × Store
uta_get_ep s [] = (none, s)
uta_get_ep s (c ∷ cs) =
    let (p, h) = rmr_sym_get s.ephash (text (c ∷ cs) rt_name_space) in (p, record s { ephash = h })

abbrev new_endpoint : List ℕ → Endpoint
new_endpoint name = record no_endpoint { name = name }

-- the endpoint of a name, made and put into the hash if there is none; memory is available
unfoldable pub rt_ensure_ep : Store → List ℕ → Option ℕ × Store
rt_ensure_ep s [] = (none, s)
rt_ensure_ep s (c ∷ cs) =
    let (found, s') = uta_get_ep s (c ∷ cs) in
    let i = length s'.links.eps in
    elim found [
      | some p ↦ (some p, s')
      | none ↦ (
        some i,
        record s' {
          links = record s'.links { eps = s'.links.eps ++ (new_endpoint (c ∷ cs) ∷ []) };
          ephash = (rmr_sym_put true s'.ephash (c ∷ cs) rt_name_space i).1;
        },
      )
    ]

-- One reference less; an entry without references is freed, and nobody points at it any more.
unfoldable pub del_rte : Store → ℕ → Store
del_rte s p = let e = rte_at s p in set_rte s p (record e { refs = e.refs - 1 })

del_rte? : Store → Option ℕ → Store
del_rte? s none = s
del_rte? s (some p) = del_rte s p

-- A new entry under `key`, in place of one that is there; a negative count of groups means ten.
unfoldable pub uta_add_rte : Store → RouteTable → ℕ → ℤ → ℕ × Store × RouteTable
unfolding del_rte?
uta_add_rte s rt key n =
    let groups : ℕ = elim n [ pos k ↦ k | negsuc _ ↦ 10 ] in
    let p = length s.rtes in
    let e : RtableEnt = record {
      key = key;
      refs = 1;
      mtype = pos 0;
      rrgroups = replicate groups none;
    } in
    let (old, h) = rmr_sym_pull rt.hash key in
    let s' = record s { rtes = s.rtes ++ (e ∷ []) } in
    (p, del_rte? s' old, record rt { hash = (rmr_sym_map true h key p).1 })

abbrev empty_group : RrGroup
empty_group = record { ep_idx = 0; epts = [] }

abbrev pub group_at : RtableEnt → ℕ → Option RrGroup
group_at e g = get_or e.rrgroups g none

-- the group of a slot, made if there is none
abbrev the_group : Option RrGroup → RrGroup
the_group none = empty_group
the_group (some g) = g

unfoldable pub set_group : Store → ℕ → ℕ → RrGroup → Store
set_group s rte g group =
    let e = rte_at s rte in set_rte s rte (record e { rrgroups = set e.rrgroups g (some group) })

-- Adds an endpoint to a group of an entry, which is made if the slot is empty; a full group is left
-- alone. The callers count groups from 0.
unfoldable pub uta_add_ep : Store → ℕ → List ℕ → ℕ → Option ℕ × Store
uta_add_ep s rte name g =
    let group = the_group (group_at (rte_at s rte) g) in
    let (ep, s') = rt_ensure_ep (set_group s rte g group) name in
    if leb (length (rte_at s rte).rrgroups) g
    then (none, s)
    else if leb max_ep_group (length group.epts)
    then (none, s')
    else (ep, set_group s' rte g (record group { epts = group.epts ++ (ep ∷ []) }))
