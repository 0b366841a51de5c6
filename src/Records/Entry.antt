-- ===== src/Records/Entry.antt =====
-- rt_generic_static.c: the entries of a table under construction: `build_entry`, `trash_entry`,
-- `parse_meid_ar` and `parse_meid_del`.
use ric_plt_lib_rmr.Base.{
  ℕ, ◌+◌, Bool, true, false, not, ◌||◌, Option, none, some, List, [], ◌∷◌, if◌then◌else◌, str_eq,
  length,
}
use ric_plt_lib_rmr.Base.Int.{ℤ, pos}
use ric_plt_lib_rmr.Endpoint.{has_char}
use ric_plt_lib_rmr.Symtab.{rmr_sym_pull, rmr_sym_ndel, rmr_sym_put, rmr_sym_del, text}
use ric_plt_lib_rmr.Route.{
  Store, RouteTable, rt_me_space, rte_at, set_rte, build_rt_key, uta_add_rte, uta_add_ep, del_rte,
  rt_ensure_ep,
}
use ric_plt_lib_rmr.Tools.{uta_tokenise}
use ric_plt_lib_rmr.Tools.Addresses.{uta_has_str, found, has_myip, uta_rmip_tokenise}
use ric_plt_lib_rmr.Records.Text.{clip, atoi}

-- the members `my_name` and `ip_list` of the context
pub record Self : Type 0 where
  pub my_name : List ℕ
  pub ip_list : Option (List (List ℕ))

-- Records without a sender, with our name or with an address of ours are ingested.
unfoldable pub is_ours : Self → List ℕ → Bool
is_ours me ts_field =
    not (has_char b',' ts_field)
    || found (uta_has_str ts_field me.my_name b',' 127)
    || has_myip ts_field me.ip_list b',' 127

-- the endpoints of one group that are not ourself; says whether there are any
unfoldable pub add_eps : Self → Store → ℕ → ℕ → List (List ℕ) → Bool → Store × Bool
add_eps me s rte cgidx [] has_ep = (s, has_ep)
add_eps me s rte cgidx (t ∷ tokens) has_ep =
    let us = str_eq t me.my_name in
    add_eps me (if us then s else (uta_add_ep s rte t cgidx).1) rte cgidx tokens
      (if us then has_ep else true)

-- A group without endpoints takes no slot of the entry.
unfoldable pub add_groups : Self → Store → ℕ → ℕ → List (List ℕ) → Store
add_groups me s rte cgidx [] = s
add_groups me s rte cgidx (grp ∷ gtokens) =
    let (s', has_ep) = add_eps me s rte cgidx (uta_rmip_tokenise grp me.ip_list 64 b',') false in
    add_groups me s' rte (if has_ep then cgidx + 1 else cgidx) gtokens

-- "%meid"
abbrev pub meid_mark : List ℕ
meid_mark = b'%' ∷ b'm' ∷ b'e' ∷ b'i' ∷ b'd' ∷ []

-- the groups that an entry gets
abbrev pub used_groups : List (List ℕ) → List (List ℕ)
used_groups [] = []
used_groups (g ∷ gs) = if str_eq g meid_mark then [] else g ∷ gs

abbrev pub set_mtype : Store → ℕ → ℤ → Store
set_mtype s p mtype = set_rte s p (record (rte_at s p) { mtype = mtype })

-- the entry of a record that is ingested; nothing is done without a group
unfoldable pub new_entry : Self → Store → RouteTable → ℕ → ℤ → List (List ℕ) → Store × RouteTable
new_entry me s rt key mtype [] = (s, rt)
new_entry me s rt key mtype (g ∷ gs) =
    let gtokens = used_groups (g ∷ gs) in
    let (p, s', rt') = uta_add_rte s rt key (pos (length gtokens)) in
    (add_groups me (set_mtype s' p mtype) p 0 gtokens, rt')

unfoldable pub build_entry : Self → Store → RouteTable → List ℕ → ℤ → List ℕ → Store × RouteTable
unfolding new_entry
build_entry me s rt ts_field subid rr_field =
    let ts = clip ts_field in
    if is_ours me ts
    then new_entry me s rt (build_rt_key subid (atoi ts)) (atoi ts)
        (uta_tokenise (clip rr_field) 64 b';')
    else (s, rt)

-- The entry of the key is taken off the table and loses a reference.
unfoldable pub trash_entry : Self → Store → RouteTable → List ℕ → ℤ → Store × RouteTable
trash_entry me s rt ts_field subid =
    let ts = clip ts_field in
    let key = build_rt_key subid (atoi ts) in
    let (rte, h) = rmr_sym_pull rt.hash key in
    if is_ours me ts
    then elim rte [
      | none ↦ (s, record rt { hash = h })
      | some p ↦ (del_rte s p, record rt { hash = rmr_sym_ndel h key })
    ]
    else (s, rt)

-- the table with a meid that an endpoint owns
abbrev pub owned : RouteTable → List ℕ → Option ℕ → RouteTable
owned rt meid none = rt
owned rt meid (some p) = record rt { hash = (rmr_sym_put true rt.hash meid rt_me_space p).1 }

-- Each meid of a list goes to the owner, if that has a name.
unfoldable pub own_meids : Store → RouteTable → List ℕ → List (List ℕ) → Store × RouteTable
own_meids s rt owner [] = (s, rt)
own_meids s rt owner (t ∷ tokens) =
    let (ep, s') = rt_ensure_ep s owner in own_meids s' (owned rt t ep) owner tokens

unfoldable pub parse_meid_ar : Store → RouteTable → List ℕ → List ℕ → Store × RouteTable
unfolding own_meids
parse_meid_ar s rt owner meid_list =
    own_meids s rt (clip owner) (uta_tokenise (clip meid_list) 128 b' ')

unfoldable pub del_meids : RouteTable → List (List ℕ) → RouteTable
del_meids rt [] = rt
del_meids rt (t ∷ tokens) =
    del_meids (record rt { hash = rmr_sym_del rt.hash (text t rt_me_space) }) tokens

unfoldable pub parse_meid_del : RouteTable → List ℕ → RouteTable
unfolding del_meids
parse_meid_del rt meid_list = del_meids rt (uta_tokenise (clip meid_list) 128 b' ')
