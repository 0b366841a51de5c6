-- ===== src/Route/Tests.antt =====
-- rt_generic_static.c and rtable_si_static.c: the theorems at a table with one entry.
use ric_plt_lib_rmr.Base.{
  inr, ℕ, zero, suc, ◌+◌, ◌<◌, ◌≡◌, refl, true, false, none, some, List, [], ◌∷◌, arith, get_or,
  length,
}
use ric_plt_lib_rmr.Base.Int.{ℤ, pos, negsuc}
use ric_plt_lib_rmr.Symtab.{SymTab, num, putin, find_ele, slot, hits, new_ele}
use ric_plt_lib_rmr.Symtab.Valid.{IsValid, empty, empty-IsValid, lookup}
use ric_plt_lib_rmr.Symtab.Put.{putin-IsValid}
use ric_plt_lib_rmr.Endpoint.{Endpoint, no_endpoint}
use ric_plt_lib_rmr.Route.{
  RrGroup, RouteTable, Store, build_rt_key, unset_subid, uta_get_rte, set_group, uta_add_rte,
}
use ric_plt_lib_rmr.Route.Select.{
  Selected, choose, uta_epsock_rr, select_from, give, give_ep, open_ep,
}
use ric_plt_lib_rmr.Route.{rt_ensure_ep}
use ric_plt_lib_rmr.Route.Names.{ensure_ep-stable}
use ric_plt_lib_rmr.Route.Added.{get_rte-added}
use ric_plt_lib_rmr.Route.Turns.{after_choices, every_turn}
use ric_plt_lib_rmr.Route.Opened.{AllThere, IsOpened, rr-IsOpened}

-- the entry 3 for the messages of type 100 without subscription id
abbrev key : ℕ
key = 0xffffffff00000064

abbrev hash : SymTab ℕ
hash = (putin true (empty 11) (num key) 3).1

hash-IsValid : IsValid hash
hash-IsValid =
    putin-IsValid (empty 11) (empty-IsValid 11 (omega arith)) (num key)
      (λ e. absurd (omega (arith, e))) 3

abbrev table : RouteTable
table = record { failed = false; hash = hash; updates = 1; mupdates = 0; ref_count = 0 }

abbrev bare_store : Store
bare_store = record { rtes = []; links = record { eps = []; fd2ep = empty 11 }; ephash = empty 11 }

-- An entry for the type 5 alone serves the subscription id 7.
get_rte-added_example :
    let (p, _, rt') = uta_add_rte bare_store table (build_rt_key unset_subid (pos 5)) (pos 1) in
    ((uta_get_rte rt' (pos 7) (pos 5) true).0 ≡ some p)
    × ((uta_get_rte rt' (pos 9) (pos 100) true).0 ≡ (uta_get_rte table (pos 9) (pos 100) true).0)
unfolding build_rt_key putin find_ele slot hits new_ele
get_rte-added_example =
    get_rte-added bare_store table unset_subid (pos 5) (pos 7) (pos 9) (pos 100) (pos 1) true
      hash-IsValid (omega arith) (omega arith) (omega arith) (omega arith) (omega arith)
      (λ e. absurd (omega (arith, e))) (λ e. absurd (omega (arith, e)))
      (λ e. absurd (omega (arith, e))) (inr (refl, refl, refl)) (λ e. cc)

ensure_ep-stable_example :
    let (ep, s') = rt_ensure_ep bare_store (b'a' ∷ b':' ∷ b'1' ∷ []) in
    let (_, s'') = rt_ensure_ep s' (b'b' ∷ b':' ∷ b'1' ∷ []) in
    (p : ℕ) × (ep ≡ some p) × ((rt_ensure_ep s'' (b'a' ∷ b':' ∷ b'1' ∷ [])).0 ≡ some p)
ensure_ep-stable_example =
    ensure_ep-stable bare_store b'a' b'b' (b':' ∷ b'1' ∷ []) (b':' ∷ b'1' ∷ [])
      (empty-IsValid 11 (omega arith))

-- two endpoints, of which the second is next, both with descriptors
abbrev group : RrGroup
group = record { ep_idx = 1; epts = some 0 ∷ some 1 ∷ [] }

every_turn_example :
    (m : ℕ) × (m < length group.epts)
    × ((choose (after_choices m group)).0 ≡ some (0 + 1, get_or group.epts 0 none))
every_turn_example = every_turn group 0 (omega arith) (omega arith) (omega arith)

abbrev connected : ℤ → Endpoint
connected fd = record no_endpoint { name = b'a' ∷ b':' ∷ b'1' ∷ []; nn_sock = fd; open_now = true }

abbrev store : Store
store = record {
  rtes = record { key = key; refs = 1; mtype = pos 0; rrgroups = some group ∷ none ∷ [] } ∷ [];
  links = record { eps = connected (pos 8) ∷ connected (pos 9) ∷ []; fd2ep = empty 11 };
  ephash = empty 11;
}

abbrev refuses : List ℕ → ℤ
refuses name = negsuc 0

abbrev turned : Store
turned = record store {
  rtes =
      record {
        key = key;
        refs = 1;
        mtype = pos 0;
        rrgroups = some (record group { ep_idx = 2 }) ∷ none ∷ [];
      }
      ∷ [];
}

abbrev second_chosen : Selected
second_chosen = record {
  state = 2;
  more = false;
  nn_sock = some (pos 9);
  uep = some 1;
  store = turned;
}

group-AllThere : AllThere store group
group-AllThere zero p e = ground (arith, e)
group-AllThere (suc zero) p e = ground (arith, e)
group-AllThere (suc (suc i)) p e = ground (arith, e)

second_is_chosen : uta_epsock_rr refuses store (some 0) (pos 0) ≡ some second_chosen
unfolding uta_epsock_rr select_from give give_ep open_ep choose set_group
second_is_chosen = refl

rr-IsOpened_example : IsOpened group second_chosen
rr-IsOpened_example =
    rr-IsOpened refuses store 0 0 group second_chosen refl group-AllThere second_is_chosen
      (λ e. absurd (omega arith))

abbrev name : List ℕ
name = b'b' ∷ b':' ∷ b'2' ∷ []

no_names-IsValid : IsValid store.ephash
no_names-IsValid = empty-IsValid 11 (omega arith)

-- The table's entry for the key is the store's only one.
abbrev own_hash : SymTab ℕ
own_hash = (putin true (empty 11) (num key) 0).1

own_hash-IsValid : IsValid own_hash
own_hash-IsValid =
    putin-IsValid (empty 11) (empty-IsValid 11 (omega arith)) (num key)
      (λ e. absurd (omega (arith, e))) 0

abbrev own_table : RouteTable
own_table = record table { hash = own_hash }

own_entry : lookup own_hash (num key) ≡ some 0
unfolding putin find_ele slot hits new_ele
own_entry = refl
