-- ===== src/Symtab.antt =====
-- src/rmr/common/src/symtab.c: the chained hash table behind route tables and descriptor maps.
-- A chain is the list that `next` links (`prev` is its inverse); `Symtab` has `Sym_ele`, `Sym_tab`
-- and the functions on them.
pub mod Find
pub mod Valid
pub mod Put
pub mod Delete
pub mod Clear
pub mod Zero
mod Tests
use ric_plt_lib_rmr.Base.{
  ℕ, zero, suc, ◌+◌, ◌-◌, ◌*◌, ◌%◌, ◌^◌, Bool, false, Option, none, some, List, [], ◌∷◌, ltb, ◌==◌,
  if◌then◌else◌, str_eq, get_or, set, replicate,
}

-- `name` is nil in a numeric entry (class 0); `nkey` is 0 in an entry with a name.
pub record SymEle {ℓ} (V : Type ℓ) : Type ℓ where
  pub name : Option (List ℕ)
  pub nkey : ℕ
  pub val : V
  pub mcount : ℕ
  pub rcount : ℕ
  pub class : ℕ

pub record SymTab {ℓ} (V : Type ℓ) : Type ℓ where
  pub symlist : List (List (SymEle V))
  pub inhabitants : ℕ
  pub deaths : ℕ
  pub size : ℕ

-- How a caller names an entry: a string and its class, or (class 0) the number that the name
-- pointer points at.
pub data SymKey : Type 0 where
  text : List ℕ → ℕ → SymKey
  num : ℕ → SymKey

-- 0, 1 and -1, what the insertion returns
pub data PutRc : Type 0 where
  existed new_entry no_memory : PutRc

-- A `char` is signed and widened to `long`, whose bit pattern this is.
widen_char : ℕ → ℕ
widen_char c = if ltb c 128 then c else c + (2 ^ 64 - 256)

hash_from : ℕ → List ℕ → ℕ
hash_from t [] = t
hash_from t (c ∷ cs) = hash_from ((t * 79 + widen_char c) % 2 ^ 64) cs

-- `t = ~t` of a negative `t`
magnitude : ℕ → ℕ
magnitude t = if ltb t (2 ^ 63) then t else 2 ^ 64 - 1 - t

unfoldable pub sym_hash : List ℕ → ℕ → ℕ
unfolding widen_char hash_from magnitude
sym_hash n size = magnitude (hash_from 0 n) % size

-- the chain of a key
unfoldable pub slot : ℕ → SymKey → ℕ
slot size (text n class) = sym_hash n size
slot size (num nkey) = nkey % size

name_is : Option (List ℕ) → List ℕ → Bool
name_is none s = false
name_is (some n) s = str_eq n s

-- Entries of another class are ruled out before the names are read.
same : ℕ → ℕ → Option (List ℕ) → List ℕ → Bool
unfolding name_is
same c1 c2 s1 s2 = if c1 == c2 then name_is s1 s2 else false

module _ {ℓ} {V : Type ℓ} where
  -- the test that ends the search for a key; a numeric one does not look at the class
  unfoldable pub hits : SymKey → SymEle V → Bool
  unfolding same
  hits (text n class) e = same class e.class e.name n
  hits (num nkey) e = e.nkey == nkey

  -- `for( eptr = sym_tab[hv]; eptr && ! hit; eptr = eptr->next );`
  unfoldable pub find_ele : SymKey → List (SymEle V) → Option (SymEle V)
  find_ele k [] = none
  find_ele k (e ∷ c) = if hits k e then some e else find_ele k c

  -- a write through the element pointer that the search found
  unfoldable pub update_ele : SymKey → (SymEle V → SymEle V) → List (SymEle V) → List (SymEle V)
  update_ele k f [] = []
  update_ele k f (e ∷ c) = if hits k e then f e ∷ c else e ∷ update_ele k f c

  -- the unchaining in `del_ele`
  unfoldable pub unchain : SymKey → List (SymEle V) → List (SymEle V)
  unchain k [] = []
  unchain k (e ∷ c) = if hits k e then c else e ∷ unchain k c

  abbrev pub chain : SymTab V → ℕ → List (SymEle V)
  chain t i = get_or t.symlist i []

  abbrev pub set_chain : SymTab V → ℕ → List (SymEle V) → List (List (SymEle V))
  set_chain t i c = set t.symlist i c

  -- a new element, after `mcount++` and the assignment of the value
  unfoldable pub new_ele : SymKey → V → SymEle V
  new_ele (text n class) v = record {
    name = some n;
    nkey = 0;
    val = v;
    mcount = 1;
    rcount = 0;
    class = class;
  }
  new_ele (num nkey) v = record {
    name = none;
    nkey = nkey;
    val = v;
    mcount = 1;
    rcount = 0;
    class = 0;
  }

  abbrev pub replace : V → SymEle V → SymEle V
  replace v e = record e { val = v; mcount = e.mcount + 1 }

  -- `mem` is whether the `malloc` of an element succeeds. The count is raised before it.
  unfoldable pub putin : Bool → SymTab V → SymKey → V → PutRc × SymTab V
  putin mem t k v =
      let hv = slot t.size k in
      let c = chain t hv in
      let grown = record t { inhabitants = t.inhabitants + 1 } in
      elim (find_ele k c) [
        | some e ↦ (existed, record t { symlist = set_chain t hv (update_ele k (replace v) c) })
        | none ↦
            if mem
            then (new_entry, record grown { symlist = set_chain t hv (new_ele k v ∷ c) })
            else (no_memory, grown)
      ]

  -- Class 0 is forced to 1.
  unfoldable pub rmr_sym_put : Bool → SymTab V → List ℕ → ℕ → V → PutRc × SymTab V
  rmr_sym_put mem t n class v = putin mem t (text n (if class == 0 then 1 else class)) v

  unfoldable pub rmr_sym_map : Bool → SymTab V → ℕ → V → PutRc × SymTab V
  rmr_sym_map mem t key v = putin mem t (num key) v

  abbrev pub referred : SymEle V → SymEle V
  referred e = record e { rcount = e.rcount + 1 }

  -- The reference counter of what is found goes up.
  unfoldable pub rmr_sym_get : SymTab V → SymKey → Option V × SymTab V
  rmr_sym_get t k =
      let hv = slot t.size k in
      let c = chain t hv in
      elim (find_ele k c) [
        | none ↦ (none, t)
        | some e ↦ (some e.val, record t { symlist = set_chain t hv (update_ele k referred c) })
      ]

  unfoldable pub rmr_sym_pull : SymTab V → ℕ → Option V × SymTab V
  unfolding rmr_sym_get
  rmr_sym_pull t key = rmr_sym_get t (num key)

  -- `del_ele` at the element that the search for `k` found; it ignores a nil pointer.
  del_ele : SymTab V → ℕ → SymKey → Option (SymEle V) → SymTab V
  del_ele t hv k none = t
  del_ele t hv k (some e) = record t {
    symlist = set_chain t hv (unchain k (chain t hv));
    deaths = t.deaths + 1;
    inhabitants = t.inhabitants - 1;
  }

  unfoldable pub rmr_sym_del : SymTab V → SymKey → SymTab V
  unfolding del_ele
  rmr_sym_del t k = let hv = slot t.size k in del_ele t hv k (find_ele k (chain t hv))

  unfoldable pub rmr_sym_ndel : SymTab V → ℕ → SymTab V
  rmr_sym_ndel t key = rmr_sym_del t (num key)

  del_head_ele : SymTab V → ℕ → SymTab V
  del_head_ele t hv = elim (chain t hv) [
    | [] ↦ t
    | e ∷ c ↦ record t {
      symlist = set_chain t hv c;
      deaths = t.deaths + 1;
      inhabitants = t.inhabitants - 1;
    }
  ]

  -- `while( sym_tab[i] )`, with a round for each element of the chain
  clear_chain : List (SymEle V) → SymTab V → ℕ → SymTab V
  clear_chain [] t i = t
  clear_chain (_ ∷ rounds) t i = clear_chain rounds (del_head_ele t i) i

  -- the chains from `i` on, `n` of them
  clear_from : ℕ → ℕ → SymTab V → SymTab V
  clear_from zero i t = t
  clear_from (suc n) i t = clear_from n (i + 1) (clear_chain (chain t i) t i)

  unfoldable pub rmr_sym_clear : SymTab V → SymTab V
  unfolding clear_from clear_chain del_head_ele
  rmr_sym_clear t = clear_from t.size 0 t

  -- Both allocations succeed; `none` stands for a failure, which leaves no table.
  unfoldable pub rmr_sym_alloc : Bool → ℕ → Option (SymTab V)
  rmr_sym_alloc mem size =
      let n = if ltb size 11 then 11 else size in
      if mem
      then some (record { symlist = replicate n []; inhabitants = 0; deaths = 0; size = n })
      else none

  module _ {D : Type ℓ} (user_fun : Option (List ℕ) → V → D → D) where
    visit_chain : ℕ → List (SymEle V) → D → D
    visit_chain class [] data' = data'
    visit_chain class (e ∷ c) data' =
        visit_chain class c (if class == e.class then user_fun e.name e.val data' else data')

    visit_all : ℕ → List (List (SymEle V)) → D → D
    unfolding visit_chain
    visit_all class [] data' = data'
    visit_all class (c ∷ cs) data' = visit_all class cs (visit_chain class c data')

    -- for callbacks that leave the table alone, as all in this library do
    unfoldable pub rmr_sym_foreach_class : SymTab V → ℕ → D → D
    unfolding visit_all
    rmr_sym_foreach_class t class data' = visit_all class t.symlist data'
