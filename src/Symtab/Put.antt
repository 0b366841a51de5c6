-- ===== src/Symtab/Put.antt =====
-- symtab.c: `rmr_sym_put`, `rmr_sym_map`, `rmr_sym_get` and `rmr_sym_pull` against the map.
use ric_plt_lib_rmr.Base.{
  ◌+◌, ◌≡◌, refl, inl, inr, true, none, some, List, [], ◌∷◌, arith, if◌then◌else◌, Option-cases,
}
use ric_plt_lib_rmr.Symtab.{
  SymEle, SymTab, SymKey, slot, chain, set_chain, hits, find_ele, update_ele, new_ele, replace,
  referred, existed, new_entry, putin, rmr_sym_get,
}
use ric_plt_lib_rmr.Symtab.Find.{
  IsKey, IsGood, AllGood, key_eq, key_eq_sound, value-find, count-find, new-IsGood, hits-replace,
  hits-referred, value-update, value-referred, value-new, count-update, count-new, length-update,
}
use ric_plt_lib_rmr.Symtab.Valid.{IsValid, home, lookup, chain-set, set-IsValid}

module _ {ℓ} {V : Type ℓ} where
  update-AllGood :
      (k : SymKey) (f : SymEle V → SymEle V) (c : List (SymEle V))
      → ((e : SymEle V) → IsGood e → IsGood (f e))
      → AllGood c
      → AllGood (update_ele k f c)
  unfolding update_ele
  update-AllGood k f [] keep g = g
  update-AllGood k f (e ∷ c) keep g = ground (arith, keep e g.0, update-AllGood k f c keep)

  module _ (t : SymTab V) (valid : IsValid t) (k : SymKey) (hk : IsKey k) where
    -- a chain whose elements are changed in what does not identify them
    update-IsValid :
        (f : SymEle V → SymEle V)
        → ((e : SymEle V) → IsGood e → IsGood (f e))
        → ((q : SymKey) (e : SymEle V) → hits q (f e) ≡ hits q e)
        → IsValid
            (record t { symlist = set_chain t (home t k) (update_ele k f (chain t (home t k))) })
    update-IsValid f keep same =
        let c = chain t (slot t.size k) in
        set-IsValid t valid k (update_ele k f c) t.inhabitants t.deaths
          (omega (arith, length-update k f c))
          (update-AllGood k f c keep (valid.good (slot t.size k)))
          (λ q hq. rw (count-update k q hk hq f c (same q)) (valid.once q hq (slot t.size k)))
          (λ q hq ne.
            rw (count-update k q hk hq f c (same q)) (valid.placed q hq (slot t.size k) ne))

    -- A put or map of a client's key (a name in a class but 0, or a number but 0), with memory
    -- available, keeps a well-formed table well formed.
    pub putin-IsValid : (v : V) → IsValid (putin true t k v).1
    unfolding putin
    putin-IsValid v = elim (Option-cases (find_ele k (chain t (slot t.size k)))) [
      | inr (e, found) ↦
          rw (found, putin) (update-IsValid (replace v) (λ e g. g) (λ q e. hits-replace q v e))
      | inl fresh ↦
          let c = chain t (slot t.size k) in
          rw (fresh, putin)
            (set-IsValid t valid k (new_ele k v ∷ c) (t.inhabitants + 1) t.deaths (omega arith)
              (new-IsGood k v, valid.good (slot t.size k))
              (λ q hq. ground (
                arith,
                count-new k q hk hq v c,
                valid.once q hq (slot t.size k),
                count-find k c,
                key_eq_sound k q,
              ))
              (λ q hq ne. ground (
                arith,
                count-new k q hk hq v c,
                valid.placed q hq (slot t.size k),
                key_eq_sound k q,
              )))
    ]

    -- After a put or map of a client's key into a well-formed table, with memory available, a lookup
    -- of an equal key gives the new value and the lookup of every other client's key is what it was;
    -- the return code says whether the key was there. No key is the number 0.
    pub lookup-putin :
        (v : V) (q : SymKey)
        → IsKey q
        → (lookup (putin true t k v).1 q ≡ (if key_eq k q then some v else lookup t q))
          × ((putin true t k v).0 ≡ elim (lookup t k) [ none ↦ new_entry | some _ ↦ existed ])
    unfolding putin
    lookup-putin v q hq = elim (Option-cases (find_ele k (chain t (slot t.size k)))) [
      | inr (e, found) ↦
          let c = chain t (slot t.size k) in
          rw (found, putin)
            (
              rw (chain-set t valid k (update_ele k (replace v) c) (slot t.size q)) (
                  ground (
                    arith,
                    value-update k q hk hq v c e,
                    valid.good (slot t.size k),
                    key_eq_sound k q,
                  )),
              ground (arith, value-find k c),
            )
      | inl fresh ↦
          let c = chain t (slot t.size k) in
          rw (fresh, putin)
            (
              rw (chain-set t valid k (new_ele k v ∷ c) (slot t.size q))
                  (ground (arith, value-new k q hk hq v c, key_eq_sound k q)),
              ground (arith, value-find k c),
            )
    ]

    -- A get of a client's key returns what a well-formed table maps it to, leaves the lookup of every
    -- client's key as it was, and keeps the table well formed.
    pub get-lookup :
        ((rmr_sym_get t k).0 ≡ lookup t k)
        × ((q : SymKey) → IsKey q → lookup (rmr_sym_get t k).1 q ≡ lookup t q)
        × IsValid (rmr_sym_get t k).1
    unfolding rmr_sym_get
    get-lookup = elim (Option-cases (find_ele k (chain t (slot t.size k)))) [
      | inr (e, found) ↦
          let c = chain t (slot t.size k) in
          rw (found, rmr_sym_get)
            (
              ground (arith, value-find k c),
              λ q hq.
                  rw (chain-set t valid k (update_ele k referred c) (slot t.size q))
                    (ground (arith, value-referred k q hk hq c)),
              update-IsValid referred (λ e g. g) (λ q e. hits-referred q e),
            )
      | inl fresh ↦
          let c = chain t (slot t.size k) in
          rw (fresh, rmr_sym_get) (ground (arith, value-find k c), λ q hq. refl, valid)
    ]
