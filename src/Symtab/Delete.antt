-- ===== src/Symtab/Delete.antt =====
-- symtab.c: `rmr_sym_del`, `rmr_sym_ndel` and `rmr_sym_clear` against the map.
use ric_plt_lib_rmr.Base.{
  ◌+◌, ◌-◌, ◌≡◌, inl, inr, none, List, [], ◌∷◌, arith, if◌then◌else◌, Option-cases,
}
use ric_plt_lib_rmr.Symtab.{SymEle, SymTab, SymKey, slot, chain, find_ele, unchain, rmr_sym_del}
use ric_plt_lib_rmr.Symtab.Find.{
  IsKey, AllGood, key_eq, key_eq_sound, value-find, value-unchain, count-unchain-le, length-unchain,
}
use ric_plt_lib_rmr.Symtab.Valid.{IsValid, lookup, total-set, slot-lt, chain-set, set-IsValid}

module _ {ℓ} {V : Type ℓ} where
  unchain-AllGood : (k : SymKey) (c : List (SymEle V)) → AllGood c → AllGood (unchain k c)
  unfolding unchain
  unchain-AllGood k [] g = g
  unchain-AllGood k (e ∷ c) g = ground (arith, unchain-AllGood k c)

  module _ (t : SymTab V) (valid : IsValid t) (k : SymKey) (hk : IsKey k) where
    -- A delete of a client's key keeps a well-formed table well formed; afterwards the key is not
    -- found, and the lookup of every other client's key is what it was, whether or not the key was
    -- there. No key is the number 0.
    pub lookup-del :
        IsValid (rmr_sym_del t k)
        × ((q : SymKey)
            → IsKey q
            → lookup (rmr_sym_del t k) q ≡ (if key_eq k q then none else lookup t q))
    unfolding rmr_sym_del
    lookup-del =
        let c = chain t (slot t.size k) in
        elim (Option-cases (find_ele k c)) [
          | inr (e, found) ↦
              rw (found, rmr_sym_del)
                (
                  set-IsValid t valid k (unchain k c) (t.inhabitants - 1) (t.deaths + 1)
                      (omega (
                        arith,
                        length-unchain k c e found,
                        valid.counted,
                        valid.width,
                        total-set t.symlist (slot t.size k) []
                            (omega (arith, valid.width, slot-lt t.size k valid.roomy)),
                      ))
                      (unchain-AllGood k c (valid.good (slot t.size k)))
                      (λ q hq.
                        omega
                          (arith, count-unchain-le k q hk hq c, valid.once q hq (slot t.size k)))
                      (λ q hq ne. omega (
                        arith,
                        count-unchain-le k q hk hq c,
                        valid.placed q hq (slot t.size k) ne,
                      )),
                  λ q hq. rw (chain-set t valid k (unchain k c) (slot t.size q)) (
                      ground (
                        arith,
                        value-unchain k q hk hq c,
                        valid.good (slot t.size k),
                        valid.once k hk (slot t.size k),
                        key_eq_sound k q,
                      )),
                )
          | inl fresh ↦
              rw (fresh, rmr_sym_del)
                (valid, λ q hq. ground (arith, value-find k c, key_eq_sound k q))
        ]
