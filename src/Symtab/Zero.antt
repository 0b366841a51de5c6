-- ===== src/Symtab/Zero.antt =====
-- symtab.c: the number 0 as a key, which the search does not tell from an entry with a name.
use native.Mathlib.Nat.{zero-mod}
use mathlib.Core.Path.{subst}
use ric_plt_lib_rmr.Base.{ℕ, ◌≡◌, refl, true, none, some, List, ◌∷◌, arith}
use ric_plt_lib_rmr.Symtab.{
  SymEle, SymTab, SymKey, text, sym_hash, slot, chain, hits, find_ele, new_ele, putin, rmr_sym_get,
  rmr_sym_pull,
}
use ric_plt_lib_rmr.Symtab.Find.{value-find}
use ric_plt_lib_rmr.Symtab.Valid.{IsValid, lookup, chain-set}

module _ {ℓ} {V : Type ℓ} where
  pull_zero :
      (t : SymTab V) (e : SymEle V) (c : List (SymEle V))
      → chain t 0 ≡ e ∷ c
      → e.nkey ≡ 0
      → (rmr_sym_pull t 0).0 ≡ some e.val
  unfolding rmr_sym_pull rmr_sym_get slot find_ele hits
  pull_zero t e c at h = ground (arith, at, h, zero-mod t.size)

  module _ (t : SymTab V) (valid : IsValid t) (n : List ℕ) (class : ℕ) (v : V) where
    abbrev named : SymKey
    named = text n class

    put_fresh :
        find_ele named (chain t (slot t.size named)) ≡ none
        → chain (putin true t named v).1 (slot t.size named)
          ≡ new_ele named v ∷ chain t (slot t.size named)
    unfolding putin
    put_fresh fresh =
        rw (fresh, putin)
          (let c = new_ele named v ∷ chain t (slot t.size named) in
            ground (arith, chain-set t valid named c (slot t.size named)))

    -- When a name that hashes to chain 0 is put into a well-formed table that has no entry for it, a
    -- pull of the number 0 gives the value of the name.
    pub zero_alias :
        sym_hash n t.size ≡ 0
        → lookup t named ≡ none
        → (rmr_sym_pull (putin true t named v).1 0).0 ≡ some v
    unfolding slot new_ele
    zero_alias at_zero fresh =
        let none_yet : find_ele named (chain t (slot t.size named)) ≡ none =
          ground (arith, fresh, value-find named (chain t (slot t.size named))) in
        let at_head : chain (putin true t named v).1 0
            ≡ new_ele named v ∷ chain t (slot t.size named) =
          subst
            (λ i. chain (putin true t named v).1 i ≡ new_ele named v ∷ chain t (slot t.size named))
            at_zero (put_fresh none_yet) in
        pull_zero (putin true t named v).1 (new_ele named v) (chain t (slot t.size named)) at_head
          refl
