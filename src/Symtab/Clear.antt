-- ===== src/Symtab/Clear.antt =====
-- symtab.c: `rmr_sym_clear` and the deletion of a chain's head.
use ric_plt_lib_rmr.Base.{
  ℕ, zero, suc, ◌+◌, ◌≤◌, ◌<◌, ◌≡◌, refl, ◌∙◌, List, [], ◌∷◌, arith, ◌==◌, if◌then◌else◌, length,
  get_or, length-set, get_or-set, Bool-cases, inl, inr, ap,
}
use ric_plt_lib_rmr.Symtab.{
  SymEle, SymTab, chain, del_head_ele, clear_chain, clear_from, rmr_sym_clear,
}
use native.Mathlib.Decide.{dec_lt}
use ric_plt_lib_rmr.Symtab.Valid.{IsValid, total, total-set}

module _ {ℓ} {V : Type ℓ} where
  -- The counters of a table with `n` chains, `d` elements of which are or were in use.
  record Counts (n d : ℕ) (t : SymTab V) : Type ℓ where
    width : length t.symlist ≡ n
    size : t.size ≡ n
    counted : t.inhabitants ≡ total t.symlist
    sum : t.inhabitants + t.deaths ≡ d

  module _ (n d i : ℕ) (h : i < n) where
    del_head-Counts :
        (t : SymTab V) (e : SymEle V) (c : List (SymEle V))
        → chain t i ≡ e ∷ c
        → Counts n d t
        → Counts n d (del_head_ele t i)
          × ((j : ℕ) → chain (del_head_ele t i) j ≡ (if i == j then c else chain t j))
    unfolding del_head_ele
    del_head-Counts t e c at k =
        let sums = total-set t.symlist i c (omega (arith, k.width)) in
        let one = ap length at in
        rw (at, del_head_ele)
          (
            record {
              width = length-set t.symlist i c ∙ k.width;
              size = k.size;
              counted = omega (arith, sums, one, k.counted);
              sum = omega (arith, sums, one, k.counted, k.sum);
            },
            λ j. get_or-set t.symlist i j c [] (omega (arith, k.width)),
          )

    clear_chain-Counts :
        (c : List (SymEle V)) (t : SymTab V)
        → chain t i ≡ c
        → Counts n d t
        → Counts n d (clear_chain c t i)
          × ((j : ℕ) → chain (clear_chain c t i) j ≡ (if i == j then [] else chain t j))
    unfolding clear_chain
    clear_chain-Counts [] t at k = (k, λ j. ground arith)
    clear_chain-Counts (e ∷ c) t at k =
        let (k', reads) = del_head-Counts t e c at k in
        let (k'', reads') = clear_chain-Counts c (del_head_ele t i) (ground (arith, reads i)) k' in
        (k'', λ j. ground (arith, reads j, reads' j))

  clear_from-Counts :
      (m n d i : ℕ) (t : SymTab V)
      → i + m ≡ n
      → Counts n d t
      → ((j : ℕ) → j < i → chain t j ≡ [])
      → Counts n d (clear_from m i t) × ((j : ℕ) → j < n → chain (clear_from m i t) j ≡ [])
  unfolding clear_from
  clear_from-Counts zero n d i t e k done = (k, λ j h. done j (omega arith))
  clear_from-Counts (suc m) n d i t e k done =
      let (k', reads) = clear_chain-Counts n d i (omega arith) (chain t i) t refl k in
      clear_from-Counts m n d (i + 1) (clear_chain (chain t i) t i) (omega arith) k' (λ j h.
        elim (Bool-cases (i == j)) [
          | inl e ↦ rw (reads j, e)
          | inr e ↦ rw (reads j, e) (done j (ground arith))
        ])

  total-empty :
      (cs : List (List (SymEle V))) → ((j : ℕ) → j < length cs → get_or cs j [] ≡ []) → total cs ≡ 0
  total-empty [] h = refl
  total-empty (c ∷ cs) h =
      omega (arith, ap length (h 0 (omega arith)), total-empty cs (λ j lt. h (suc j) (omega arith)))

  get_or-out : (cs : List (List (SymEle V))) (j : ℕ) → length cs ≤ j → get_or cs j [] ≡ []
  get_or-out [] j h = refl
  get_or-out (c ∷ cs) zero h = absurd (omega arith)
  get_or-out (c ∷ cs) (suc j) h = get_or-out cs j (omega arith)

  -- Clearing a well-formed table leaves every chain empty, and the counters say so: no inhabitants,
  -- and each element that was in the table is one more death.
  pub clear-empty :
      (t : SymTab V)
      → IsValid t
      → ((j : ℕ) → chain (rmr_sym_clear t) j ≡ [])
        × ((rmr_sym_clear t).inhabitants ≡ 0)
        × ((rmr_sym_clear t).deaths ≡ t.deaths + t.inhabitants)
        × ((rmr_sym_clear t).size ≡ t.size)
  unfolding rmr_sym_clear
  clear-empty t valid =
      let start : Counts t.size (t.inhabitants + t.deaths) t = record {
        width = valid.width;
        size = refl;
        counted = valid.counted;
        sum = refl;
      } in
      let (k, gone) =
        clear_from-Counts t.size t.size (t.inhabitants + t.deaths) 0 t (omega arith) start
          (λ j h. absurd (omega arith)) in
      let none_left =
        total-empty (rmr_sym_clear t).symlist (λ j h. gone j (omega (arith, k.width))) in
      (
        λ j. elim (dec_lt j t.size) [
          | yes h ↦ gone j h
          | no h ↦ get_or-out (rmr_sym_clear t).symlist j (omega (arith, k.width))
        ],
        omega (arith, k.counted, none_left),
        omega (arith, k.counted, none_left, k.sum),
        k.size,
      )
