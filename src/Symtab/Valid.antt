-- ===== src/Symtab/Valid.antt =====
-- symtab.c: when a table is well formed, the map that it stands for, and writes to one chain.
use ric_plt_lib_rmr.Base.{
  ℕ, zero, suc, ◌+◌, ◌≤◌, ◌<◌, ◌≡◌, refl, ◌≢◌, true, Option, none, some, List, [], ◌∷◌, arith, ltb,
  ◌==◌, if◌then◌else◌, length, get_or, set, replicate, length-set, get_or-set, get_or-replicate,
  length-replicate,
}
use ric_plt_lib_rmr.Symtab.{
  SymEle, SymTab, SymKey, text, num, sym_hash, slot, chain, set_chain, rmr_sym_alloc,
}
use ric_plt_lib_rmr.Symtab.Find.{IsKey, AllGood, value, count}

pub slot-lt : (size : ℕ) (k : SymKey) → 0 < size → slot size k < size
unfolding slot sym_hash
slot-lt size (text n c) h = omega arith
slot-lt size (num n) h = omega arith

abbrev grown_size : ℕ → ℕ
grown_size size = if ltb size 11 then 11 else size

module _ {ℓ} {V : Type ℓ} where
  abbrev pub total : List (List (SymEle V)) → ℕ
  total [] = 0
  total (c ∷ cs) = length c + total cs

  pub total-set :
      (cs : List (List (SymEle V))) (i : ℕ) (c : List (SymEle V))
      → i < length cs
      → total (set cs i c) + length (get_or cs i []) ≡ total cs + length c
  total-set [] i c h = absurd (omega arith)
  total-set (x ∷ cs) zero c h = omega arith
  total-set (x ∷ cs) (suc i) c h = omega (arith, total-set cs i c (omega arith))

total-replicate {ℓ} :
    (V : Type ℓ) (n : ℕ) → total {V = V} (replicate {A = List (SymEle V)} n []) ≡ 0
total-replicate V zero = refl
total-replicate V (suc n) = omega (arith, total-replicate V n)

module _ {ℓ} {V : Type ℓ} where
  -- Each key has one entry at most, and in the chain that it hashes to.
  pub record IsValid (t : SymTab V) : Type ℓ where
    pub width : length t.symlist ≡ t.size
    pub roomy : 0 < t.size
    pub counted : t.inhabitants ≡ total t.symlist
    pub good : (i : ℕ) → AllGood (chain t i)
    pub once : (k : SymKey) → IsKey k → (i : ℕ) → count k (chain t i) ≤ 1
    pub placed : (k : SymKey) → IsKey k → (i : ℕ) → i ≢ slot t.size k → count k (chain t i) ≡ 0

  abbrev pub home : SymTab V → SymKey → ℕ
  home t k = slot t.size k

  -- The map that a table stands for.
  abbrev pub lookup : SymTab V → SymKey → Option V
  lookup t k = value k (chain t (slot t.size k))

  module _ (t : SymTab V) (valid : IsValid t) (k : SymKey) (c : List (SymEle V)) where
    pub chain-set :
        (i : ℕ)
        → get_or (set_chain t (home t k) c) i [] ≡ (if (home t k) == i then c else chain t i)
    chain-set i =
        get_or-set t.symlist (home t k) i c []
          (omega (arith, valid.width, slot-lt t.size k valid.roomy))

    -- A chain is replaced by one of entries that belong there.
    pub set-IsValid :
        (n d : ℕ)
        → n + length (chain t (home t k)) ≡ t.inhabitants + length c
        → AllGood c
        → ((q : SymKey) → IsKey q → count q c ≤ 1)
        → ((q : SymKey) → IsKey q → home t k ≢ slot t.size q → count q c ≡ 0)
        → IsValid (record {
          symlist = set_chain t (home t k) c;
          inhabitants = n;
          deaths = d;
          size = t.size;
        })
    set-IsValid n d size g one at_home = record {
      width = rw length-set valid.width;
      roomy = valid.roomy;
      counted = omega (
        arith,
        valid.width,
        valid.counted,
        total-set t.symlist (home t k) c (omega (arith, valid.width, slot-lt t.size k valid.roomy)),
      );
      good = λ i. rw (chain-set i) (ground (arith, valid.good i));
      once = λ q hq i. rw (chain-set i) (ground (arith, valid.once q hq i, one q hq));
      placed = λ q hq i ne. rw (chain-set i) (ground (arith, valid.placed q hq i ne, at_home q hq));
    }

  abbrev pub empty : ℕ → SymTab V
  empty n = record { symlist = replicate n []; inhabitants = 0; deaths = 0; size = n }

  pub empty-IsValid : (n : ℕ) → 0 < n → IsValid (empty n)
  empty-IsValid n h = record {
    width = length-replicate n [];
    roomy = h;
    counted = omega (arith, total-replicate V n);
    good = λ i. rw get_or-replicate tt;
    once = λ k hk i. rw get_or-replicate (omega arith);
    placed = λ k hk i ne. rw get_or-replicate refl;
  }

  -- `rmr_sym_alloc` makes a well-formed table with at least 11 chains that maps nothing.
  pub alloc-IsValid :
      (size : ℕ)
      → (t : SymTab V) × (rmr_sym_alloc true size ≡ some t)
        × IsValid t
        × (11 ≤ t.size)
        × ((k : SymKey) → lookup t k ≡ none)
  unfolding rmr_sym_alloc
  alloc-IsValid size = (
    empty (grown_size size),
    refl,
    empty-IsValid (grown_size size) (ground arith),
    ground arith,
    λ k. rw (get_or-replicate (grown_size size)) refl,
  )
