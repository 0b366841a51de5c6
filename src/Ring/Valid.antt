-- ===== src/Ring/Valid.antt =====
-- ring_static.c: the range of the indexes, and the pointers that lie between them.
use ric_plt_lib_rmr.Base.{
  ℕ, zero, suc, ◌+◌, ◌-◌, ◌^◌, ◌≤◌, ◌<◌, ◌≡◌, refl, ◌≢◌, ap, Bool, true, false, none, some, List,
  [], ◌∷◌, ◌++◌, arith, ltb, leb, if◌then◌else◌, length, get_or, set, replicate, get_or-set,
  length-replicate,
}
use ric_plt_lib_rmr.Ring.{fresh, nelements_of, Pointer, Ring, step, uta_mk_ring}

module _ (items : List Pointer) (n : ℕ) where
  -- the `k` pointers from index `i` on, going round at `n`
  abbrev pub stored_from : ℕ → ℕ → List Pointer
  stored_from i zero = []
  stored_from i (suc k) = get_or items i none ∷ stored_from (step n i) k

  pub length-stored : (i k : ℕ) → length (stored_from i k) ≡ k
  length-stored i zero = refl
  length-stored i (suc k) = ap suc (length-stored (step n i) k)

-- the number of slots in use
abbrev pub span : ℕ → ℕ → ℕ → ℕ
span n tail head = if leb tail head then head - tail else head + n - tail

-- The pointers that the ring holds, the oldest first.
abbrev pub contents : Ring → List Pointer
contents r = stored_from r.items r.nelements r.tail (span r.nelements r.tail r.head)

pub record IsValid (r : Ring) : Type 0 where
  pub storage : r.nelements ≤ length r.items
  pub small : r.nelements < 2 ^ 16
  pub head_in : r.head < r.nelements
  pub tail_in : r.tail < r.nelements

-- the slot `k` past `i`
abbrev past : ℕ → ℕ → ℕ → ℕ
past n i k = if ltb (i + k) n then i + k else i + k - n

-- A write to the first free slot adds to what is stored.
pub stored-set :
    (items : List Pointer) (n : ℕ) (x : Pointer) (k i h : ℕ)
    → n ≤ length items
    → n < 2 ^ 16
    → i < n
    → k < n
    → h ≡ past n i k
    → stored_from (set items h x) n i (suc k) ≡ stored_from items n i k ++ (x ∷ [])
stored-set items n x zero i h hs hn hi hk e =
    let here = get_or-set items h i x none (ground arith) in ground (arith, here)
stored-set items n x (suc k) i h hs hn hi hk e =
    let first = get_or-set items h i x none (ground arith) in
    let rest =
      stored-set items n x k (step n i) h hs hn (ground arith) (omega arith) (ground arith) in
    ground (arith, first, rest)

-- Clearing a slot that is not among those stored changes nothing.
pub stored-clear :
    (items : List Pointer) (n : ℕ) (x : Pointer) (k i t : ℕ)
    → n ≤ length items
    → n < 2 ^ 16
    → i < n
    → t < n
    → k ≤ (if leb i t then t - i else t + n - i)
    → stored_from (set items t x) n i k ≡ stored_from items n i k
stored-clear items n x zero i t hs hn hi ht e = refl
stored-clear items n x (suc k) i t hs hn hi ht e =
    let first = get_or-set items t i x none (omega arith) in
    let rest = stored-clear items n x k (step n i) t hs hn (ground arith) ht (ground arith) in
    ground (arith, first, rest)

-- The first pointer of a ring that holds some.
pub contents-cons :
    (r : Ring)
    → IsValid r
    → r.tail ≢ r.head
    → contents r
      ≡ get_or r.items r.tail none
        ∷ stored_from r.items r.nelements
            (step r.nelements r.tail)
            (span r.nelements r.tail r.head - 1)
contents-cons r v ne = go (span r.nelements r.tail r.head) refl
  where
    go :
        (k : ℕ)
        → span r.nelements r.tail r.head ≡ k
        → stored_from r.items r.nelements r.tail k
          ≡ get_or r.items r.tail none
            ∷ stored_from r.items r.nelements (step r.nelements r.tail) (k - 1)
    go zero e = absurd (ground arith)
    go (suc k) e = ap (λ m. stored_from r.items r.nelements r.tail (suc m)) (omega arith)

pub length-contents : (r : Ring) → length (contents r) ≡ span r.nelements r.tail r.head
length-contents r = length-stored r.items r.nelements r.tail (span r.nelements r.tail r.head)

stored-none : (n : ℕ) → stored_from (replicate (n + 1) none) n 0 (span n 0 0) ≡ []
stored-none n = refl

-- With memory, a size from 1 to 65536 makes a ring that is valid and empty, with a slot for each
-- (one less from 65535 on), no lock, and a count of 0 if the descriptor could be made.
pub mk_ring-IsValid :
    (made : Bool) (size : ℕ)
    → 0 < size
    → size ≤ 65536
    → (r : Ring) × (uta_mk_ring true made size ≡ some r)
      × IsValid r
      × (contents r ≡ [])
      × (r.nelements ≡ (if ltb size 65535 then size else size - 1))
      × (r.rgate ≡ false)
      × (r.wgate ≡ false)
      × (r.pfd ≡ (if made then some 0 else none))
unfolding uta_mk_ring
mk_ring-IsValid made size lo hi =
    let n = nelements_of size in
    (
      fresh made n,
      ground arith,
      record {
        storage = rw length-replicate (omega arith);
        small = omega arith;
        head_in = ground arith;
        tail_in = ground arith;
      },
      stored-none n,
      ground arith,
      refl,
      refl,
      refl,
    )
