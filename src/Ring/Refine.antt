-- ===== src/Ring/Refine.antt =====
-- ring_static.c: insert and extract against the queue of `Ring.Queue`, and the event descriptor.
use mathlib.Core.Path.{subst}
use ric_plt_lib_rmr.Base.{
  sym, suc, ◌-◌, ◌≡◌, refl, ◌≢◌, inl, inr, true, false, none, some, [], ◌∷◌, ◌++◌, arith, leb,
  if◌then◌else◌, Bool-cases, length, length-set,
}
use ric_plt_lib_rmr.Ring.{
  Pointer, Ring, Eventfd, IsSemaphore, step, is_empty, full, take_next, put_next, uta_ring_extract,
  uta_ring_insert,
}
use ric_plt_lib_rmr.Ring.Queue
use ric_plt_lib_rmr.Ring.Queue.{Call, insert, extract, Reply, stored, taken}
use ric_plt_lib_rmr.Ring.Valid.{
  IsValid, contents, span, stored-set, stored-clear, contents-cons, length-contents,
}

-- The count of the descriptor is the number of pointers queued.
abbrev pub IsCounted : Ring → Type 0
IsCounted r = r.pfd ≡ some (length (contents r))

pub record Good (r : Ring) : Type 0 where
  pub valid : IsValid r
  pub count : IsCounted r

module _ (fd : Eventfd) (sem : IsSemaphore fd) where
  module _ (r : Ring) (g : Good r) where
    take-contents : r.tail ≢ r.head → contents (take_next fd r).1 ≡ (Queue.pop (contents r)).1
    unfolding take_next Queue.pop
    take-contents ne =
        let v = g.valid in
        let n = r.nelements in
        let t = step n r.tail in
        let k = span n r.tail r.head - 1 in
        let shorter : span n t r.head ≡ k = ground arith in
        rw (contents-cons r v ne, shorter)
          (stored-clear r.items n none k t r.tail (omega arith) (omega arith) (ground arith)
            (omega arith) (ground arith))

    take-Good :
        r.tail ≢ r.head
        → ((take_next fd r).0 ≡ (Queue.pop (contents r)).0)
          × (contents (take_next fd r).1 ≡ (Queue.pop (contents r)).1)
          × Good (take_next fd r).1
    unfolding take_next Queue.pop
    take-Good ne =
        let v = g.valid in
        (
          rw (contents-cons r v ne),
          take-contents ne,
          record {
            valid = record {
              storage = rw length-set (omega arith);
              small = v.small;
              head_in = v.head_in;
              tail_in = ground arith;
            };
            count = ground (
              arith,
              g.count,
              length-contents r,
              length-contents (take_next fd r).1,
              sem.counts_down (length (contents r)),
            );
          },
        )

    put-contents :
        (x : Pointer) → full fd r ≡ false → contents (put_next fd r x) ≡ contents r ++ (x ∷ [])
    unfolding put_next
    put-contents x nf =
        let v = g.valid in
        let n = r.nelements in
        let k = span n r.tail r.head in
        let longer : span n r.tail (step n r.head) ≡ suc k = ground arith in
        rw longer (
          stored-set r.items n x k r.tail r.head (omega arith) (omega arith) (omega arith)
            (ground arith) (ground arith))

    put-Good :
        (x : Pointer)
        → full fd r ≡ false
        → (contents (put_next fd r x) ≡ contents r ++ (x ∷ [])) × Good (put_next fd r x)
    unfolding put_next
    put-Good x nf =
        let v = g.valid in
        (
          put-contents x nf,
          record {
            valid = record {
              storage = rw length-set (omega arith);
              small = v.small;
              head_in = ground arith;
              tail_in = v.tail_in;
            };
            count = ground (
              arith,
              g.count,
              length-contents r,
              length-contents (put_next fd r x),
              sem.counts_up (length (contents r)),
            );
          },
        )

    -- the test of the code, as the length of the queue
    full-length : full fd r ≡ leb (r.nelements - 1) (length (contents r))
    full-length = let v = g.valid in rw (length-contents r) (ground arith)

    empty-length : is_empty r ≡ true → contents r ≡ []
    empty-length e = let same : span r.nelements r.tail r.head ≡ 0 = ground arith in rw same

  -- The ring as the operation finds it once it may touch it.
  abbrev pub at_extract : (Ring → Ring) → Ring → Ring
  at_extract meanwhile r = if is_empty r then r else if r.rgate then meanwhile r else r

  abbrev pub at_insert : (Ring → Ring) → Ring → Ring
  at_insert meanwhile r = if r.wgate then meanwhile r else r

  extract-at :
      (meanwhile : Ring → Ring) (r : Ring)
      → uta_ring_extract fd true meanwhile r
        ≡ (let r' = at_extract meanwhile r in if is_empty r' then (none, r') else take_next fd r')
  unfolding uta_ring_extract
  extract-at meanwhile r = elim (Bool-cases (is_empty r)) [
    | inl e ↦ rw (e, e)
    | inr e ↦ elim (Bool-cases r.rgate) [ inl h ↦ rw (e, h) | inr h ↦ rw (e, h, e) ]
  ]

  insert-at :
      (meanwhile : Ring → Ring) (r : Ring) (x : Pointer)
      → uta_ring_insert fd true meanwhile r x ≡ (
          let r' = at_insert meanwhile r in
          if full fd r' then (false, r') else (true, put_next fd r' x))
  unfolding uta_ring_insert
  insert-at meanwhile r x = elim (Bool-cases r.wgate) [ inl h ↦ rw h | inr h ↦ rw h ]

  -- With the lock, or on a ring that has none, an extract is a pop of the queue that the ring holds
  -- by then, nil if it is empty, if the ring is valid and counted by then; it stays so.
  pub extract_refines :
      (meanwhile : Ring → Ring) (r : Ring)
      → Good (at_extract meanwhile r)
      → let r' = at_extract meanwhile r in
        let (x, r'') = uta_ring_extract fd true meanwhile r in
        (x ≡ (Queue.pop (contents r')).0) × (contents r'' ≡ (Queue.pop (contents r')).1) × Good r''
  unfolding Queue.pop
  extract_refines meanwhile r g =
      let r' = at_extract meanwhile r in
      elim (Bool-cases (is_empty r')) [
        | inl e ↦ rw (extract-at meanwhile r, e, empty-length r' g e) (refl, refl, g)
        | inr e ↦ rw (extract-at meanwhile r, e) (take-Good r' g (ground arith))
      ]

  -- Without the lock nothing is taken: the ring is as the other threads left it.
  pub extract-unlocked :
      (meanwhile : Ring → Ring) (r : Ring)
      → r.rgate ≡ true
      → uta_ring_extract fd false meanwhile r ≡ (none, at_extract meanwhile r)
  unfolding uta_ring_extract
  extract-unlocked meanwhile r h = ground arith

  -- With the lock, or on a ring that has none, an insert is a push onto the queue that the ring
  -- holds by then, which takes one pointer less than there are slots, if the ring is valid and
  -- counted by then; it stays so.
  pub insert_refines :
      (meanwhile : Ring → Ring) (r : Ring) (x : Pointer)
      → Good (at_insert meanwhile r)
      → let r' = at_insert meanwhile r in
        let (ok, r'') = uta_ring_insert fd true meanwhile r x in
        let (ok', q) = Queue.push (r'.nelements - 1) (contents r') x in
        (ok ≡ ok') × (contents r'' ≡ q) × Good r''
  unfolding Queue.push
  insert_refines meanwhile r x g =
      let r' = at_insert meanwhile r in
      elim (Bool-cases (full fd r')) [
        | inl e ↦ rw (insert-at meanwhile r x, e, ← full-length r' g, e) (refl, refl, g)
        | inr e ↦
            let (q, g') = put-Good r' g x e in
            rw (insert-at meanwhile r x, e, ← full-length r' g, e) (refl, q, g')
      ]

  pub insert-unlocked :
      (meanwhile : Ring → Ring) (r : Ring) (x : Pointer)
      → r.wgate ≡ true
      → uta_ring_insert fd false meanwhile r x ≡ (false, at_insert meanwhile r)
  unfolding uta_ring_insert
  insert-unlocked meanwhile r x h = rw h

  -- Without other threads the operation finds the ring as it was given.
  pub at_extract_alone : (r : Ring) → at_extract (λ s. s) r ≡ r
  at_extract_alone r = elim (Bool-cases (is_empty r)) [
    | inl e ↦ rw e
    | inr e ↦ elim (Bool-cases r.rgate) [ inl h ↦ rw (e, h) | inr h ↦ rw (e, h) ]
  ]

  pub at_insert_alone : (r : Ring) → at_insert (λ s. s) r ≡ r
  at_insert_alone r = elim (Bool-cases r.wgate) [ inl h ↦ rw h | inr h ↦ rw h ]

  pub extract_alone :
      (r : Ring)
      → Good r
      → let (x, r') = uta_ring_extract fd true (λ s. s) r in
        (x ≡ (Queue.pop (contents r)).0) × (contents r' ≡ (Queue.pop (contents r)).1) × Good r'
  extract_alone r g =
      subst
        (λ s.
          let (x, r') = uta_ring_extract fd true (λ s. s) r in
          (x ≡ (Queue.pop (contents s)).0) × (contents r' ≡ (Queue.pop (contents s)).1) × Good r')
        (at_extract_alone r) (extract_refines (λ s. s) r (subst Good (sym (at_extract_alone r)) g))

  pub insert_alone :
      (r : Ring) (x : Pointer)
      → Good r
      → let (ok, r') = uta_ring_insert fd true (λ s. s) r x in
        let (ok', q) = Queue.push (r.nelements - 1) (contents r) x in
        (ok ≡ ok') × (contents r' ≡ q) × Good r'
  insert_alone r x g =
      subst
        (λ s.
          let (ok, r') = uta_ring_insert fd true (λ s. s) r x in
          let (ok', q) = Queue.push (s.nelements - 1) (contents s) x in
          (ok ≡ ok') × (contents r' ≡ q) × Good r')
        (at_insert_alone r) (insert_refines (λ s. s) r x (subst Good (sym (at_insert_alone r)) g))

  -- The number of slots never changes while nobody else works on the ring.
  pub nelements-extract :
      (r : Ring) → (uta_ring_extract fd true (λ s. s) r).1.nelements ≡ r.nelements
  unfolding take_next
  nelements-extract r = elim (Bool-cases (is_empty r)) [
    | inl e ↦ rw (extract-at (λ s. s) r, at_extract_alone r, e)
    | inr e ↦ rw (extract-at (λ s. s) r, at_extract_alone r, e)
  ]

  pub nelements-insert :
      (r : Ring) (x : Pointer) → (uta_ring_insert fd true (λ s. s) r x).1.nelements ≡ r.nelements
  unfolding put_next
  nelements-insert r x = elim (Bool-cases (full fd r)) [
    | inl e ↦ rw (insert-at (λ s. s) r x, at_insert_alone r, e)
    | inr e ↦ rw (insert-at (λ s. s) r x, at_insert_alone r, e)
  ]
