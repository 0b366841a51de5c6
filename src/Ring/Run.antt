-- ===== src/Ring/Run.antt =====
-- ring_static.c: whole sequences of calls on a ring without locks.
use ric_plt_lib_rmr.Base.{◌-◌, ◌≡◌, refl, true, List, [], ◌∷◌}
use ric_plt_lib_rmr.Ring.{Ring, Eventfd, IsSemaphore, uta_ring_extract, uta_ring_insert}
use ric_plt_lib_rmr.Ring.Queue
use ric_plt_lib_rmr.Ring.Queue.{Call, insert, extract, Reply, stored, taken}
use ric_plt_lib_rmr.Ring.Valid.{contents}
use ric_plt_lib_rmr.Ring.Refine.{
  Good, extract_alone, insert_alone, nelements-extract, nelements-insert,
}

module _ (fd : Eventfd) where
  unfoldable pub run : Ring → List Call → List Reply
  run r [] = []
  run r (insert x ∷ calls) =
      let (ok, r') = uta_ring_insert fd true (λ s. s) r x in stored ok ∷ run r' calls
  run r (extract ∷ calls) =
      let (x, r') = uta_ring_extract fd true (λ s. s) r in taken x ∷ run r' calls

  -- A valid, counted ring answers every sequence of calls as the queue of its contents with room
  -- for `nelements - 1` pointers: nothing is lost, repeated or reordered.
  pub run_refines :
      (sem : IsSemaphore fd) (calls : List Call) (r : Ring)
      → Good r
      → run r calls ≡ Queue.run (r.nelements - 1) (contents r) calls
  unfolding run Queue.run
  run_refines sem [] r g = refl
  run_refines sem (insert x ∷ calls) r g =
      let (ok, q, g') = insert_alone fd sem r x g in
      let rest = run_refines sem calls (uta_ring_insert fd true (λ s. s) r x).1 g' in
      rw (rest, ok, q, nelements-insert fd sem r x)
  run_refines sem (extract ∷ calls) r g =
      let (x, q, g') = extract_alone fd sem r g in
      let rest = run_refines sem calls (uta_ring_extract fd true (λ s. s) r).1 g' in
      rw (rest, x, q, nelements-extract fd sem r)
