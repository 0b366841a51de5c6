-- ===== src/Ring/Tests.antt =====
-- ring_static.c: the theorems at a ring of three slots that goes round its end.
use ric_plt_lib_rmr.Base.{◌+◌, ◌-◌, ◌≡◌, refl, true, false, none, some, List, [], ◌∷◌, arith}
use ric_plt_lib_rmr.Ring.{Ring, Eventfd, IsSemaphore, uta_ring_insert, uta_ring_extract}
use ric_plt_lib_rmr.Ring.Queue
use ric_plt_lib_rmr.Ring.Queue.{Call, insert, extract, Reply, stored, taken}
use ric_plt_lib_rmr.Ring.Valid.{IsValid, contents}
use ric_plt_lib_rmr.Ring.Refine.{Good}
use ric_plt_lib_rmr.Ring.Run.{run, run_refines}

-- a descriptor that counts
abbrev pub counter : Eventfd
counter = record { signal = λ c. c + 1; drain = λ c. c - 1 }

pub counter-IsSemaphore : IsSemaphore counter
counter-IsSemaphore = record { counts_up = λ c h. refl; counts_down = λ c h. refl }

-- 7 in the last slot
abbrev pub wrapped : Ring
wrapped = record {
  head = 0;
  tail = 2;
  nelements = 3;
  items = none ∷ none ∷ some 7 ∷ none ∷ [];
  pfd = some 1;
  flock = false;
  rgate = true;
  wgate = true;
}

wrapped-IsValid : IsValid wrapped
wrapped-IsValid = record {
  storage = omega arith;
  small = omega arith;
  head_in = omega arith;
  tail_in = omega arith;
}

pub wrapped-Good : Good wrapped
wrapped-Good = record { valid = wrapped-IsValid; count = refl }

abbrev calls : List Call
calls = insert (some 8) ∷ insert (some 9) ∷ extract ∷ extract ∷ extract ∷ []

replies :
    run counter wrapped calls
    ≡ stored true ∷ stored false ∷ taken (some 7) ∷ taken (some 8) ∷ taken none ∷ []
unfolding run uta_ring_insert uta_ring_extract
replies = refl

run_refines_example :
    run counter wrapped calls ≡ Queue.run (wrapped.nelements - 1) (contents wrapped) calls
run_refines_example = run_refines counter counter-IsSemaphore calls wrapped wrapped-Good

-- another thread took 7 meanwhile
abbrev drained : Ring → Ring
drained r = record wrapped { tail = 0; items = none ∷ none ∷ none ∷ none ∷ []; pfd = some 0 }

drained-Good : Good (drained wrapped)
drained-Good = record {
  valid = record {
    storage = omega arith;
    small = omega arith;
    head_in = omega arith;
    tail_in = omega arith;
  };
  count = refl;
}
