-- ===== src/Ring/Queue.antt =====
-- What a ring promises: a first-in first-out queue of at most `cap` pointers.
use ric_plt_lib_rmr.Base.{
  ℕ, Bool, true, false, none, List, [], ◌∷◌, ◌++◌, leb, if◌then◌else◌, length,
}
use ric_plt_lib_rmr.Ring.{Pointer}

unfoldable pub pop : List Pointer → Pointer × List Pointer
pop [] = (none, [])
pop (x ∷ q) = (x, q)

unfoldable pub push : ℕ → List Pointer → Pointer → Bool × List Pointer
push cap q x = if leb cap (length q) then (false, q) else (true, q ++ (x ∷ []))

pub data Call : Type 0 where
  insert : Pointer → Call
  extract : Call

pub data Reply : Type 0 where
  stored : Bool → Reply
  taken : Pointer → Reply

-- a client's calls in order, with what each returns
unfoldable pub run : ℕ → List Pointer → List Call → List Reply
run cap q [] = []
run cap q (insert x ∷ calls) = let (ok, q') = push cap q x in stored ok ∷ run cap q' calls
run cap q (extract ∷ calls) = let (x, q') = pop q in taken x ∷ run cap q' calls
