-- ===== src/River/Frames.antt =====
-- What a stream of messages is, in terms of its bytes alone.
use ric_plt_lib_rmr.Base.{
  ℕ, ◌+◌, ◌^◌, ◌≤◌, ◌<◌, ◌≡◌, ◌⊎◌, List, [], ◌∷◌, ◌++◌, arith, length, length-append,
}
use ric_plt_lib_rmr.River.{native32}
use ric_plt_lib_rmr.River.Length.{native32-append}

-- The sizes that the receiver can handle: the size field is in it, and a buffer can be allocated.
abbrev pub Fits : ℕ → Type 0
Fits n = (9 ≤ n) × (n + 128 < 2 ^ 31)

-- A whole message: its first word is its length.
abbrev pub IsFrame : List ℕ → Type 0
IsFrame m = (native32 m 0 ≡ length m) × Fits (length m)

-- The start of a message: the size is not known yet, or there are fewer bytes than it says.
abbrev pub IsPartial : List ℕ → Type 0
IsPartial l = (length l < 9) ⊎ ((9 ≤ length l) × (length l < native32 l 0) × Fits (native32 l 0))

abbrev pub AllFrames : List (List ℕ) → Type 0
AllFrames [] = Unit
AllFrames (m ∷ ms) = IsFrame m × AllFrames ms

abbrev pub concat : List (List ℕ) → List ℕ
concat [] = []
concat (m ∷ ms) = m ++ concat ms

-- A front of the start of a message is one, and so is a proper front of a message.
pub front-IsPartial : (a b : List ℕ) → IsPartial (a ++ b) → IsPartial a
front-IsPartial a b p = ground (arith, native32-append a b, length-append a b)

pub front-frame : (a b : List ℕ) → IsFrame (a ++ b) → 0 < length b → IsPartial a
front-frame a b p h = ground (arith, native32-append a b, length-append a b)
