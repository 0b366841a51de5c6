-- ===== src/Wormhole/Slots.antt =====
-- wormholes.c: what the ids of wormholes stand for.
use ric_plt_lib_rmr.Base.{
  ℕ, suc, ◌+◌, ◌≡◌, ◌<◌, ◌≤◌, Bool, true, Option, none, some, List, [], ◌∷◌, length, get_or, arith,
  ◌⊎◌,
}
use ric_plt_lib_rmr.Wormhole.{Search, is_open, use_slot, is_ep, find_hole}

-- A result of the search over slots that `look` gives, `n` of them.
unfoldable pub IsResult : ℕ → Bool → ℕ → (ℕ → Option ℕ) → Search → Type 0
IsResult p linked n look (is_open w) = (linked ≡ true) × (w < n) × (look w ≡ some p)
IsResult p linked n look (use_slot w) = (w ≤ n) × ((look w ≡ none) ⊎ (look w ≡ some p))

unfoldable pub FreeBefore : (ℕ → Option ℕ) → ℕ → Option ℕ → Type 0
FreeBefore look i none = Unit
FreeBefore look i (some f) = (f < i) × (look f ≡ none)

unfoldable pub SameFrom : (ℕ → Option ℕ) → ℕ → List (Option ℕ) → Type 0
SameFrom look i eps = (j k : ℕ) → k ≡ i + j → look k ≡ get_or eps j none

module _ (p : ℕ) (linked : Bool) (look : ℕ → Option ℕ) (n : ℕ) where
  next-SameFrom :
      (i : ℕ) (e : Option ℕ) (eps : List (Option ℕ))
      → SameFrom look i (e ∷ eps)
      → SameFrom look (i + 1) eps
  unfolding SameFrom
  next-SameFrom i e eps at j k h = at (suc j) k (omega (arith, h))

  pub find_hole-IsResult :
      (eps : List (Option ℕ)) (i : ℕ) (free : Option ℕ)
      → SameFrom look i eps
      → FreeBefore look i free
      → i + length eps ≡ n
      → IsResult p linked n look (find_hole p linked i free eps)
  unfolding find_hole IsResult FreeBefore is_ep SameFrom
  find_hole-IsResult [] i none at f h = ground (arith, at 0 i)
  find_hole-IsResult [] i (some w) at f h = ground (arith, f)
  find_hole-IsResult (none ∷ eps) i none at f h =
      find_hole-IsResult eps (i + 1) (some i) (next-SameFrom i none eps at)
        (omega arith, at 0 i (omega arith)) (omega (arith, h))
  find_hole-IsResult (none ∷ eps) i (some w) at f h =
      find_hole-IsResult eps (i + 1) (some w) (next-SameFrom i none eps at)
        (omega (arith, f.0), f.1) (omega (arith, h))
  find_hole-IsResult (some q ∷ eps) i none at f h =
      let rest =
        find_hole-IsResult eps (i + 1) none (next-SameFrom i (some q) eps at) tt
          (omega (arith, h)) in
      ground (arith, rest, at 0 i)
  find_hole-IsResult (some q ∷ eps) i (some w) at f h =
      let rest =
        find_hole-IsResult eps (i + 1) (some w) (next-SameFrom i (some q) eps at)
          (omega (arith, f.0), f.1) (omega (arith, h)) in
      ground (arith, rest, at 0 i)
