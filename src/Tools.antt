-- ===== src/Tools.antt =====
-- src/rmr/common/src/tools_static.c: the bounded copy of a string and the tokeniser. A string is the
-- list of its bytes before the terminator.
pub mod Addresses
mod Tests
use mathlib.Core.Path.{subst}
use ric_plt_lib_rmr.Base.{
  ℕ, zero, suc, ◌+◌, ◌-◌, ◌≤◌, ◌<◌, ◌≡◌, refl, Bool, true, false, Option, none, some, List, [], ◌∷◌,
  ◌++◌, arith, ◌==◌, if◌then◌else◌, length, take, ap, Option-cases, inl, inr,
}
use ric_plt_lib_rmr.Endpoint.{has_char}

-- the loop of `zt_buf_fill`, with room for that many bytes
fill_from : ℕ → List ℕ → List ℕ
fill_from zero src = []
fill_from (suc room) [] = []
fill_from (suc room) (c ∷ src) = c ∷ fill_from room src

-- What is returned, and what the destination holds before its terminator. `len` is positive in all
-- calls.
unfoldable pub zt_buf_fill : List ℕ → ℕ → ℕ × List ℕ
unfolding fill_from
zt_buf_fill src len = let dest = fill_from (len - 1) src in (length dest, dest)

fill_from-take : (room : ℕ) (src : List ℕ) → fill_from room src ≡ take room src
unfolding fill_from
fill_from-take zero src = refl
fill_from-take (suc room) [] = refl
fill_from-take (suc room) (c ∷ src) = ap (◌∷◌ c) (fill_from-take room src)

length-fill_from : (room : ℕ) (src : List ℕ) → length (fill_from room src) ≤ room
unfolding fill_from
length-fill_from zero src = omega arith
length-fill_from (suc room) [] = omega arith
length-fill_from (suc room) (c ∷ src) = omega (arith, length-fill_from room src)

-- The destination is the front of the source that leaves room for the terminator, and the length of
-- it is returned.
pub buf_fill-take :
    (src : List ℕ) (len : ℕ)
    → 0 < len
    → ((zt_buf_fill src len).1 ≡ take (len - 1) src)
      × ((zt_buf_fill src len).0 ≡ length (zt_buf_fill src len).1)
      × ((zt_buf_fill src len).0 + 1 ≤ len)
unfolding zt_buf_fill
buf_fill-take src len h =
    (fill_from-take (len - 1) src, refl, omega (arith, length-fill_from (len - 1) src))

-- strchr, then the write of the terminator: what stands before the first `sep`, and what behind it
unfoldable pub cut : ℕ → List ℕ → List ℕ × Option (List ℕ)
cut sep [] = ([], none)
cut sep (c ∷ s) =
    let (front, back) = cut sep s in if c == sep then ([], some s) else (c ∷ front, back)

-- the tokens from `s` on, when `room` more may follow the first
unfoldable pub tokens_from : ℕ → ℕ → List ℕ → List (List ℕ)
tokens_from zero sep s = s ∷ []
tokens_from (suc room) sep [] = [] ∷ []
tokens_from (suc room) sep (c ∷ s) =
    let (front, back) = cut sep (c ∷ s) in
    elim back [ none ↦ (c ∷ s) ∷ [] | some rest ↦ front ∷ tokens_from room sep rest ]

-- The first token is recorded whatever `max` is.
unfoldable pub uta_tokenise : List ℕ → ℕ → ℕ → List (List ℕ)
unfolding tokens_from
uta_tokenise [] max sep = []
uta_tokenise (c ∷ s) max sep = tokens_from (max - 1) sep (c ∷ s)

-- the tokens with separators between them
unfoldable pub join : ℕ → List (List ℕ) → List ℕ
join sep [] = []
join sep (t ∷ []) = t
join sep (t ∷ u ∷ ts) = t ++ (sep ∷ join sep (u ∷ ts))

-- No token but the last has a separator in it.
unfoldable pub AllCut : ℕ → List (List ℕ) → Type 0
AllCut sep [] = Unit
AllCut sep (t ∷ []) = Unit
AllCut sep (t ∷ u ∷ ts) = (has_char sep t ≡ false) × AllCut sep (u ∷ ts)

cut_lem :
    (sep : ℕ) (s : List ℕ)
    → elim (cut sep s).1 [ none ↦ (cut sep s).0 | some rest ↦ (cut sep s).0 ++ (sep ∷ rest) ] ≡ s
unfolding cut
cut_lem sep [] = refl
cut_lem sep (c ∷ s) = ground (arith, cut_lem sep s)

cut-has_char : (sep : ℕ) (s : List ℕ) → has_char sep (cut sep s).0 ≡ false
unfolding cut has_char
cut-has_char sep [] = refl
cut-has_char sep (c ∷ s) = ground (arith, cut-has_char sep s)

IsTokens : ℕ → ℕ → List ℕ → List (List ℕ) → Type 0
IsTokens sep room s [] = ⊥
IsTokens sep room s (t ∷ ts) = (join sep (t ∷ ts) ≡ s) × (length ts ≤ room) × AllCut sep (t ∷ ts)

prepend :
    (room sep : ℕ) (front rest : List ℕ) (ts : List (List ℕ))
    → IsTokens sep room rest ts
    → has_char sep front ≡ false
    → IsTokens sep (suc room) (front ++ (sep ∷ rest)) (front ∷ ts)
unfolding IsTokens join AllCut
prepend room sep front rest [] h f = absurd h
prepend room sep front rest (t ∷ ts) h f =
    (ap (λ r. front ++ (sep ∷ r)) h.0, omega (arith, h.1), (f, h.2))

tokens_from-IsTokens : (room sep : ℕ) (s : List ℕ) → IsTokens sep room s (tokens_from room sep s)
unfolding tokens_from IsTokens join AllCut
tokens_from-IsTokens zero sep s = ground arith
tokens_from-IsTokens (suc room) sep [] = ground arith
tokens_from-IsTokens (suc room) sep (c ∷ s) = elim (Option-cases (cut sep (c ∷ s)).1) [
  | inl e ↦ rw (e, tokens_from) (refl, omega arith, tt)
  | inr (rest, e) ↦
      let whole : (cut sep (c ∷ s)).0 ++ (sep ∷ rest) ≡ c ∷ s =
        ground (arith, e, cut_lem sep (c ∷ s)) in
      let tokens =
        prepend room sep (cut sep (c ∷ s)).0 rest (tokens_from room sep rest)
          (tokens_from-IsTokens room sep rest) (cut-has_char sep (c ∷ s)) in
      rw (e, tokens_from)
        (subst (λ z. IsTokens sep (suc room) z ((cut sep (c ∷ s)).0 ∷ tokens_from room sep rest))
          whole tokens)
]

tokens_from_lem :
    (room sep : ℕ) (s : List ℕ) (ts : List (List ℕ))
    → IsTokens sep room s ts
    → (join sep ts ≡ s) × (length ts ≤ room + 1) × AllCut sep ts
unfolding IsTokens
tokens_from_lem room sep s [] h = absurd h
tokens_from_lem room sep s (t ∷ ts) h = (h.0, omega (arith, h.1), h.2)

-- The tokens with separators put between them are the string again; there are no more than were asked
-- for, at least one being asked for; and only the last can have a separator in it.
pub tokenise-join :
    (s : List ℕ) (max sep : ℕ)
    → 0 < max
    → (join sep (uta_tokenise s max sep) ≡ s)
      × (length (uta_tokenise s max sep) ≤ max)
      × AllCut sep (uta_tokenise s max sep)
unfolding uta_tokenise join AllCut
tokenise-join [] max sep h = (refl, omega arith, tt)
tokenise-join (c ∷ s) max sep h =
    let ts = tokens_from (max - 1) sep (c ∷ s) in
    let (joined, few, cuts) =
      tokens_from_lem (max - 1) sep (c ∷ s) ts (tokens_from-IsTokens (max - 1) sep (c ∷ s)) in
    (joined, omega (arith, few, h), cuts)
