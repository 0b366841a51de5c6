-- ===== src/Tools/Addresses.antt =====
-- src/rmr/common/src/tools_static.c: lists of names and addresses in a string: the search for a
-- string, the search for an own address, and the tokens that are no own address. `none` as the list
-- of addresses is nil. Memory is available.
use ric_plt_lib_rmr.Base.{
  ℕ, suc, ◌≡◌, ◌≢◌, ◌++◌, length, ◌⊎◌, Bool, true, false, Option, none, some, List, [], ◌∷◌, ltb,
  if◌then◌else◌, str_eq,
}
use ric_plt_lib_rmr.Base.Int.{ℤ, pos, negsuc}
use ric_plt_lib_rmr.Endpoint.{has_char}
use ric_plt_lib_rmr.Tools.{uta_tokenise, tokens_from}

-- the loop over the tokens, at token `i`
index_from : ℕ → List ℕ → List (List ℕ) → ℤ
index_from i str [] = negsuc 0
index_from i str (t ∷ ts) =
    let rest = index_from (suc i) str ts in if str_eq t str then pos i else rest

-- The index of the first token that is `str`, or -1.
unfoldable pub uta_has_str : List ℕ → List ℕ → ℕ → ℕ → ℤ
unfolding index_from
uta_has_str buf str sep max =
    if ltb max 2 then negsuc 0 else index_from 0 str (uta_tokenise buf max sep)

abbrev pub found : ℤ → Bool
found (pos n) = true
found (negsuc n) = false

unfoldable pub is_listed : List (List ℕ) → List ℕ → Bool
is_listed [] addr = false
is_listed (a ∷ l) addr = let rest = is_listed l addr in if str_eq addr a then true else rest

unfoldable pub is_this_myip : Option (List (List ℕ)) → List ℕ → Bool
is_this_myip none addr = false
is_this_myip (some l) addr = is_listed l addr

any_myip : Option (List (List ℕ)) → List (List ℕ) → Bool
any_myip list [] = false
any_myip list (t ∷ ts) = let rest = any_myip list ts in if is_this_myip list t then true else rest

unfoldable pub has_myip : List ℕ → Option (List (List ℕ)) → ℕ → ℕ → Bool
unfolding any_myip
has_myip buf list sep max = if ltb max 2 then false else any_myip list (uta_tokenise buf max sep)

-- the loop that keeps the tokens that are not ours
pruned : Option (List (List ℕ)) → List (List ℕ) → List (List ℕ)
pruned iplist [] = []
pruned iplist (t ∷ ts) =
    let rest = pruned iplist ts in if is_this_myip iplist t then rest else t ∷ rest

-- the tokens that are kept; the number returned is that of these
unfoldable pub uta_rmip_tokenise : List ℕ → Option (List (List ℕ)) → ℕ → ℕ → List (List ℕ)
unfolding pruned
uta_rmip_tokenise buf iplist max sep = pruned iplist (uta_tokenise buf max sep)

-- No token has the separator in it.
unfoldable pub AllApart : ℕ → List (List ℕ) → Type 0
AllApart sep [] = Unit
AllApart sep (t ∷ ts) = (has_char sep t ≡ false) × AllApart sep ts

-- No token is the string.
unfoldable pub NoneIs : List ℕ → List (List ℕ) → Type 0
NoneIs str [] = Unit
NoneIs str (t ∷ ts) = (t ≢ str) × NoneIs str ts

-- the tokens for what a cut gave
abbrev tokens_of : ℕ → ℕ → List ℕ → List ℕ × Option (List ℕ) → List (List ℕ)
tokens_of room sep s (front, none) = s ∷ []
tokens_of room sep s (front, some rest) = front ∷ tokens_from room sep rest

-- The place of the first token that is the string, or -1 if no token is.
unfoldable pub IsIndex : List ℕ → List (List ℕ) → ℤ → Type 0
IsIndex str ts (pos n) =
    (front : List (List ℕ)) × (back : List (List ℕ)) × (ts ≡ front ++ (str ∷ back))
    × NoneIs str front
    × (n ≡ length front)
IsIndex str ts (negsuc n) = NoneIs str ts × (n ≡ 0)

abbrev Place : List ℕ → List (List ℕ) → Type 0
Place str ts =
    NoneIs str ts
    ⊎ ((front : List (List ℕ)) × (back : List (List ℕ)) × (ts ≡ front ++ (str ∷ back))
        × NoneIs str front)
