-- ===== src/Records/Text.antt =====
-- rt_generic_static.c: the text of a record: `clip`, `ensure_nlterm`, and the C library's isspace and
-- atoi in the C locale.
use ric_plt_lib_rmr.Base.{
  ℕ, zero, suc, ◌+◌, ◌-◌, ◌*◌, Bool, ◌&&◌, ◌||◌, Option, none, some, List, [], ◌∷◌, ◌++◌, leb, ◌==◌,
  if◌then◌else◌,
}
use ric_plt_lib_rmr.Base.Int.{ℤ, pos, negsuc}
use ric_plt_lib_rmr.Tools.{cut}

abbrev pub isspace : ℕ → Bool
isspace c = (c == b' ') || (leb 9 c && leb c 13)

unfoldable pub skip_spaces : List ℕ → List ℕ
skip_spaces [] = []
skip_spaces (c ∷ s) = let rest = skip_spaces s in if isspace c then rest else c ∷ s

-- a character before what is left of the string
keep_before : ℕ → List ℕ → List ℕ
keep_before c [] = if isspace c then [] else c ∷ []
keep_before c (d ∷ s) = c ∷ d ∷ s

-- without the spaces at the end
unfoldable pub trim_end : List ℕ → List ℕ
unfolding keep_before
trim_end [] = []
trim_end (c ∷ s) = keep_before c (trim_end s)

-- The loop stops at the first character, whatever it is.
unfoldable pub trim_tail : List ℕ → List ℕ
trim_tail [] = []
trim_tail (c ∷ s) = c ∷ trim_end s

-- the last character of `c ∷ s`
abbrev pub last_of : ℕ → List ℕ → ℕ
last_of c [] = c
last_of c (d ∷ s) = last_of d s

-- a string that starts with `c` is cut at the comment sign if a space stands before that
uncomment : ℕ → List ℕ → List ℕ × Option (List ℕ) → List ℕ
uncomment c s (front, none) = c ∷ s
uncomment c s ([], some rest) = c ∷ s
uncomment c s (d ∷ front, some rest) = if isspace (last_of d front) then d ∷ front else c ∷ s

-- The string without leading spaces: a comment is handed back whole.
clip_from : List ℕ → List ℕ
unfolding uncomment
clip_from [] = []
clip_from (c ∷ s) = if c == b'#' then c ∷ s else trim_tail (uncomment c s (cut b'#' (c ∷ s)))

unfoldable pub clip : List ℕ → List ℕ
unfolding clip_from
clip buf = clip_from (skip_spaces buf)

-- `none` is nil; memory is available. The string that is returned ends in a newline.
unfoldable pub ensure_nlterm : Option (List ℕ) → List ℕ
ensure_nlterm none = b'\n' ∷ []
ensure_nlterm (some []) = b'\n' ∷ []
ensure_nlterm (some (c ∷ [])) = if c == b'\n' then c ∷ [] else c ∷ b'\n' ∷ []
ensure_nlterm (some (c ∷ d ∷ s)) =
    if last_of d s == b'\n' then c ∷ d ∷ s else (c ∷ d ∷ s) ++ (b'\n' ∷ [])

digits : ℕ → List ℕ → ℕ
digits n [] = n
digits n (c ∷ s) =
    let rest = digits (n * 10 + (c - b'0')) s in if leb b'0' c && leb c b'9' then rest else n

signed_digits : List ℕ → ℤ
signed_digits [] = pos 0
signed_digits (c ∷ s) =
    if c == b'-'
    then elim (digits 0 s) [ zero ↦ pos 0 | suc n ↦ negsuc n ]
    else if c == b'+'
    then pos (digits 0 s)
    else pos (digits 0 (c ∷ s))

-- C leaves open what a number outside of int gives; here it is kept.
unfoldable pub atoi : List ℕ → ℤ
unfolding digits signed_digits
atoi s = signed_digits (skip_spaces s)
