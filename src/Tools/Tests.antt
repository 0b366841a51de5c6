-- ===== src/Tools/Tests.antt =====
-- tools_static.c: the theorems at short strings.
use ric_plt_lib_rmr.Base.{ℕ, ◌+◌, ◌-◌, ◌≤◌, ◌≡◌, refl, List, [], ◌∷◌, arith, length, take}
use ric_plt_lib_rmr.Tools.{zt_buf_fill, buf_fill-take, cut, uta_tokenise}

-- "a|bc||d"
abbrev fields : List ℕ
fields = b'a' ∷ b'|' ∷ b'b' ∷ b'c' ∷ b'|' ∷ b'|' ∷ b'd' ∷ []

three_tokens :
    uta_tokenise fields 3 b'|' ≡ (b'a' ∷ []) ∷ (b'b' ∷ b'c' ∷ []) ∷ (b'|' ∷ b'd' ∷ []) ∷ []
unfolding uta_tokenise cut
three_tokens = refl

buf_fill-take_example :
    ((zt_buf_fill fields 4).1 ≡ take (4 - 1) fields)
    × ((zt_buf_fill fields 4).0 ≡ length (zt_buf_fill fields 4).1)
    × ((zt_buf_fill fields 4).0 + 1 ≤ 4)
buf_fill-take_example = buf_fill-take fields 4 (omega arith)

-- "a", "bc" and "d"
abbrev names : List (List ℕ)
names = (b'b' ∷ b'c' ∷ []) ∷ (b'd' ∷ []) ∷ []
