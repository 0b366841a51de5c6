-- ===== src/Rts/Names.antt =====
-- mbuf_api.c, tools_static.c: names in a header, as strings that end with a 0.
use ric_plt_lib_rmr.Base.{
  ℕ, zero, suc, ◌+◌, ◌-◌, ◌≤◌, ◌<◌, ◌≡◌, refl, ap, ◌∙◌, false, List, [], ◌∷◌, ◌++◌, arith, length,
  get_or, take,
}
use ric_plt_lib_rmr.Endpoint.{has_char}
use ric_plt_lib_rmr.Tools.{zt_buf_fill, buf_fill-take}
use ric_plt_lib_rmr.Mbuf.{c_string}
use ric_plt_lib_rmr.Mbuf.Fields.{stored}
use ric_plt_lib_rmr.Send.Message.{fill_src, put_bytes, rmr_max_src}

-- A C string has no terminator in it.
pub c_string-no_end : (max : ℕ) (buf : List ℕ) (i : ℕ) → has_char 0 (c_string max buf i) ≡ false
unfolding c_string has_char
c_string-no_end zero buf i = refl
c_string-no_end (suc max) buf i = ground (arith, c_string-no_end max buf (i + 1))

-- The same bytes are the same string.
pub c_string-same :
    (max : ℕ) (a b : List ℕ) (i : ℕ)
    → ((j : ℕ) → i ≤ j → j < i + max → get_or a j 0 ≡ get_or b j 0)
    → c_string max a i ≡ c_string max b i
unfolding c_string
c_string-same zero a b i h = refl
c_string-same (suc max) a b i h =
    let rest = c_string-same max a b (i + 1) (λ j l r. h j (omega (arith, l)) (omega (arith, r))) in
    ground (arith, rest, h i (omega arith) (omega arith))

take-long : (n : ℕ) (xs : List ℕ) → length xs ≤ n → take n xs ≡ xs
take-long zero [] h = refl
take-long zero (x ∷ xs) h = absurd (omega arith)
take-long (suc n) [] h = refl
take-long (suc n) (x ∷ xs) h = ap (◌∷◌ x) (take-long n xs (omega arith))

-- A name of fewer than 64 characters is read back from a field.
pub fill_src-c_string :
    (buf s : List ℕ) (i : ℕ)
    → has_char 0 s ≡ false
    → length s < rmr_max_src
    → i + rmr_max_src ≤ length buf
    → c_string rmr_max_src (fill_src buf i s) i ≡ s
unfolding fill_src
fill_src-c_string buf s i n h room =
    let (front, _, _) = buf_fill-take s rmr_max_src (omega arith) in
    let whole : (zt_buf_fill s rmr_max_src).1 ≡ s =
      front ∙ take-long (rmr_max_src - 1) s (omega (arith, h)) in
    ap (λ l. c_string rmr_max_src (put_bytes buf i (l ++ (0 ∷ []))) i) whole
    ∙ stored buf s i rmr_max_src n h room
