-- ===== src/Send/Header.antt =====
-- sr_si_static.c: what is read from a buffer after numbers and strings were put into it.
use ric_plt_lib_rmr.Base.{
  ℕ, zero, suc, ◌+◌, ◌%◌, ◌^◌, ◌≤◌, ◌<◌, ◌≡◌, ◌⊎◌, inl, inr, refl, ap, ◌∙◌, List, [], ◌∷◌, ◌++◌,
  arith, length, set, get_or, length-set, length-append, take, drop,
}
use ric_plt_lib_rmr.Base.Int.{ℤ, pos, negsuc, signed32}
use ric_plt_lib_rmr.River.{net32}
use ric_plt_lib_rmr.River.Length.{byte, insert_mlen, mlen_bytes}
use ric_plt_lib_rmr.Route.{pattern32}
use ric_plt_lib_rmr.Route.Key.{IsInt32}
use ric_plt_lib_rmr.Tools.{zt_buf_fill, buf_fill-take}
use ric_plt_lib_rmr.Send.Message.{put32, put_bytes, fill_src, rmr_max_src}

pub get_or-other :
    (xs : List ℕ) (i j v : ℕ) → (j < i) ⊎ (i < j) → get_or (set xs i v) j 0 ≡ get_or xs j 0
get_or-other [] i j v h = refl
get_or-other (x ∷ xs) zero zero v h = elim h [
  | inl k ↦ absurd (omega arith)
  | inr k ↦ absurd (omega arith)
]
get_or-other (x ∷ xs) zero (suc j) v h = refl
get_or-other (x ∷ xs) (suc i) zero v h = refl
get_or-other (x ∷ xs) (suc i) (suc j) v h =
    get_or-other xs i j v (elim h [ inl k ↦ inl (omega arith) | inr k ↦ inr (omega arith) ])

pub get_or-at : (xs : List ℕ) (i v : ℕ) → i < length xs → get_or (set xs i v) i 0 ≡ v
get_or-at [] i v h = absurd (omega arith)
get_or-at (x ∷ xs) zero v h = refl
get_or-at (x ∷ xs) (suc i) v h = get_or-at xs i v (omega arith)

pub length-put32 : (buf : List ℕ) (i v : ℕ) → length (put32 buf i v) ≡ length buf
unfolding put32
length-put32 buf i v =
    let a = set buf i (byte v 3) in
    let b = set a (i + 1) (byte v 2) in
    let c = set b (i + 2) (byte v 1) in
    omega (
      arith,
      length-set buf i (byte v 3),
      length-set a (i + 1) (byte v 2),
      length-set b (i + 2) (byte v 1),
      length-set c (i + 3) (byte v 0),
    )

-- A position outside of the four bytes keeps its byte.
pub get_or-put32 :
    (buf : List ℕ) (i v j : ℕ) → (j < i) ⊎ (i + 4 ≤ j) → get_or (put32 buf i v) j 0 ≡ get_or buf j 0
unfolding put32
get_or-put32 buf i v j h =
    let a = set buf i (byte v 3) in
    let b = set a (i + 1) (byte v 2) in
    let c = set b (i + 2) (byte v 1) in
    let away : (k : ℕ) → k < 4 → (j < i + k) ⊎ (i + k < j) =
      λ k r. elim h [ inl l ↦ inl (omega arith) | inr l ↦ inr (omega arith) ] in
    get_or-other c (i + 3) j (byte v 0) (away 3 (omega arith))
    ∙ get_or-other b (i + 2) j (byte v 1) (away 2 (omega arith))
    ∙ get_or-other a (i + 1) j (byte v 2) (away 1 (omega arith))
    ∙ get_or-other buf i j (byte v 3) (elim h [ inl l ↦ inl l | inr l ↦ inr (omega arith) ])

-- A number that is put in network order is read back.
pub net32-put32 :
    (buf : List ℕ) (i v : ℕ) → i + 4 ≤ length buf → v < 2 ^ 32 → net32 (put32 buf i v) i ≡ v
unfolding put32
net32-put32 buf i v h k =
    let a = set buf i (byte v 3) in
    let b = set a (i + 1) (byte v 2) in
    let c = set b (i + 2) (byte v 1) in
    let la = length-set buf i (byte v 3) in
    let lb = length-set a (i + 1) (byte v 2) in
    let lc = length-set b (i + 2) (byte v 1) in
    let g0 : get_or (put32 buf i v) i 0 ≡ byte v 3 =
      get_or-other c (i + 3) i (byte v 0) (inl (omega arith))
      ∙ get_or-other b (i + 2) i (byte v 1) (inl (omega arith))
      ∙ get_or-other a (i + 1) i (byte v 2) (inl (omega arith))
      ∙ get_or-at buf i (byte v 3) (omega arith) in
    let g1 : get_or (put32 buf i v) (i + 1) 0 ≡ byte v 2 =
      get_or-other c (i + 3) (i + 1) (byte v 0) (inl (omega arith))
      ∙ get_or-other b (i + 2) (i + 1) (byte v 1) (inl (omega arith))
      ∙ get_or-at a (i + 1) (byte v 2) (omega (arith, la)) in
    let g2 : get_or (put32 buf i v) (i + 2) 0 ≡ byte v 1 =
      get_or-other c (i + 3) (i + 2) (byte v 0) (inl (omega arith))
      ∙ get_or-at b (i + 2) (byte v 1) (omega (arith, la, lb)) in
    let g3 : get_or (put32 buf i v) (i + 3) 0 ≡ byte v 0 =
      get_or-at c (i + 3) (byte v 0) (omega (arith, la, lb, lc)) in
    omega (arith, g0, g1, g2, g3)

pub length-put_bytes : (buf bs : List ℕ) (i : ℕ) → length (put_bytes buf i bs) ≡ length buf
unfolding put_bytes
length-put_bytes buf [] i = refl
length-put_bytes buf (b ∷ bs) i = length-put_bytes (set buf i b) bs (i + 1) ∙ length-set buf i b

-- A position outside of the bytes that are put keeps its byte.
pub get_or-put_bytes :
    (buf bs : List ℕ) (i j : ℕ)
    → (j < i) ⊎ (i + length bs ≤ j)
    → get_or (put_bytes buf i bs) j 0 ≡ get_or buf j 0
unfolding put_bytes
get_or-put_bytes buf [] i j h = refl
get_or-put_bytes buf (b ∷ bs) i j h =
    get_or-put_bytes (set buf i b) bs (i + 1) j
      (elim h [ inl k ↦ inl (omega arith) | inr k ↦ inr (omega arith) ])
    ∙ get_or-other buf i j b (elim h [ inl k ↦ inl k | inr k ↦ inr (omega arith) ])

-- The bytes that were put are there.
pub put_bytes-at :
    (buf bs : List ℕ) (i k : ℕ)
    → i + length bs ≤ length buf
    → k < length bs
    → get_or (put_bytes buf i bs) (i + k) 0 ≡ get_or bs k 0
unfolding put_bytes
put_bytes-at buf [] i k h l = absurd (omega arith)
put_bytes-at buf (b ∷ bs) i zero h l =
    let here : i + 0 ≡ i = omega arith in
    ap (λ j. get_or (put_bytes (set buf i b) (i + 1) bs) j 0) here
    ∙ get_or-put_bytes (set buf i b) bs (i + 1) i (inl (omega arith))
    ∙ get_or-at buf i b (omega arith)
put_bytes-at buf (b ∷ bs) i (suc k) h l =
    let next : i + suc k ≡ i + 1 + k = omega arith in
    ap (λ j. get_or (put_bytes (set buf i b) (i + 1) bs) j 0) next
    ∙ put_bytes-at (set buf i b) bs (i + 1) k (omega (arith, length-set buf i b)) (omega arith)

-- A field of a name ends before 64 bytes.
pub get_or-fill_src :
    (buf name : List ℕ) (i j : ℕ)
    → (j < i) ⊎ (i + rmr_max_src ≤ j)
    → get_or (fill_src buf i name) j 0 ≡ get_or buf j 0
unfolding fill_src
get_or-fill_src buf name i j h =
    let (front, count, short) = buf_fill-take name rmr_max_src (omega arith) in
    let filled = (zt_buf_fill name rmr_max_src).1 in
    get_or-put_bytes buf (filled ++ (0 ∷ [])) i j (elim h [
      | inl k ↦ inl k
      | inr k ↦ inr (omega (arith, short, count, length-append filled (0 ∷ [])))
    ])

pub length-fill_src : (buf name : List ℕ) (i : ℕ) → length (fill_src buf i name) ≡ length buf
unfolding fill_src
length-fill_src buf name i = length-put_bytes buf ((zt_buf_fill name rmr_max_src).1 ++ (0 ∷ [])) i

pub get_or-take : (n j : ℕ) (xs : List ℕ) → j < n → get_or (take n xs) j 0 ≡ get_or xs j 0
get_or-take zero j xs h = absurd (omega arith)
get_or-take (suc n) j [] h = refl
get_or-take (suc n) zero (x ∷ xs) h = refl
get_or-take (suc n) (suc j) (x ∷ xs) h = get_or-take n j xs (omega arith)

pub get_or-drop : (n j : ℕ) (xs : List ℕ) → get_or (drop n xs) j 0 ≡ get_or xs (n + j) 0
get_or-drop zero j xs = ap (λ k. get_or xs k 0) (omega arith)
get_or-drop (suc n) j [] = refl
get_or-drop (suc n) j (x ∷ xs) =
    let shift : suc (n + j) ≡ suc n + j = omega arith in
    get_or-drop n j xs ∙ ap (λ k. get_or (x ∷ xs) k 0) shift

get_or-behind : (xs ys : List ℕ) (j : ℕ) → get_or (xs ++ ys) (length xs + j) 0 ≡ get_or ys j 0
get_or-behind [] ys j = ap (λ k. get_or ys k 0) (omega arith)
get_or-behind (x ∷ xs) ys j =
    let shift : suc (length xs) + j ≡ suc (length xs + j) = omega arith in
    ap (λ k. get_or (x ∷ (xs ++ ys)) k 0) shift ∙ get_or-behind xs ys j

-- The size field is in the first 13 bytes.
pub get_or-insert_mlen :
    (len j : ℕ) (buf : List ℕ) → get_or (insert_mlen len buf) (13 + j) 0 ≡ get_or buf (13 + j) 0
unfolding insert_mlen
get_or-insert_mlen len j buf = get_or-behind (mlen_bytes len) (drop 13 buf) j ∙ get_or-drop 13 j buf

-- the same four bytes are the same number
pub net32-same :
    (a b : List ℕ) (i : ℕ)
    → ((j : ℕ) → i ≤ j → j < i + 4 → get_or a j 0 ≡ get_or b j 0)
    → net32 a i ≡ net32 b i
net32-same a b i h = omega (
  arith,
  h i (omega arith) (omega arith),
  h (i + 1) (omega arith) (omega arith),
  h (i + 2) (omega arith) (omega arith),
  h (i + 3) (omega arith) (omega arith),
)

pub signed32-pattern32 : (z : ℤ) → IsInt32 z → signed32 (pattern32 z % 2 ^ 32) ≡ z
signed32-pattern32 (pos n) h = ground arith
signed32-pattern32 (negsuc n) h = ground arith
