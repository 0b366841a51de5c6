-- ===== src/River/Length.antt =====
-- The size field of the transport header: `insert_mlen` of src/rmr/si/src/sr_si_static.c and
-- `extract_mlen` of mt_call_si_static.c.
use ric_plt_lib_rmr.Base.{
  ℕ, ◌+◌, ◌*◌, ◌/◌, ◌%◌, ◌^◌, ◌≤◌, ◌<◌, ◌≡◌, refl, List, [], ◌∷◌, ◌++◌, arith, length, drop,
  length-drop,
}
use ric_plt_lib_rmr.River.{extract_mlen, native32, net32, tp_sz_marker, tp_szfield_len}

-- the four bytes of a number below 2 ^ 32, the least first
abbrev pub byte : ℕ → ℕ → ℕ
byte n k = n / 2 ^ (8 * k) % 2 ^ 8

-- what is stored: the size in native and in network order, the marker, and four zeros
abbrev pub mlen_bytes : ℕ → List ℕ
mlen_bytes len =
    byte len 0
    ∷ byte len 1
    ∷ byte len 2
    ∷ byte len 3
    ∷ byte len 3
    ∷ byte len 2
    ∷ byte len 1
    ∷ byte len 0
    ∷ tp_sz_marker
    ∷ 0
    ∷ 0
    ∷ 0
    ∷ 0
    ∷ []

-- Overwrites the first 13 bytes of a buffer, which is assumed to have them.
unfoldable pub insert_mlen : ℕ → List ℕ → List ℕ
insert_mlen len buf = mlen_bytes len ++ drop (tp_szfield_len + 4) buf

-- Whatever the buffer holds, with the marker or without, what is extracted is the first word in
-- native byte order.
pub extract_mlen-native : (buf : List ℕ) → extract_mlen buf ≡ native32 buf 0
unfolding extract_mlen
extract_mlen-native buf = ground arith

-- A size below 2 ^ 32 that is put into a buffer of at least 13 bytes is read back, in both byte
-- orders and by `extract_mlen`; the length of the buffer and the bytes past the 13 stay.
pub extract-insert_mlen :
    (len : ℕ) (buf : List ℕ)
    → len < 2 ^ 32
    → 13 ≤ length buf
    → (extract_mlen (insert_mlen len buf) ≡ len)
      × (native32 (insert_mlen len buf) 0 ≡ len)
      × (net32 (insert_mlen len buf) 4 ≡ len)
      × (length (insert_mlen len buf) ≡ length buf)
      × (drop 13 (insert_mlen len buf) ≡ drop 13 buf)
unfolding insert_mlen
extract-insert_mlen len buf h room = (
  rw (extract_mlen-native (insert_mlen len buf)) (omega arith),
  omega arith,
  omega arith,
  omega (arith, length-drop 13 buf),
  refl,
)

pub native32-append : (a b : List ℕ) → 4 ≤ length a → native32 (a ++ b) 0 ≡ native32 a 0
native32-append (x ∷ y ∷ z ∷ w ∷ a) b h = refl
native32-append (x ∷ y ∷ z ∷ []) b h = absurd (omega arith)
native32-append (x ∷ y ∷ []) b h = absurd (omega arith)
native32-append (x ∷ []) b h = absurd (omega arith)
native32-append [] b h = absurd (omega arith)

-- Only the first bytes count.
pub extract_mlen-append : (a b : List ℕ) → 4 ≤ length a → extract_mlen (a ++ b) ≡ extract_mlen a
extract_mlen-append a b h =
    rw (extract_mlen-native (a ++ b), extract_mlen-native a) (native32-append a b h)
