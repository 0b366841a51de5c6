-- ===== src/Send/Copies.antt =====
-- sr_si_static.c: what a clone of a message holds.
use ric_plt_lib_rmr.Base.{
  ℕ, zero, suc, [], ◌∷◌, ◌+◌, ◌-◌, ◌%◌, ◌^◌, ◌≤◌, ◌<◌, ◌≡◌, inl, inr, sym, ap, ◌∙◌, Bool-cases,
  List, arith, ltb, length, get_or, take, drop, length-take, length-drop,
}
use ric_plt_lib_rmr.Base.Int.{pos}
use ric_plt_lib_rmr.River.{Raw}
use ric_plt_lib_rmr.Receive.{tp_hdr_len, at_len0, rmr_hdr_len}
use ric_plt_lib_rmr.Send.Message.{Msg, put_bytes, bytes_of}
use ric_plt_lib_rmr.Send.Header.{
  get_or-put_bytes, put_bytes-at, get_or-take, get_or-drop, net32-same, length-put_bytes,
}
use ric_plt_lib_rmr.Send.Roundtrip.{IsSendable}
use ric_plt_lib_rmr.Send.Clone.{raw_of, payload_addr, header_copied, with_header, clone_msg}

-- a byte of a part of a list
pub get_or-part :
    (n i k : ℕ) (xs : List ℕ) → k < n → get_or (take n (drop i xs)) k 0 ≡ get_or xs (i + k) 0
get_or-part n i k xs h = get_or-take n k (drop i xs) h ∙ get_or-drop i k xs

pub length-part : (n i : ℕ) (xs : List ℕ) → i + n ≤ length xs → length (take n (drop i xs)) ≡ n
length-part n i xs h = length-take n (drop i xs) (omega (arith, length-drop i xs))

length-take-le : (n : ℕ) (xs : List ℕ) → length (take n xs) ≤ length xs
length-take-le zero xs = omega arith
length-take-le (suc n) [] = omega arith
length-take-le (suc n) (x ∷ xs) = omega (arith, length-take-le n xs)

le-length-take : (k n : ℕ) (xs : List ℕ) → k ≤ n → k ≤ length xs → k ≤ length (take n xs)
le-length-take k zero xs h l = omega arith
le-length-take k (suc n) [] h l = omega arith
le-length-take zero (suc n) (x ∷ xs) h l = omega arith
le-length-take (suc k) (suc n) (x ∷ xs) h l =
    omega (arith, le-length-take k n xs (omega arith) (omega arith))

-- four words that are the same in two messages
pub rmr_hdr_len-same :
    (a b : Raw)
    → ((j : ℕ) → at_len0 ≤ j → j < at_len0 + 16 → get_or a.bytes j 0 ≡ get_or b.bytes j 0)
    → rmr_hdr_len a ≡ rmr_hdr_len b
unfolding rmr_hdr_len
rmr_hdr_len-same a b h =
    let w0 = net32-same a.bytes b.bytes at_len0 (λ j l r. h j l (omega arith)) in
    let w1 = net32-same a.bytes b.bytes (at_len0 + 4) (λ j l r. h j (omega arith) (omega arith)) in
    let w2 = net32-same a.bytes b.bytes (at_len0 + 8) (λ j l r. h j (omega arith) (omega arith)) in
    let w3 = net32-same a.bytes b.bytes (at_len0 + 12) (λ j l r. h j (omega arith) (omega arith)) in
    ap (λ k. k % 2 ^ 32) (omega (arith, w0, w1, w2, w3))

module _ (garbage : ℕ → List ℕ) (new : (k : ℕ) → length (garbage k) ≡ k) (m : Msg) (n : ℕ)
    (ok : IsSendable m n) (whole : length m.tp_buf ≡ m.alloc_len) where
  abbrev hdr : ℕ
  hdr = rmr_hdr_len (raw_of m)

  hdr-le-copied : hdr ≤ header_copied m
  unfolding header_copied
  hdr-le-copied = omega arith

  within : hdr + tp_hdr_len + n ≤ length m.tp_buf
  within = omega (arith, ok.fits, ok.there)

  header-same :
      (i : ℕ)
      → tp_hdr_len ≤ i
      → i < tp_hdr_len + hdr
      → get_or (with_header garbage m) i 0 ≡ get_or m.tp_buf i 0
  unfolding with_header
  header-same i low high =
      let rest = drop tp_hdr_len m.tp_buf in
      let src = take (header_copied m) rest in
      let k = i - tp_hdr_len in
      let lr = length-drop tp_hdr_len m.tp_buf in
      let ls = length-take-le (header_copied m) rest in
      let there : tp_hdr_len + length src ≤ length (garbage (m.alloc_len + tp_hdr_len)) =
        omega (arith, lr, ls, whole, new (m.alloc_len + tp_hdr_len)) in
      let inside : k < length src = omega (
        arith,
        le-length-take hdr (header_copied m) rest hdr-le-copied (omega (arith, lr, within)),
        low,
        high,
      ) in
      let at : i ≡ tp_hdr_len + k = omega (arith, low) in
      ap (λ j. get_or (with_header garbage m) j 0) at
      ∙ put_bytes-at (garbage (m.alloc_len + tp_hdr_len)) src tp_hdr_len k there inside
      ∙ get_or-part (header_copied m) tp_hdr_len k m.tp_buf
          (omega (arith, hdr-le-copied, low, high))
      ∙ ap (λ j. get_or m.tp_buf j 0) (sym at)

  length-with_header : length (with_header garbage m) ≡ m.alloc_len + tp_hdr_len
  unfolding with_header
  length-with_header =
      length-put_bytes (garbage (m.alloc_len + tp_hdr_len))
        (take (header_copied m) (drop tp_hdr_len m.tp_buf)) tp_hdr_len
      ∙ new (m.alloc_len + tp_hdr_len)

  -- the clone before the payload is copied
  abbrev cut : Msg
  cut = record m { tp_buf = with_header garbage m; rts_fd = pos 0 }

  hdr-cut : rmr_hdr_len (raw_of cut) ≡ hdr
  hdr-cut =
      rmr_hdr_len-same (raw_of cut) (raw_of m)
        (λ j l r. header-same j (omega (arith, l)) (omega (arith, r, ok.header)))

  payload-cut : payload_addr cut ≡ tp_hdr_len + hdr
  unfolding payload_addr
  payload-cut = omega (arith, hdr-cut)

  -- A clone of a message whose header and payload are in its buffer, and of which as much is copied
  -- as header as the buffer holds, has the same bytes in the header, the areas behind it and the
  -- payload.
  pub clone_msg-same :
      tp_hdr_len + header_copied m ≤ m.alloc_len
      → (i : ℕ) → tp_hdr_len ≤ i
      → i < tp_hdr_len + hdr + n
      → get_or (clone_msg garbage m).tp_buf i 0 ≡ get_or m.tp_buf i 0
  unfolding clone_msg payload_addr
  clone_msg-same inside i low high =
      let w = with_header garbage m in
      let a = tp_hdr_len + hdr in
      let src = take n (drop a m.tp_buf) in
      let ls = length-part n a m.tp_buf (omega (arith, within)) in
      let k = i - a in
      let start : get_or (clone_msg garbage m).tp_buf i 0 ≡ get_or (put_bytes w a src) i 0 =
        ap (λ j. get_or (put_bytes w j (bytes_of m.len (drop a m.tp_buf))) i 0) payload-cut
        ∙ ap (λ l. get_or (put_bytes w a (bytes_of l (drop a m.tp_buf))) i 0) ok.len_is in
      elim (Bool-cases (ltb i a)) [
        | inl y ↦
            start
            ∙ get_or-put_bytes w src a i (inl (ground (arith, y)))
            ∙ header-same i low (ground (arith, y))
        | inr z ↦
            (let at : i ≡ a + k = ground (arith, z) in
              start
              ∙ ap (λ j. get_or (put_bytes w a src) j 0) at
              ∙ put_bytes-at w src a k
                  (omega
                    (arith, ls, within, new (m.alloc_len + tp_hdr_len), length-with_header, whole))
                  (omega (arith, ls, at, high))
              ∙ get_or-part n a k m.tp_buf (omega (arith, at, high))
              ∙ ap (λ j. get_or m.tp_buf j 0) (sym at))
      ]
