-- ===== src/Mbuf/Fields.antt =====
-- mbuf_api.c: strings that are put into the header are read back.
use ric_plt_lib_rmr.Base.{
  ℕ, zero, suc, ◌+◌, ◌-◌, ◌≤◌, ◌<◌, ◌≡◌, inl, refl, sym, ap, ◌∙◌, Bool, true, false, List, [], ◌∷◌,
  arith, ltb, ◌==◌, length, length-append, set, get_or, take, take-all,
}
use ric_plt_lib_rmr.Endpoint.{has_char}
use ric_plt_lib_rmr.Send.Message.{put_bytes}
use ric_plt_lib_rmr.Send.Header.{get_or-other, put_bytes-at}
use ric_plt_lib_rmr.Mbuf.{
  rmr_ok, rmr_max_meid, rmr_max_xid, at_meid, at_xid, z, terminated, rmr_bytes2meid, rmr_str2meid,
  rmr_bytes2xact, rmr_str2xact, c_string,
}

-- a string with its terminator at an offset
c_string_lem :
    (s : List ℕ) (max : ℕ) (buf : List ℕ) (i : ℕ)
    → has_char 0 s ≡ false
    → length s < max
    → ((k : ℕ) → k < length s + 1 → get_or buf (i + k) 0 ≡ get_or (z s) k 0)
    → c_string max buf i ≡ s
unfolding c_string has_char
c_string_lem s zero buf i n h f = absurd (omega arith)
c_string_lem [] (suc max) buf i n h f =
    let here : i ≡ i + 0 = omega arith in
    let end = ap (λ j. get_or buf j 0) here ∙ f 0 (omega arith) in ground (arith, end)
c_string_lem (c ∷ s) (suc max) buf i n h f =
    let here : i ≡ i + 0 = omega arith in
    let now = ap (λ j. get_or buf j 0) here ∙ f 0 (omega arith) in
    let rest = c_string_lem s max buf (i + 1) (ground (arith, n)) (omega arith) (λ k l.
      let next : i + 1 + k ≡ i + suc k = omega arith in
      ap (λ j. get_or buf j 0) next ∙ f (suc k) (omega arith)) in
    ground (arith, now, rest, n)

length-z : (s : List ℕ) → length (z s) ≡ length s + 1
length-z s = length-append s (0 ∷ [])

take-z : (s : List ℕ) → take (length s + 1) (z s) ≡ z s
take-z s = ap (λ n. take n (z s)) (sym (length-z s)) ∙ take-all (z s)

last-z : (s : List ℕ) → get_or (z s) (length s) 0 ≡ 0
last-z [] = refl
last-z (c ∷ s) = last-z s

-- A string is read back from where it was put with its terminator.
pub stored :
    (buf str : List ℕ) (i max : ℕ)
    → has_char 0 str ≡ false
    → length str < max
    → i + max ≤ length buf
    → c_string max (put_bytes buf i (z str)) i ≡ str
stored buf str i max n h room = c_string_lem str max (put_bytes buf i (z str)) i n h (λ k l.
    put_bytes-at buf (z str) i k (omega (arith, length-z str)) (omega (arith, length-z str)))

-- A string that is shorter than the field of the transaction id is read back from there, and no
-- overflow is reported; a string without a terminator in it, in a buffer with a whole header.
pub str2xact-c_string :
    (buf str : List ℕ)
    → has_char 0 str ≡ false
    → length str < rmr_max_xid
    → at_xid + rmr_max_xid ≤ length buf
    → ((rmr_str2xact buf str).value ≡ rmr_ok)
      × ((rmr_str2xact buf str).overflow ≡ false)
      × (c_string rmr_max_xid (rmr_str2xact buf str).buf at_xid ≡ str)
unfolding rmr_str2xact rmr_bytes2xact
str2xact-c_string buf str n h room =
    let short : ltb 31 (length str) ≡ false = ground arith in
    let fits : ltb 32 (length str + 1) ≡ false = ground arith in
    rw (short, fits, take-z str) (refl, refl, stored buf str at_xid rmr_max_xid n h room)

-- Nothing changes in the string when the byte behind it, or none, is cleared.
cleared :
    (buf str : List ℕ) (b : Bool)
    → (length str + 1 == rmr_max_meid) ≡ b
    → has_char 0 str ≡ false
    → length str < rmr_max_meid
    → at_meid + rmr_max_meid ≤ length buf
    → let s = terminated (put_bytes buf at_meid (z str)) (length str + 1) false in
      (s.overflow ≡ false) × (c_string rmr_max_meid s.buf at_meid ≡ str)
unfolding terminated
cleared buf str true e n h room =
    let end : at_meid + (length str + 1) - 1 ≡ at_meid + length str = omega arith in
    let last : get_or (put_bytes buf at_meid (z str)) (at_meid + (length str + 1) - 1) 0 ≡ 0 =
      ap (λ j. get_or (put_bytes buf at_meid (z str)) j 0) end
      ∙ put_bytes-at buf (z str) at_meid (length str) (omega (arith, length-z str))
          (omega (arith, length-z str))
      ∙ last-z str in
    rw (e, last) (refl, stored buf str at_meid rmr_max_meid n h room)
cleared buf str false e n h room =
    let put = put_bytes buf at_meid (z str) in
    rw e (
      refl,
      c_string_lem str rmr_max_meid (set put (at_meid + (length str + 1)) 0) at_meid n h (λ k l.
          get_or-other put (at_meid + (length str + 1)) (at_meid + k) 0 (inl (omega arith))
          ∙ put_bytes-at buf (z str) at_meid k (omega (arith, length-z str))
              (omega (arith, length-z str))),
    )

-- A string that is shorter than the field of the meid is read back from there, and no overflow is
-- reported; a string without a terminator in it, in a buffer with a whole header.
pub str2meid-c_string :
    (buf str : List ℕ)
    → has_char 0 str ≡ false
    → length str < rmr_max_meid
    → at_meid + rmr_max_meid ≤ length buf
    → ((rmr_str2meid buf str).value ≡ rmr_ok)
      × ((rmr_str2meid buf str).overflow ≡ false)
      × (c_string rmr_max_meid (rmr_str2meid buf str).buf at_meid ≡ str)
unfolding rmr_str2meid rmr_bytes2meid
str2meid-c_string buf str n h room =
    let short : ltb 31 (length str) ≡ false = ground arith in
    let fits : ltb 32 (length str + 1) ≡ false = ground arith in
    let (over, read) = cleared buf str (length str + 1 == rmr_max_meid) refl n h room in
    rw (short, fits, take-z str) (refl, over, read)
