-- ===== src/River/BadSize.antt =====
-- mt_call_si_static.c: what `mt_data_cb` does with sizes too small to cover their own size field.
use ric_plt_lib_rmr.Base.{
  ℕ, zero, suc, ◌+◌, ◌-◌, ◌≤◌, ◌<◌, ◌≡◌, refl, sym, ap, ◌∙◌, true, false, List, [], ◌∷◌, ◌++◌,
  arith, ltb, leb, lt→ltb, length, take, drop, length-take, length-append, take-append-drop,
}
use mathlib.Core.List.{append_assoc}
use ric_plt_lib_rmr.Base.Int.{pos, is_positive}
use ric_plt_lib_rmr.River.{
  River, good, native32, grab, sized, goes_on, broken, find_size, fill, complete, completes,
  crashed, spinning, data_loop,
}
use ric_plt_lib_rmr.River.Length.{extract_mlen-native, native32-append}
use ric_plt_lib_rmr.River.Step.{grab-lem}
use ric_plt_lib_rmr.River.Fill.{between}

module _ (max_ibm : ℕ) where
  abbrev zero_sized : River
  zero_sized = record {
    state = good;
    accum = [];
    nbytes = max_ibm + 1024;
    ipt = 0;
    msg_size = pos 0;
  }

  size_zero :
      (c : List ℕ)
      → 9 ≤ length c
      → native32 c 0 ≡ 0
      → find_size (between max_ibm) c ≡ goes_on zero_sized c
  unfolding find_size sized
  size_zero c h z =
      let enough : ltb (length c) 9 ≡ false = ground arith in
      rw (enough, extract_mlen-native c, z) (ground arith)

  fill_zero :
      (c : List ℕ)
      → fill max_ibm zero_sized c
        ≡ complete (record { bytes = []; nbytes = max_ibm + 1024 }) (between max_ibm) c
  unfolding fill completes grab
  fill_zero c = let room : leb 0 (max_ibm + 1024) ≡ true = ground arith in ground arith

  -- Between two messages, a buffer with a whole size field that says 0: no number of rounds ends
  -- the loop, which passes on an empty message in each.
  pub zero-size_spins :
      (fuel b : ℕ) (bs : List ℕ)
      → 9 ≤ length (b ∷ bs)
      → native32 (b ∷ bs) 0 ≡ 0
      → data_loop max_ibm fuel (between max_ibm) (b ∷ bs) ≡ spinning
  unfolding data_loop
  zero-size_spins zero b bs h z = refl
  zero-size_spins (suc fuel) b bs h z =
      let c = b ∷ bs in
      let r : River = record (between max_ibm) { msg_size = pos 0 } in
      let first = size_zero c h z in
      let second = fill_zero c in rw (first, data_loop, second, zero-size_spins fuel b bs h z)

  sized_small :
      (n : ℕ) (r : River) (rest : List ℕ)
      → n < 9
      → 1024 ≤ r.nbytes
      → sized r n rest ≡ goes_on (record r { msg_size = pos n }) rest
  unfolding sized
  sized_small n r rest h room = ground arith

  fill_small :
      (n : ℕ) (r : River) (rest : List ℕ)
      → r.msg_size ≡ pos n
      → r.ipt ≡ 9
      → n < 9
      → fill max_ibm r rest ≡ broken
  unfolding fill completes
  fill_small n r rest size at h =
      let all_there : ltb (r.ipt + length rest) n ≡ false = ground arith in
      rw (size, all_there, lt→ltb n r.ipt (omega arith))

  -- A size field that came in two parts and says less than 9: the count of bytes to copy is negative.
  pub small-size_crashes :
      (fuel x b : ℕ) (xs bs : List ℕ) (r : River)
      → r.accum ≡ x ∷ xs
      → r.ipt ≡ length (x ∷ xs)
      → is_positive r.msg_size ≡ false
      → 1024 ≤ r.nbytes
      → length (x ∷ xs) < 9
      → 9 ≤ length (x ∷ xs) + length (b ∷ bs)
      → native32 ((x ∷ xs) ++ b ∷ bs) 0 < 9
      → data_loop max_ibm (suc fuel) r (b ∷ bs) ≡ crashed []
  unfolding data_loop find_size
  small-size_crashes fuel x b xs bs r e i unset room few enough small =
      let p = x ∷ xs in
      let c = b ∷ bs in
      let need : ℕ = 9 - r.ipt in
      let a = take need c in
      let n = native32 (p ++ c) 0 in
      let len_a : length a ≡ need = length-take need c (omega (arith, i)) in
      let split : p ++ c ≡ (p ++ a) ++ drop need c =
        ap (◌++◌ p) (sym (take-append-drop need c)) ∙ sym (append_assoc p a (drop need c)) in
      let len9 : length (p ++ a) ≡ 9 = omega (arith, length-append p a, len_a, i) in
      let same : n ≡ native32 (p ++ a) 0 =
        rw split (native32-append (p ++ a) (drop need c) (omega (arith, len9))) in
      let r₂ : River = record r { accum = p ++ a; ipt = length p + length a } in
      let r₃ : River = record r₂ { msg_size = pos n } in
      let short : ltb (length c) need ≡ false = ground (arith, i) in
      let some_yet : ltb 0 r.ipt ≡ true = lt→ltb 0 r.ipt (omega (arith, i)) in
      let grabbed = grab-lem p a r e i (omega (arith, len_a)) in
      let found : find_size r c ≡ goes_on r₃ (drop need c) =
        rw (find_size, unset, short, some_yet, grabbed, extract_mlen-native (p ++ a), ← same)
          (sized_small n r₂ (drop need c) small room) in
      rw (found, data_loop, fill_small n r₃ (drop need c) refl (omega (arith, len_a, i)) small)
