-- ===== src/River/Fill.antt =====
-- mt_call_si_static.c: the second part of a round, once the size of the message is known.
use ric_plt_lib_rmr.Base.{
  ℕ, ◌+◌, ◌-◌, ◌≤◌, ◌<◌, ◌≡◌, refl, sym, ap, ◌∙◌, inl, inr, false, List, [], ◌++◌, arith, ltb,
  lt→ltb, length, take, drop, take-length, drop-length, length-append, append-split,
}
use ric_plt_lib_rmr.Base.Int.{pos, negsuc, magnitude}
use ric_plt_lib_rmr.River.{River, good, native32, Raw, waits, complete, completes, fill}
use ric_plt_lib_rmr.River.Step.{Holding, Sized, grab-lem}

-- The river between two messages.
abbrev pub between : ℕ → River
between max_ibm = record {
  state = good;
  accum = [];
  nbytes = max_ibm + 1024;
  ipt = 0;
  msg_size = negsuc 0;
}

pub between-Holding : (max_ibm : ℕ) → Holding [] (between max_ibm)
between-Holding max_ibm = record {
  bytes = refl;
  ipt = refl;
  state = refl;
  room = omega arith;
  phase = inl (omega arith, refl);
}

module _ (max_ibm n : ℕ) (p rest : List ℕ) (r : River) (s : Sized n p r) where
  size_is : magnitude r.msg_size ≡ n
  size_is = rw s.size

  -- Too few bytes for the message: they are kept.
  pub fill-waits :
      length p + length rest < n
      → native32 (p ++ rest) 0 ≡ n
      → 9 ≤ length p + length rest
      → (r' : River) × (fill max_ibm r rest ≡ waits r') × Holding (p ++ rest) r'
  unfolding fill
  fill-waits few is_n enough =
      let g = grab-lem p rest r s.bytes s.ipt (omega (arith, s.holds)) in
      (
        record r { accum = p ++ rest; ipt = length p + length rest },
        rw (size_is, lt→ltb (r.ipt + length rest) n (omega (arith, s.ipt)), g),
        record {
          bytes = refl;
          ipt = sym (length-append p rest);
          state = s.state;
          room = s.room;
          phase = inr (
            omega (arith, length-append p rest),
            omega (arith, length-append p rest),
            (omega (arith, s.fits), omega (arith, s.fits)),
            s.size ∙ ap pos (sym is_n),
            omega (arith, s.holds),
          );
        },
      )

  -- The whole message is there: it is passed on, and the bytes behind it are left.
  pub fill-complete :
      (m more : List ℕ)
      → p ++ rest ≡ m ++ more
      → length m ≡ n
      → (raw : Raw) × (fill max_ibm r rest ≡ complete raw (between max_ibm) more)
        × (raw.bytes ≡ m)
        × (length m ≤ raw.nbytes)
  unfolding fill completes
  fill-complete m more e is_n =
      let (q, front, back) = append-split p rest m more e (omega (arith, s.short)) in
      let len_q : length q ≡ n - r.ipt = omega (arith, ap length front, length-append p q, s.ipt) in
      let len_rest : length rest ≡ length q + length more = ap length back ∙ length-append q more in
      let taken : take (n - r.ipt) rest ≡ q = rw (back, ← len_q) (take-length q more) in
      let left : drop (n - r.ipt) rest ≡ more = rw (back, ← len_q) (drop-length q more) in
      let all_there : ltb (r.ipt + length rest) n ≡ false =
        ground (arith, len_rest, len_q, s.short, s.ipt) in
      let not_over : ltb n r.ipt ≡ false = ground (arith, s.short, s.ipt) in
      let g = grab-lem p q r s.bytes s.ipt (omega (arith, s.holds, len_q, s.short, s.ipt)) in
      (
        record { bytes = p ++ q; nbytes = r.nbytes },
        rw (size_is, all_there, not_over, taken, left, g, s.state),
        sym front,
        omega (arith, s.holds),
      )
