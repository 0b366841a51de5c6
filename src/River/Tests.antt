-- ===== src/River/Tests.antt =====
-- mt_call_si_static.c: the theorems at streams of a few bytes.
use ric_plt_lib_rmr.Base.{ℕ, ◌≡◌, refl, inl, List, [], ◌∷◌, arith}
use ric_plt_lib_rmr.Base.Int.{pos, negsuc}
use ric_plt_lib_rmr.River.{River, new, good, Raw, done, spinning, data_loop}
use ric_plt_lib_rmr.River.Fill.{between}
use ric_plt_lib_rmr.River.Frames.{AllFrames, IsPartial}
use ric_plt_lib_rmr.River.Stream.{Carry}
use ric_plt_lib_rmr.River.Chunks.{IsReady, river_run, run-Delivers}
use ric_plt_lib_rmr.River.BadSize.{zero-size_spins}

abbrev pub first_message : List ℕ
first_message = 10 ∷ 0 ∷ 0 ∷ 0 ∷ 0 ∷ 0 ∷ 0 ∷ 10 ∷ b'$' ∷ 1 ∷ []

abbrev pub second_message : List ℕ
second_message = 11 ∷ 0 ∷ 0 ∷ 0 ∷ 0 ∷ 0 ∷ 0 ∷ 11 ∷ b'$' ∷ 2 ∷ 3 ∷ []

-- The first message in two parts, the second whole with the start of a third behind it.
abbrev pub chunks : List (List ℕ)
chunks =
    (10 ∷ 0 ∷ 0 ∷ [])
    ∷ (0 ∷ 0 ∷ 0 ∷ 0 ∷ 10 ∷ b'$' ∷ 1 ∷ 11 ∷ 0 ∷ [])
    ∷ (0 ∷ 0 ∷ 0 ∷ 0 ∷ 0 ∷ 11 ∷ b'$' ∷ 2 ∷ 3 ∷ 12 ∷ [])
    ∷ []

abbrev fresh_river : River
fresh_river = record { state = new; accum = []; nbytes = 0; ipt = 0; msg_size = pos 0 }

pub messages-AllFrames : AllFrames (first_message ∷ second_message ∷ [])
messages-AllFrames = omega arith

pub rest-IsPartial : IsPartial (12 ∷ [])
rest-IsPartial = inl (omega arith)

run-Delivers_example :
    (raws : List Raw) × (r' : River) × (river_run 4096 fresh_river chunks ≡ done raws r')
    × Carry raws (first_message ∷ second_message ∷ [])
    × IsReady (12 ∷ []) r'
run-Delivers_example =
    run-Delivers 4096 chunks (first_message ∷ second_message ∷ []) (12 ∷ []) [] fresh_river refl
      messages-AllFrames rest-IsPartial refl

abbrev header : List ℕ
header = 1 ∷ 2 ∷ 3 ∷ 4 ∷ 5 ∷ 6 ∷ 7 ∷ 8 ∷ 9 ∷ 10 ∷ 11 ∷ 12 ∷ 13 ∷ 14 ∷ []

zero-size_spins_example :
    data_loop 4096 100 (between 4096) (0 ∷ 0 ∷ 0 ∷ 0 ∷ 0 ∷ 0 ∷ 0 ∷ 0 ∷ b'$' ∷ []) ≡ spinning
zero-size_spins_example =
    zero-size_spins 4096 100 0 (0 ∷ 0 ∷ 0 ∷ 0 ∷ 0 ∷ 0 ∷ 0 ∷ b'$' ∷ []) (omega arith) refl

-- three bytes of the size field 5
abbrev three_bytes : River
three_bytes = record {
  state = good;
  accum = 5 ∷ 0 ∷ 0 ∷ [];
  nbytes = 5120;
  ipt = 3;
  msg_size = negsuc 0;
}
