-- ===== src/Caller/Replies.antt =====
-- rmr_si.c: which message `mt_call` returns.
use ric_plt_lib_rmr.Base.{ℕ, ◌≡◌, Bool, Option, some, List, [], ◌∷◌, arith}
use ric_plt_lib_rmr.Receive.{Ctx}
use ric_plt_lib_rmr.Gate.{Gate}
use ric_plt_lib_rmr.Mbuf.{rmr_get_xact}
use ric_plt_lib_rmr.Send.Message.{Msg}
use ric_plt_lib_rmr.Caller.{Answer, mbuf_at, chute_at, Got, taken}
use ric_plt_lib_rmr.Caller.Call.{xaction_at}

-- Where the wait starts with an empty chute, the message that is there in the end has the
-- transaction id that is expected.
pub Expected : ℕ → List ℕ → Option (Bool × Ctx) → Type 0
Expected id expect r =
    (ok : Bool) (ctx : Ctx) (p : ℕ)
    → r ≡ some (ok, ctx)
    → (chute_at ctx id).mbuf ≡ some p
    → expect ≡ xaction_at ctx p

-- Nothing of this chute changes between the end of a wait's work and the next test of the loop.
unfoldable pub IsQuiet : ℕ → Answer → Type 0
IsQuiet id a =
    (c : Ctx)
    → ((chute_at (a.afterwards c) id).mbuf ≡ (chute_at c id).mbuf)
      × ((p : ℕ) → mbuf_at (a.afterwards c) p ≡ mbuf_at c p)

unfoldable pub AllQuiet : ℕ → List Answer → Type 0
AllQuiet id [] = Unit {0}
AllQuiet id (a ∷ as') = IsQuiet id a × AllQuiet id as'

-- the end of a wait whose message, if there is one, is the right one
end-Expected :
    (id : ℕ) (expect : List ℕ) (ctx : Ctx) (ok : Bool)
    → ((p : ℕ) → (chute_at ctx id).mbuf ≡ some p → expect ≡ xaction_at ctx p)
    → Expected id expect (some (ok, ctx))
unfolding Expected
end-Expected id expect ctx ok h ok' c p r m = ground (arith, h p, r, m)

-- A result whose message, if one was received, has the transaction id that is expected.
abbrev Right : List ℕ → Option (Got × Ctx) → Type 0
Right expect r =
    (p : ℕ) (m : Msg) (c : Ctx) → r ≡ some (taken p m, c) → expect ≡ rmr_get_xact m.tp_buf
