-- ===== src/Records/Outcome.antt =====
-- rt_generic_static.c: predicates on what parsing a record comes to, and what the changes of a table
-- leave of it.
use ric_plt_lib_rmr.Base.{
  ℕ, ◌≡◌, refl, ap, ◌∙◌, ◌⊎◌, inl, inr, Bool, true, false, Option, none, some, List, [], ◌∷◌,
  if◌then◌else◌, arith,
}
use mathlib.Core.Path.{subst}
use ric_plt_lib_rmr.Base.Int.{ℤ, pos, negsuc}
use ric_plt_lib_rmr.Symtab.{rmr_sym_del, text}
use ric_plt_lib_rmr.Route.{RouteTable, Store, rt_ensure_ep, rt_me_space, uta_add_rte, build_rt_key}
use ric_plt_lib_rmr.Records.Text.{clip, atoi}
use ric_plt_lib_rmr.Tools.{uta_tokenise}
use ric_plt_lib_rmr.Records.Entry.{
  Self, new_entry, build_entry, trash_entry, own_meids, owned, parse_meid_ar, del_meids,
  parse_meid_del,
}
use ric_plt_lib_rmr.Route.Clone.{frame}
use ric_plt_lib_rmr.Gate.{drop_new}
use ric_plt_lib_rmr.Records.Tables.{
  Rtc, Shared, reject, drop_pending, not_complete, new_of, Parsed, crashes, waits, parsed, Ack,
  Reason, Pctx, ack_to, ack_by, send_rt_ack,
}

abbrev result_or : Rtc → Parsed → Rtc
result_or d crashes = d
result_or d waits = d
result_or d (parsed m) = m

parsed-injective : (m m' : Rtc) → parsed m ≡ parsed m' → m ≡ m'
parsed-injective m m' e = ap (result_or m) e

-- If the parser returns, the context that it leaves has the property.
unfoldable pub Returns : (Rtc → Type 0) → Parsed → Type 0
Returns P crashes = Unit
Returns P waits = Unit
Returns P (parsed m) = P m

pub Returns_lem : (P : Rtc → Type 0) (r : Parsed) (m : Rtc) → Returns P r → r ≡ parsed m → P m
unfolding Returns
Returns_lem P crashes m h e = cc
Returns_lem P waits m h e = cc
Returns_lem P (parsed m0) m h e = subst P (parsed-injective m0 m e) h

pub if-Returns :
    (P : Rtc → Type 0) (b : Bool) (x y : Parsed)
    → (b ≡ true → Returns P x)
    → (b ≡ false → Returns P y)
    → Returns P (if b then x else y)
if-Returns P true x y h k = h refl
if-Returns P false x y h k = k refl

abbrev pub without_new : Shared → Shared
without_new s = record s { gate = drop_new s.gate }

-- what is left of a table in progress before a start
abbrev pub IsPending : Rtc → Rtc → Type 0
IsPending m m1 = ((m1.shared ≡ m.shared) × (new_of m ≡ none)) ⊎ (m1.shared ≡ without_new m.shared)

module _ (sent : Ack → Bool) where
  ack_to-shared :
      (m : Rtc) (c : Pctx) (whid : ℤ) (no_ack : Bool) (a : Ack)
      → (ack_to sent m c whid no_ack a).shared ≡ m.shared
  unfolding ack_to
  ack_to-shared m c (negsuc n) no_ack a = refl
  ack_to-shared m c (pos n) true a = refl
  ack_to-shared m c (pos n) false a = refl

  ack_by-shared : (m : Rtc) (c : Option Pctx) (a : Ack) → (ack_by sent m c a).shared ≡ m.shared
  unfolding ack_by
  ack_by-shared m none a = refl
  ack_by-shared m (some c) a = ack_to-shared m c c.rtg_whid c.no_rtack a

  pub send_rt_ack-shared :
      (m : Rtc) (ok : Bool) (why : Reason) → (send_rt_ack sent m ok why).shared ≡ m.shared
  unfolding send_rt_ack
  send_rt_ack-shared m ok why =
      ack_by-shared m m.pctx (record { table_id = m.table_id; ok = ok; reason = why })

  pub reject-shared : (m : Rtc) (why : Reason) → (reject sent m why).shared ≡ without_new m.shared
  unfolding reject
  reject-shared m why = ap without_new (send_rt_ack-shared m false why)

  IsPending-new_of :
      (m : Rtc) (o : Option ℕ)
      → new_of m ≡ o
      → IsPending m (elim o [ none ↦ m | some _ ↦ reject sent m not_complete ])
  IsPending-new_of m none e = inl (refl, e)
  IsPending-new_of m (some p) e = inr (reject-shared m not_complete)

  pub drop_pending-IsPending : (m : Rtc) → IsPending m (drop_pending sent m)
  unfolding drop_pending
  drop_pending-IsPending m = IsPending-new_of m (new_of m) refl

new_entry-frame :
    (me : Self) (s : Store) (rt : RouteTable) (key : ℕ) (mtype : ℤ) (gs : List (List ℕ))
    → frame (new_entry me s rt key mtype gs).1 ≡ frame rt
unfolding new_entry uta_add_rte
new_entry-frame me s rt key mtype [] = refl
new_entry-frame me s rt key mtype (g ∷ gs) = refl

pub build_entry-frame :
    (me : Self) (s : Store) (rt : RouteTable) (ts : List ℕ) (subid : ℤ) (rr : List ℕ)
    → frame (build_entry me s rt ts subid rr).1 ≡ frame rt
unfolding build_entry
build_entry-frame me s rt ts subid rr = ground (
  arith,
  new_entry-frame me s rt (build_rt_key subid (atoi (clip ts))) (atoi (clip ts))
      (uta_tokenise (clip rr) 64 b';'),
)

pub trash_entry-frame :
    (me : Self) (s : Store) (rt : RouteTable) (ts : List ℕ) (subid : ℤ)
    → frame (trash_entry me s rt ts subid).1 ≡ frame rt
unfolding trash_entry
trash_entry-frame me s rt ts subid = ground arith

owned-frame : (rt : RouteTable) (t : List ℕ) (ep : Option ℕ) → frame (owned rt t ep) ≡ frame rt
owned-frame rt t none = refl
owned-frame rt t (some p) = refl

own_meids-frame :
    (s : Store) (rt : RouteTable) (owner : List ℕ) (ts : List (List ℕ))
    → frame (own_meids s rt owner ts).1 ≡ frame rt
unfolding own_meids
own_meids-frame s rt owner [] = refl
own_meids-frame s rt owner (t ∷ ts) =
    let (ep, s') = rt_ensure_ep s owner in
    own_meids-frame s' (owned rt t ep) owner ts ∙ owned-frame rt t ep

pub parse_meid_ar-frame :
    (s : Store) (rt : RouteTable) (owner meids : List ℕ)
    → frame (parse_meid_ar s rt owner meids).1 ≡ frame rt
unfolding parse_meid_ar
parse_meid_ar-frame s rt owner meids =
    own_meids-frame s rt (clip owner) (uta_tokenise (clip meids) 128 b' ')

del_meids-frame : (rt : RouteTable) (ts : List (List ℕ)) → frame (del_meids rt ts) ≡ frame rt
unfolding del_meids
del_meids-frame rt [] = refl
del_meids-frame rt (t ∷ ts) =
    del_meids-frame (record rt { hash = rmr_sym_del rt.hash (text t rt_me_space) }) ts

pub parse_meid_del-frame :
    (rt : RouteTable) (meids : List ℕ) → frame (parse_meid_del rt meids) ≡ frame rt
unfolding parse_meid_del
parse_meid_del-frame rt meids = del_meids-frame rt (uta_tokenise (clip meids) 128 b' ')
