-- ===== src/Doxy/Convert/Identity.antt =====
-- Objects and the references they are registered under.
use mathlib.Core.Path.{subst}
use gr_digitizers.Prelude.{ℕ, ◌≡◌, refl, Option, some, none, arith}
use gr_digitizers.Prelude.Str.{Str}
use gr_digitizers.Prelude.Dict.{lookup, lookup-insert_self}
use gr_digitizers.Prelude.Result.{ok}
use gr_digitizers.Prelude.Exec.{Exec}
use gr_digitizers.Doxy.Data.{ParseData}
use gr_digitizers.Doxy.Heap.{Cls, World, alloc}
use gr_digitizers.Doxy.Convert.{registered, set_ref, from_refid, from_parse_data}

registered-known :
    (c : Cls) (pd : Option ParseData) (k : Str) (w : World) (n : ℕ)
    → lookup k w.refs ≡ some n
    → registered c pd k w ≡ (ok n, w)
unfolding registered
registered-known c pd k w n h = rw (h, registered)

registered-lookup :
    (found : Option ℕ) (c : Cls) (pd : Option ParseData) (k : Str) (w : World) (n : ℕ)
    → lookup k w.refs ≡ found
    → (registered c pd k w).0 ≡ ok n
    → lookup k (registered c pd k w).1.refs ≡ some n
unfolding registered set_ref alloc
registered-lookup (some m) c pd k w n h e = ground arith
registered-lookup none c pd k w n h e =
    let e' : w.next ≡ n = ground arith in
    rw (h, registered) (rw (← e') (lookup-insert_self k w.next w.refs))

-- A request for an object: by its reference alone, or with parse data.
abbrev pub request : Cls → Str → Option ParseData → Exec World ℕ
request c k none = from_refid c k
request c k (some pd) = from_parse_data c pd

-- The parse data have the reference.
abbrev pub Carries : Str → Option ParseData → Type 0
Carries k none = Unit
Carries k (some pd) = pd.refid ≡ some k

request-registered :
    (c : Cls) (k : Str) (q : Option ParseData) (w : World)
    → Carries k q
    → request c k q w ≡ registered c q k w
unfolding from_parse_data from_refid
request-registered c k none w h = refl
request-registered c k (some pd) w h = rw h

-- After a request for a reference that returned, whether by the reference alone or with parse data
-- that have it, every request of either kind gives the same object and changes nothing.
pub from_parse_data-from_refid :
    (c c' : Cls) (k : Str) (q q' : Option ParseData) (w : World) (n : ℕ)
    → Carries k q
    → Carries k q'
    → (request c k q w).0 ≡ ok n
    → request c' k q' (request c k q w).1 ≡ (ok n, (request c k q w).1)
from_parse_data-from_refid c c' k q q' w n p p' e =
    let same = request-registered c k q w p in
    let known =
      registered-lookup (lookup k w.refs) c q k w n refl (subst (λ r. r.0 ≡ ok n) same e) in
    rw (request-registered c' k q' (request c k q w).1 p', same)
      (registered-known c' q' k (registered c q k w).1 n known)
