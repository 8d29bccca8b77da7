-- ===== src/Doxy/Convert.antt =====
-- `from_refid`, `from_parse_data`, `add_ref`, `get_cls` and `convert_mem` of base.py, with the
-- `can_parse` of the classes in doxyindex.py.
pub mod Classes
pub mod Identity
use gr_digitizers.Prelude.{ℕ, Bool, true, false, Option, none, some, List, [], ◌∷◌, if◌then◌else◌}
use gr_digitizers.Prelude.Str.{Str, codes, str_eq, member}
use gr_digitizers.Prelude.Dict.{Dict, lookup, insert}
use gr_digitizers.Prelude.Result.{Result, ok, err, standard_error}
use gr_digitizers.Prelude.Exec.{Exec, pure, ◌>>=◌, ◌>>◌}
use gr_digitizers.Doxy.Data.{ParseData}
use gr_digitizers.Doxy.Heap.{
  Cls, function, class, file, namespace, group, friend, other, Obj, new_obj, World, alloc,
}

-- `DoxyOther.kinds`
abbrev pub other_kinds : List Str
other_kinds =
    codes "variable"
    ∷ codes "struct"
    ∷ codes "union"
    ∷ codes "define"
    ∷ codes "typedef"
    ∷ codes "enum"
    ∷ codes "dir"
    ∷ codes "page"
    ∷ codes "signal"
    ∷ codes "slot"
    ∷ codes "property"
    ∷ []

unfoldable pub can_parse : Cls → Str → Bool
unfolding str_eq member
can_parse function kind = str_eq kind (codes "function")
can_parse class kind = str_eq kind (codes "class")
can_parse file kind = str_eq kind (codes "file")
can_parse namespace kind = str_eq kind (codes "namespace")
can_parse group kind = str_eq kind (codes "group")
can_parse friend kind = str_eq kind (codes "friend")
can_parse other kind = member kind other_kinds

-- `Base.mem_classes`, in the order of the `append` calls.
abbrev pub mem_classes : List Cls
mem_classes = function ∷ class ∷ file ∷ namespace ∷ group ∷ friend ∷ other ∷ []

unfoldable pub first_class : List Cls → Str → Result Cls
unfolding can_parse
first_class [] kind = err standard_error
first_class (c ∷ cs) kind = if can_parse c kind then ok c else first_class cs kind

unfoldable pub get_cls : ParseData → Result Cls
unfolding first_class
get_cls mem = first_class mem_classes mem.kind

-- `self.top._refs[refid] = obj`
unfoldable pub set_ref : Str → ℕ → World → World
unfolding insert
set_ref refid n w = record w { refs = insert refid n w.refs }

-- The registered object, or a new one that is registered.
unfoldable pub registered : Cls → Option ParseData → Str → Exec World ℕ
unfolding alloc set_ref new_obj lookup
registered c pd refid w = elim (lookup refid w.refs) [
  | some n ↦ (ok n, w)
  | none ↦ (ok w.next, set_ref refid w.next (alloc (new_obj c pd (some refid)) w).1)
]

unfoldable pub from_refid : Cls → Str → Exec World ℕ
unfolding registered
from_refid c refid = registered c none refid

abbrev pub from_data : Cls → ParseData → Option Str → Exec World ℕ
from_data c pd (some refid) = registered c (some pd) refid
from_data c pd none = alloc (new_obj c (some pd) none)

unfoldable pub from_parse_data : Cls → ParseData → Exec World ℕ
unfolding registered alloc new_obj
from_parse_data c pd = from_data c pd pd.refid

abbrev pub add : Option Str → ℕ → World → World
add (some refid) n w = set_ref refid n w
add none n w = w

-- `add_ref`: an object without a `refid` is not registered.
unfoldable pub add_ref : ℕ → Exec World (Unit {0})
unfolding set_ref
add_ref n w = (ok tt, add (w.objs n).refid n w)

abbrev pub converted : Result Cls → ParseData → Exec World (Option ℕ)
converted (err e) mem = pure none
converted (ok c) mem = do n ← from_parse_data c mem; add_ref n; pure (some n)

-- The `StandardError` of `get_cls` is caught and printed, and the result is `None`.
unfoldable pub convert_mem : ParseData → Exec World (Option ℕ)
unfolding get_cls from_parse_data add_ref
convert_mem mem = converted (get_cls mem) mem
