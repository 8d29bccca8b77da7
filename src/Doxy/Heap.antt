-- ===== src/Doxy/Heap.antt =====
-- The objects of doxyxml (class `Base` of base.py) on a heap, with the index (`top`) beside it.
use gr_digitizers.Prelude.{
  ℕ, ◌+◌, Bool, true, false, Option, none, List, [], ◌==◌, if◌then◌else◌, ◌≡◌, refl, arith,
}
use gr_digitizers.Prelude.Str.{Str}
use gr_digitizers.Prelude.Dict.{Dict}
use gr_digitizers.Prelude.Result.{ok}
use gr_digitizers.Prelude.Exec.{Exec}
use gr_digitizers.Doxy.Data.{ParseData, ParamData, CompoundDef}

-- The classes of doxyindex.py that `convert_mem` and `from_refid` make objects of.
pub data Cls : Type 0 where
  function class file namespace group friend other : Cls

abbrev pub cls_eq : Cls → Cls → Bool
cls_eq function function = true
cls_eq class class = true
cls_eq file file = true
cls_eq namespace namespace = true
cls_eq group group = true
cls_eq friend friend = true
cls_eq other other = true
cls_eq _ _ = false

-- A category of `in_category`: one of these classes, or one of the two of swig_doc.py.
pub data Category : Type 0 where
  of_class : Cls → Category
  block block2 : Category

abbrev pub category_eq : Category → Category → Bool
category_eq (of_class a) (of_class b) = cls_eq a b
category_eq block block = true
category_eq block2 block2 = true
category_eq _ _ = false

-- An entry of `_dict_members`: a member, or the class `Duplicate`.
pub data Entry : Type 0 where
  unique : Option ℕ → Entry
  repeated : Entry

-- A parameter: a `DoxyParameterItem` with its name and description, or a `DoxyParam`.
pub data Param : Type 0 where
  item : Option Str → Option Str → Param
  param : ParamData → Param

-- `_data`, by its keys.
pub record ObjData : Type 0 where
  pub brief_description : Option (Option Str)
  pub detailed_description : Option (Option Str)
  pub params : Option (List Param)
  pub title : Option (Option Str)

abbrev pub no_data : ObjData
no_data = record {
  brief_description = none;
  detailed_description = none;
  params = none;
  title = none;
}

-- What `_retrieved_data` holds: nothing yet, `None`, or the document, by its `compounddef`, which may be
-- `None`.
pub data Retrieved : Type 0 where
  unset failed : Retrieved
  document : Option CompoundDef → Retrieved

pub record Obj : Type 0 where
  pub cls : Cls
  pub parse_data : Option ParseData
  pub refid : Option Str
  pub parsed : Bool
  pub error : Bool
  pub members : List (Option ℕ)
  pub in_category : List (Category × List (Option ℕ))
  pub dict_members : List (Option Category × Dict Entry)
  pub fields : ObjData
  pub retrieved : Retrieved

-- `Base.__init__`
unfoldable pub new_obj : Cls → Option ParseData → Option Str → Obj
new_obj c pd refid = record {
  cls = c;
  parse_data = pd;
  refid = refid;
  parsed = false;
  error = false;
  members = [];
  in_category = [];
  dict_members = [];
  fields = no_data;
  retrieved = unset;
}

-- The objects by number, the index, and its `_refs`. A number from `next` on is no object yet.
pub record World : Type 0 where
  pub top : Obj
  pub objs : ℕ → Obj
  pub next : ℕ
  pub refs : Dict ℕ

pub data Ref : Type 0 where
  index : Ref
  obj : ℕ → Ref

unfoldable pub fetch : Ref → World → Obj
fetch index w = w.top
fetch (obj n) w = w.objs n

unfoldable pub write : Ref → Obj → World → World
write index o w = record w { top = o }
write (obj n) o w = record w { objs = λ i. if i == n then o else w.objs i }

-- An assignment to a field of an object.
unfoldable pub update : Ref → (Obj → Obj) → Exec World (Unit {0})
update r f w = (ok tt, write r (f (fetch r w)) w)

unfoldable pub alloc : Obj → Exec World ℕ
alloc o w =
    (ok w.next, record w { objs = λ i. if i == w.next then o else w.objs i; next = w.next + 1 })

unfoldable pub read : Ref → Exec World Obj
read r w = (ok (fetch r w), w)

nat_eq_self : (n : ℕ) → (n == n) ≡ true
nat_eq_self n = ground arith

-- An object that was written is read back.
pub fetch-write : (r : Ref) (o : Obj) (w : World) → fetch r (write r o w) ≡ o
unfolding fetch write
fetch-write index o w = refl
fetch-write (obj n) o w = rw nat_eq_self
