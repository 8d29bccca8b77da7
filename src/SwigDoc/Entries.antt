-- ===== src/SwigDoc/Entries.antt =====
-- The functions of docs/doxygen/swig_doc.py that make entries of documented objects.
use gr_digitizers.Prelude.{ℕ, Bool, true, false, Option, none, some, List, [], ◌∷◌, ◌++◌}
use gr_digitizers.Prelude.Str.{Str, codes, join, member, contains}
use gr_digitizers.Prelude.Result.{
  Error, Result, ok, err, key_error, attribute_error, no_such_member, parsing_error,
}
use gr_digitizers.Prelude.Result
use gr_digitizers.Prelude.Exec.{Exec, pure, lift, ◌>>=◌, ◌>>◌}
use gr_digitizers.Doxy.Data.{ParseData, ParamData, CompoundDef, Xml}
use gr_digitizers.Doxy.Describe.{description}
use gr_digitizers.Doxy.Heap.{
  function, file, ObjData, Param, item, param, World, Ref, index, obj, read,
}
use gr_digitizers.Doxy.Parse.{confirm_no_error, name}
use gr_digitizers.Doxy.Lookup.{in_category, get_member}
use gr_digitizers.SwigDoc.Texts.{make_name, utoascii, combine, param_line, entry_for}

-- `d[key]` of `_data`.
abbrev field {ℓ} : {A : Type ℓ} → Option A → Result A
field none = err key_error
field (some v) = ok v

-- A method of a string, called on `None`.
abbrev stripped : Option Str → Result Str
stripped none = err attribute_error
stripped (some s) = ok s

abbrev text_or_empty : Option Str → Str
text_or_empty none = []
text_or_empty (some s) = s

-- `DoxyParam.description`: a `param` has no detailed description.
unfoldable pub param_description : ParamData → Result (Option Str)
unfolding description join
param_description p = Result.◌>>=◌ (description p.brief) λ bd. ok (some (text_or_empty bd))

-- The line of a parameter. A `DoxyParam` is parsed when its name is asked for.
unfoldable pub line_of : Param → Result Str
unfolding param_line param_description
line_of (item n d) = param_line n d
line_of (param p) = Result.◌>>=◌ (param_description p) λ d. param_line (some p.declname) d

unfoldable pub param_lines : List Param → Result (List Str)
unfolding line_of
param_lines [] = ok []
param_lines (p ∷ ps) = Result.◌>>=◌ (line_of p) λ l. Result.◌>>=◌ (param_lines ps) λ ls. ok (l ∷ ls)

unfoldable pub format_params : List Param → Result Str
unfolding param_lines join
format_params ps = Result.◌>>=◌ (param_lines ps) λ ls. ok (join (codes "\n") (codes "Args:" ∷ ls))

-- The description with the parameters behind it, if there are any.
unfoldable pub with_params : Str → List Param → Result Str
unfolding format_params utoascii
with_params text [] = ok text
with_params text (p ∷ ps) =
    Result.◌>>=◌ (format_params (p ∷ ps))
      λ args. ok (text ++ (codes "\n\n" ++ utoascii (some args)))

-- An object, an `AttributeError` for `None`.
abbrev pub object_of : Option ℕ → Result Ref
object_of none = err attribute_error
object_of (some n) = ok (obj n)

abbrev unless_empty : Str → List Str
unless_empty [] = []
unless_empty (c ∷ s) = (c ∷ s) ∷ []

-- `except NoSuchMember: pass`
abbrev or_none : Result (List Str) × World → Result (List Str) × World
or_none (err no_such_member, w) = (ok [], w)
or_none r = r

module _ (compound_xml : Str → Xml (Option CompoundDef)) (index_xml : Xml (List ParseData)) where
  -- `data ()`
  unfoldable pub data_of : Ref → Exec World ObjData
  unfolding confirm_no_error read
  data_of r = do confirm_no_error compound_xml index_xml r; o ← read r; pure o.fields

  unfoldable pub combine_descriptions : Ref → Exec World Str
  unfolding data_of combine
  combine_descriptions r = do
    b ← data_of r
    bd ← lift (field b.brief_description)
    brief ← lift (stripped bd)
    d ← data_of r
    dd ← lift (field d.detailed_description)
    detail ← lift (stripped dd)
    pure (combine brief detail)

  unfoldable pub params_of : Ref → Exec World (List Param)
  unfolding data_of
  params_of r = do d ← data_of r; lift (field d.params)

  abbrev default_name : Ref → Option Str → Exec World Str
  default_name r none = name compound_xml index_xml r
  default_name r (some n) = pure n

  abbrev default_description : Ref → Option Str → Exec World Str
  default_description r none = combine_descriptions r
  default_description r (some d) = pure d

  abbrev entry_unless : Bool → Exec World Str → Exec World Str
  entry_unless true m = pure []
  entry_unless false m = m

  -- `make_entry`; `make_func_entry` is the same call.
  unfoldable pub make_entry : Ref → Option Str → Option Str → List Param → Exec World Str
  unfolding name combine_descriptions with_params entry_for
  make_entry r n d ps = do
    name' ← default_name r n
    entry_unless (contains (codes "operator ") name') (do
      text ← default_description r d
      docstring ← lift (with_params text ps)
      lift (entry_for name' docstring))

  unfoldable pub make_func_entry : Ref → Option Str → Option Str → List Param → Exec World Str
  unfolding make_entry
  make_func_entry r n d ps = make_entry r n d ps

  abbrev method_entry : Bool → Ref → Ref → Str → Exec World (List Str)
  method_entry true klass func func_name = pure []
  method_entry false klass func func_name = do
    class_name ← name compound_xml index_xml klass
    e ← make_func_entry func (some (class_name ++ (codes "::" ++ func_name))) none []
    pure (e ∷ [])

  unfoldable pub method_entries : Ref → List Str → List (Option ℕ) → Exec World (List Str)
  unfolding name make_func_entry member
  method_entries klass ignored [] = pure []
  method_entries klass ignored (m ∷ ms) = do
    func ← lift (object_of m)
    func_name ← name compound_xml index_xml func
    e ← method_entry (member func_name ignored) klass func func_name
    rest ← method_entries klass ignored ms
    pure (e ++ rest)

  abbrev default_params : Ref → Option (List Param) → Exec World (List Param)
  default_params r none = params_of r
  default_params r (some ps) = pure ps

  unfoldable pub make_class_entry :
      Ref → Option Str → List Str → Option (List Param) → Exec World Str
  unfolding params_of make_entry in_category method_entries
  make_class_entry klass d ignored ps = do
    ps' ← default_params klass ps
    first ← make_entry klass none d ps'
    funcs ← in_category compound_xml index_xml klass function
    rest ← method_entries klass ignored funcs
    pure (join (codes "\n\n") (first ∷ rest))

  unfoldable pub file_description : Str → Exec World (List Str)
  unfolding get_member combine_descriptions
  file_description block_name w = or_none (
      (do
        found ← get_member compound_xml index_xml index (block_name ++ codes ".h") (some file)
        block_file ← lift (object_of found)
        text ← combine_descriptions block_file
        pure (unless_empty text))
        w)

  unfoldable pub make_block_entry : Ref → Exec World Str
  unfolding combine_descriptions get_member make_name file_description make_class_entry
      make_func_entry params_of
  make_block_entry block = do
    class_desc ← combine_descriptions block
    block_name ← name compound_xml index_xml block
    found ← get_member compound_xml index_xml index (make_name block_name) (some function)
    make_func ← lift (object_of found)
    make_func_desc ← combine_descriptions make_func
    block_name' ← name compound_xml index_xml block
    file_desc ← file_description block_name'
    let super =
        join (codes "\n\n") (unless_empty class_desc ++ (unless_empty make_func_desc ++ file_desc))
    first ← make_class_entry block (some super) [] none
    ps ← params_of block
    second ← make_func_entry make_func none (some super) ps
    pure (join (codes "\n\n") (first ∷ second ∷ []))

  unfoldable pub make_block2_entry : Ref → Exec World Str
  unfolding combine_descriptions get_member make_class_entry make_func_entry params_of
  make_block2_entry block = do
    class_description ← combine_descriptions block
    found ← get_member compound_xml index_xml block (codes "make") (some function)
    make_func ← lift (object_of found)
    make_description ← combine_descriptions make_func
    let text =
        class_description
        ++ (codes "\n\nConstructor Specific Documentation:\n\n" ++ make_description)
    ps ← params_of make_func
    first ← make_class_entry block (some text) (codes "make" ∷ []) (some ps)
    block_name ← name compound_xml index_xml block
    ps' ← params_of make_func
    second ← make_func_entry make_func (some (block_name ++ codes "::make")) (some text) ps'
    pure (join (codes "\n\n") (first ∷ second ∷ []))
