-- ===== src/Doxy/Fields.antt =====
-- What the `_parse` methods of doxyindex.py and base.py write into an object: descriptions, parameters,
-- members, inner classes and groups.
use gr_digitizers.Prelude.{
  ℕ, Bool, true, false, Option, none, some, List, [], ◌∷◌, ◌++◌, map, if◌then◌else◌,
}
use gr_digitizers.Prelude.Str.{Str, member}
use gr_digitizers.Prelude.Result.{
  Error, Result, ok, err, attribute_error, index_error, parsing_error, io_error, expat_error,
}
use gr_digitizers.Prelude.Result
use gr_digitizers.Prelude.Exec.{Exec, pure, raise, lift, ◌>>=◌, ◌>>◌}
use gr_digitizers.Doxy.Data.{Node, ParseData, ParamData, ParameterItem, Detail, CompoundDef}
use gr_digitizers.Doxy.Describe.{description}
use gr_digitizers.Doxy.Heap.{Cls, Obj, Param, item, param, Retrieved, document, World, Ref, update}
use gr_digitizers.Doxy.Convert.{convert_mem, from_refid}

abbrev pub detail_text : Option Detail → Option Node
detail_text none = none
detail_text (some d) = some d.text

abbrev pub put_descriptions : Option Str → Option Str → Obj → Obj
put_descriptions bd dd o = record o {
  fields = record (o.fields) { brief_description = some bd; detailed_description = some dd };
}

unfoldable pub set_descriptions : Ref → Option Node → Option Detail → Exec World (Unit {0})
unfolding update description
set_descriptions r brief detail = do
  bd ← lift (description brief)
  dd ← lift (description (detail_text detail))
  update r (put_descriptions bd dd)

abbrev first_name : List (Option Str) → Result (Option Str)
first_name [] = err index_error
first_name (n ∷ _) = ok n

unfoldable pub descriptions : List (Option Node) → Result (List (Option Str))
unfolding description
descriptions [] = ok []
descriptions (n ∷ ns) =
    Result.◌>>=◌ (description n) λ s. Result.◌>>=◌ (descriptions ns) λ ss. ok (s ∷ ss)

unfoldable pub flat : List (List (Option Node)) → List (Option Node)
flat [] = []
flat (xs ∷ xss) = xs ++ flat xss

-- `DoxyParameterItem._parse`: the first of all its names, and its description.
unfoldable pub parse_item : ParameterItem → Result Param
unfolding descriptions flat
parse_item pi = Result.◌>>=◌ (descriptions (flat pi.names)) λ names.
    Result.◌>>=◌ (first_name names)
      λ name. Result.◌>>=◌ (description pi.description) λ pd. ok (item name pd)

unfoldable pub parse_items : List ParameterItem → Result (List Param)
unfolding parse_item
parse_items [] = ok []
parse_items (pi ∷ pis) =
    Result.◌>>=◌ (parse_item pi) λ p. Result.◌>>=◌ (parse_items pis) λ ps. ok (p ∷ ps)

unfoldable pub concat_items : List (List ParameterItem) → List ParameterItem
concat_items [] = []
concat_items (pl ∷ pls) = pl ++ concat_items pls

-- The items of the parameter lists of those parts whose value has one.
unfoldable pub all_items : List (Option (List (List ParameterItem))) → List ParameterItem
unfolding concat_items
all_items [] = []
all_items (none ∷ parts) = all_items parts
all_items (some pls ∷ parts) = concat_items pls ++ all_items parts

abbrev pub params_of : Option Detail → Result (List Param)
params_of none = err attribute_error
params_of (some d) = parse_items (all_items d.parts)

abbrev pub put_params : List Param → Obj → Obj
put_params ps o = record o { fields = record (o.fields) { params = some ps } }

unfoldable pub set_parameters : Ref → Option Detail → Exec World (Unit {0})
unfolding update all_items parse_items
set_parameters r detail = do ps ← lift (params_of detail); update r (put_params ps)

abbrev pub append_unless : Bool → Ref → Option ℕ → Exec World (Unit {0})
append_unless true r converted = pure tt
append_unless false r converted =
    update r (λ o. record o { members = o.members ++ (converted ∷ []) })

-- The names that `process_memberdefs` has seen. A `memberdef` is of one class, so the pair
-- `(mem.name, mem.__class__)` is told apart by the name alone.
unfoldable pub process_mems : Ref → List ParseData → List Str → Exec World (Unit {0})
unfolding convert_mem update member
process_mems r [] seen = pure tt
process_mems r (mem ∷ mems) seen = do
  converted ← convert_mem mem
  append_unless (member mem.name seen) r converted
  process_mems r mems (if member mem.name seen then seen else mem.name ∷ seen)

unfoldable pub concat_sections : List (List ParseData) → List ParseData
concat_sections [] = []
concat_sections (sec ∷ secs) = sec ++ concat_sections secs

unfoldable pub process_memberdefs : Ref → Option CompoundDef → Exec World (Unit {0})
unfolding process_mems concat_sections
process_memberdefs r none = raise attribute_error
process_memberdefs r (some cdef) = process_mems r (concat_sections cdef.sections) []

-- `self._retrieved_data.compounddef`
abbrev pub compounddef : Retrieved → Result (Option CompoundDef)
compounddef (document cdef) = ok cdef
compounddef _ = err attribute_error

-- An attribute of the `compounddef`, an `AttributeError` for `None`; `set_descriptions` takes `None` for a
-- description that is not there.
abbrev pub present : Option CompoundDef → Result CompoundDef
present none = err attribute_error
present (some cdef) = ok cdef

abbrev pub brief_of : Option CompoundDef → Option Node
brief_of none = none
brief_of (some cdef) = cdef.brief

abbrev pub detail_of : Option CompoundDef → Option Detail
detail_of none = none
detail_of (some cdef) = cdef.detail

unfoldable pub add_inner : Ref → Cls → List Str → Exec World (Unit {0})
unfolding from_refid update
add_inner r c [] = pure tt
add_inner r c (refid ∷ refids) = do
  n ← from_refid c refid
  update r (λ o. record o { members = o.members ++ (some n ∷ []) })
  add_inner r c refids

abbrev pub put_title : Option Str → Obj → Obj
put_title t o = record o { fields = record (o.fields) { title = some t } }

unfoldable pub mark_parsed : Ref → Exec World (Unit {0})
unfolding update
mark_parsed r = update r (λ o. record o { parsed = true })

abbrev pub keep_or_names : Option (List Param) → List ParamData → Option (List Param)
keep_or_names (some (p ∷ ps)) prms = some (p ∷ ps)
keep_or_names _ prms = some (map param prms)

abbrev pub complete_params : List ParamData → Obj → Obj
complete_params prms o = record o {
  fields = record (o.fields) { params = keep_or_names o.fields.params prms };
}
