-- ===== src/Doxy/Parse.antt =====
-- The `_parse` methods of doxyindex.py, with `retrieve_data`, `check_parsed`, `confirm_no_error` and the
-- accessors of base.py. The two XML readers are parameters.
pub mod Flags
pub mod Progress
pub mod Once
pub mod Failures
use mathlib.Core.Option
use gr_digitizers.Prelude.{
  ℕ, Bool, true, false, Option, none, some, List, [], ◌∷◌, ◌++◌, map, if◌then◌else◌,
}
use gr_digitizers.Prelude.Str.{Str, codes, str_eq, member, ends_with}
use gr_digitizers.Prelude.Result.{
  Error, Result, ok, err, attribute_error, index_error, parsing_error, io_error, expat_error,
}
use gr_digitizers.Prelude.Result
use gr_digitizers.Prelude.Exec.{Exec, pure, raise, lift, ◌>>=◌, ◌>>◌}
use gr_digitizers.Doxy.Data.{
  Node, ParseData, ParamData, ParameterItem, Detail, CompoundDef, Xml, well_formed, malformed,
  unreadable, invalid,
}
use gr_digitizers.Doxy.Describe.{description}
use gr_digitizers.Doxy.Heap.{
  Cls, function, class, file, namespace, group, friend, other, Obj, ObjData, Param, item, param,
  Retrieved, unset, failed, document, World, Ref, index, obj, update, read,
}
use gr_digitizers.Doxy.Convert.{get_cls, convert_mem, from_refid}
use gr_digitizers.Doxy.Fields.{
  detail_text, put_descriptions, set_descriptions, descriptions, flat, parse_item, parse_items,
  concat_items, all_items, params_of, put_params, set_parameters, append_unless, process_mems,
  concat_sections, process_memberdefs, compounddef, present, brief_of, detail_of, add_inner,
  put_title, mark_parsed, keep_or_names, complete_params,
}

module _ (compound_xml : Str → Xml (Option CompoundDef)) where
  abbrev pub retrieved : Ref → Xml (Option CompoundDef) → Exec World (Unit {0})
  retrieved r (well_formed cdef) = update r (λ o. record o { retrieved = document cdef })
  retrieved r malformed = update r (λ o. record o { error = true; retrieved = failed })
  retrieved r unreadable = raise io_error
  retrieved r (invalid e) = raise e

  abbrev pub retrieve_at : Ref → Option Str → Exec World (Unit {0})
  retrieve_at r none = raise attribute_error
  retrieve_at r (some refid) = retrieved r (compound_xml refid)

  unfoldable pub retrieve_data : Ref → Exec World (Unit {0})
  unfolding read update
  retrieve_data r = do o ← read r; retrieve_at r o.refid

  -- The data of a member, or `AttributeError`: `self._parse_data` is `None`.
  abbrev pub member_data : Option ParseData → Result ParseData
  member_data (some pd) = ok pd
  member_data none = err attribute_error

  -- Each `_parse` marks the object as parsed, then goes on as its class says.
  unfoldable pub function_body : Ref → Exec World (Unit {0})
  unfolding read set_descriptions set_parameters
  function_body r = do
    o ← read r
    pd ← lift (member_data o.parse_data)
    set_descriptions r pd.brief pd.detail
    set_parameters r pd.detail
    update r (complete_params pd.params)

  abbrev pub class_rest : Ref → Obj → Exec World (Unit {0})
  class_rest r o = if o.error then pure tt else do
    cdef ← lift (compounddef o.retrieved)
    set_descriptions r (brief_of cdef) (detail_of cdef)
    set_parameters r (detail_of cdef)
    process_memberdefs r cdef

  unfoldable pub class_body : Ref → Exec World (Unit {0})
  unfolding read retrieve_data set_descriptions set_parameters process_memberdefs
  class_body r = do retrieve_data r; o ← read r; class_rest r o

  -- `DoxyFile` and `DoxyNamespace` look into the document before they test `_error`.
  unfoldable pub file_body : Ref → Exec World (Unit {0})
  unfolding read retrieve_data set_descriptions process_memberdefs
  file_body r = do
    retrieve_data r
    o ← read r
    cdef ← lift (compounddef o.retrieved)
    set_descriptions r (brief_of cdef) (detail_of cdef)
    if o.error then pure tt else process_memberdefs r cdef

  abbrev pub group_rest : Ref → Obj → Exec World (Unit {0})
  group_rest r o = if o.error then pure tt else do
    found ← lift (compounddef o.retrieved)
    cdef ← lift (present found)
    title ← lift (description cdef.title)
    update r (put_title title)
    add_inner r group cdef.innergroup
    add_inner r class cdef.innerclass
    process_memberdefs r found

  unfoldable pub group_body : Ref → Exec World (Unit {0})
  unfolding read retrieve_data process_memberdefs add_inner
  group_body r = do retrieve_data r; o ← read r; group_rest r o

  abbrev pub body_as : Cls → Ref → Exec World (Unit {0})
  body_as function r = function_body r
  body_as class r = class_body r
  body_as file r = file_body r
  body_as namespace r = file_body r
  body_as group r = group_body r
  body_as friend r = pure tt
  body_as other r = pure tt

  -- `_parse` of the object's class.
  unfoldable pub parse_as : Cls → Ref → Exec World (Unit {0})
  unfolding mark_parsed function_body class_body file_body group_body
  parse_as c r = do mark_parsed r; body_as c r

  -- `check_parsed` of an object other than the index.
  unfoldable pub check_parsed_obj : ℕ → Exec World (Unit {0})
  unfolding read parse_as
  check_parsed_obj n = do o ← read (obj n); if o.parsed then pure tt else parse_as o.cls (obj n)

  abbrev pub raise_if : Bool → Exec World (Unit {0})
  raise_if true = raise parsing_error
  raise_if false = pure tt

  unfoldable pub members_of_obj : ℕ → Exec World (List (Option ℕ))
  unfolding read check_parsed_obj
  members_of_obj n = do check_parsed_obj n; o ← read (obj n); raise_if o.error; pure o.members

  -- `converted.members ()`, an `AttributeError` for `None`.
  abbrev pub converted_members : Option ℕ → Exec World (List (Option ℕ))
  converted_members none = raise attribute_error
  converted_members (some n) = members_of_obj n

  abbrev pub extend : List (Option ℕ) → Exec World (Unit {0})
  extend ms = update index (λ o. record o { members = o.members ++ ms })

  abbrev pub place : Cls → Option ℕ → Str → Exec World (Unit {0})
  place file converted name =
      if ends_with name (codes ".h")
      then (do ms ← converted_members converted; extend ms; extend (converted ∷ []))
      else pure tt
  place namespace converted name = do
    ms ← converted_members converted
    extend ms
    extend (converted ∷ [])
  place _ converted name = extend (converted ∷ [])

  -- The loop of `DoxyIndex._parse`. The second `get_cls` stands outside `convert_mem`'s `try`.
  unfoldable pub index_mems : List ParseData → Exec World (Unit {0})
  unfolding convert_mem get_cls members_of_obj update
  index_mems [] = pure tt
  index_mems (mem ∷ mems) = do
    converted ← convert_mem mem
    c ← lift (get_cls mem)
    place c converted mem.name
    index_mems mems

  module _ (index_xml : Xml (List ParseData)) where
    abbrev pub root : Xml (List ParseData) → Result (List ParseData)
    root (well_formed mems) = ok mems
    root malformed = err expat_error
    root unreadable = err io_error
    root (invalid e) = err e

    unfoldable pub parse_index : Exec World (Unit {0})
    unfolding mark_parsed index_mems
    parse_index = do mark_parsed index; mems ← lift (root index_xml); index_mems mems

    abbrev pub check_parsed_if : Bool → Exec World (Unit {0})
    check_parsed_if true = pure tt
    check_parsed_if false = parse_index

    unfoldable pub check_parsed : Ref → Exec World (Unit {0})
    unfolding read parse_index check_parsed_obj
    check_parsed index = do o ← read index; check_parsed_if o.parsed
    check_parsed (obj n) = check_parsed_obj n

    unfoldable pub confirm_no_error : Ref → Exec World (Unit {0})
    unfolding check_parsed read
    confirm_no_error r = do check_parsed r; o ← read r; raise_if o.error

    -- `error ()`
    unfoldable pub error : Ref → Exec World Bool
    unfolding check_parsed read
    error r = do check_parsed r; o ← read r; pure o.error

    -- `members ()`
    unfoldable pub members : Ref → Exec World (List (Option ℕ))
    unfolding confirm_no_error read
    members r = do confirm_no_error r; o ← read r; pure o.members

    -- `name ()`. A `compounddef` has a `compoundname` and no `name`, so an object with no parse data
    -- raises `AttributeError` whatever was retrieved.
    abbrev pub name_of : Ref → Option ParseData → Exec World Str
    name_of r (some pd) = pure pd.name
    name_of r none = do check_parsed r; raise attribute_error

    unfoldable pub name : Ref → Exec World Str
    unfolding check_parsed read
    name r = do o ← read r; name_of r o.parse_data
