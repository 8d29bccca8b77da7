-- ===== src/SwigDoc/Interface.antt =====
-- The two categories of blocks, and `make_swig_interface_file`. What goes to stderr is left out.
pub mod Handlers
use gr_digitizers.Prelude.{
  ℕ, Bool, true, false, not, ◌||◌, Option, none, some, List, [], ◌∷◌, ◌++◌, if◌then◌else◌,
}
use gr_digitizers.Prelude.Str.{Str, codes, join, member, starts_with}
use gr_digitizers.Prelude.Result.{Error, Result, ok, err, parsing_error}
use gr_digitizers.Prelude.Exec.{Exec, pure, raise, lift, and_then, ◌>>=◌, ◌>>◌}
use gr_digitizers.Doxy.Data.{ParseData, CompoundDef, Xml}
use gr_digitizers.Doxy.Heap.{
  Cls, function, class, friend, other, Category, block, block2, World, Ref, index, obj,
}
use gr_digitizers.Doxy.Parse.{error, name}
use gr_digitizers.Doxy.Lookup.{isinstance, in_category, in_category_by, get_member, has_member}
use gr_digitizers.SwigDoc.Texts.{make_name}
use gr_digitizers.SwigDoc.Entries.{
  object_of, make_func_entry, make_class_entry, make_block_entry, make_block2_entry,
}

-- `try: m except ParsingError: h`
abbrev pub handled : {A : Type 0} → Result A × World → Exec World A → Result A × World
handled (err parsing_error, w) h = h w
handled r h = r

-- The make functions that are documented so far, and the entries.
abbrev Output : Type 0
Output = List Str × List Str

abbrev custom : Option Str → List Str
custom none = []
custom (some s) = s ∷ []

abbrev pub banner : Str
banner =
    codes
      "\n/*\n * This file was automatically generated using swig_doc.py.\n *\n * Any changes to it will be lost next time it is regenerated.\n */\n"

-- One entry, or none where the document cannot be parsed.
unfoldable pub entry_or_skip : Exec World Str → Exec World (List Str)
entry_or_skip m w = handled ((do e ← m; pure (e ∷ [])) w) (pure [])

unfoldable pub entries : (Ref → Exec World Str) → List Ref → Exec World (List Str)
unfolding entry_or_skip
entries make [] = pure []
entries make (r ∷ rs) = do e ← entry_or_skip (make r); rest ← entries make rs; pure (e ++ rest)

module _ (compound_xml : Str → Xml (Option CompoundDef)) (index_xml : Xml (List ParseData)) where
  abbrev name_of : Ref → Exec World Str
  name_of r = name compound_xml index_xml r

  abbrev has : Ref → Str → Cls → Exec World Bool
  has r s c = has_member compound_xml index_xml r s (some c)

  -- A class without an error that meets the rest of the test.
  abbrev class_with : (Ref → Exec World Bool) → Option ℕ → Bool → Exec World Bool
  class_with test (some n) true = do
    failed ← error compound_xml index_xml (obj n)
    if failed then pure false else test (obj n)
  class_with test _ _ = pure false

  abbrev or_else_in_index : Str → Bool → Exec World Bool
  or_else_in_index friendname true = pure true
  or_else_in_index friendname false = has index friendname function

  -- `Block.includes`
  unfoldable pub block_includes : Option ℕ → Exec World Bool
  unfolding error name has_member make_name
  block_includes m = do
    is_class ← isinstance compound_xml index_xml class m
    class_with
        (λ r. do
          item_name ← name_of r
          is_a_block ← has r (make_name item_name) friend
          or_else_in_index (make_name item_name) is_a_block)
        m is_class

  abbrev and_has : Ref → Bool → Exec World Bool
  and_has r false = pure false
  and_has r true = has r (codes "sptr") other

  -- `Block2.includes`
  unfoldable pub block2_includes : Option ℕ → Exec World Bool
  unfolding error has_member
  block2_includes m = do
    is_class ← isinstance compound_xml index_xml class m
    class_with (λ r. do made ← has r (codes "make") function; and_has r made) m is_class

  abbrev block_unless : Bool → Ref → Str → Output → Exec World Output
  block_unless true r s out = pure out
  block_unless false r s out = do
    e ← make_block_entry compound_xml index_xml r
    pure (s ∷ out.0, out.1 ++ (e ∷ []))

  -- The loop over `blocks`: a `ParsingError` is raised again.
  unfoldable pub block_entries : List (Option ℕ) → Output → Exec World Output
  unfolding name get_member make_block_entry make_name member
  block_entries [] out = pure out
  block_entries (m ∷ ms) out = do
    r ← lift (object_of m)
    block_name ← name_of r
    found ← get_member compound_xml index_xml index (make_name block_name) (some function)
    make_func ← lift (object_of found)
    make_func_name ← name_of make_func
    out' ← block_unless (member make_func_name out.0) r make_func_name out
    block_entries ms out'

  abbrev block2_unless : Bool → Ref → Str → Output → Exec World Output
  block2_unless true r s out = pure out
  block2_unless false r s out = do
    e ← make_block2_entry compound_xml index_xml r
    pure (s ∷ out.0, out.1 ++ (e ∷ []))

  unfoldable pub block2_entries : List (Option ℕ) → Output → Exec World Output
  unfolding name get_member make_block2_entry member
  block2_entries [] out = pure out
  block2_entries (m ∷ ms) out = do
    r ← lift (object_of m)
    found ← get_member compound_xml index_xml r (codes "make") (some function)
    block_name ← name_of r
    let make_func_name = block_name ++ codes "::make"
    out' ← block2_unless (member make_func_name out.0) r make_func_name out
    block2_entries ms out'

  -- The members whose name is not in the list and does not begin with `std::`.
  unfoldable pub others : List Str → List (Option ℕ) → Exec World (List Ref)
  unfolding name member starts_with
  others known [] = pure []
  others known (m ∷ ms) = do
    r ← lift (object_of m)
    s ← name_of r
    rest ← others known ms
    pure (if member s known || starts_with s (codes "std::") then rest else r ∷ rest)

  unfoldable pub names_of : List (Option ℕ) → Exec World (List Str)
  unfolding name
  names_of [] = pure []
  names_of (m ∷ ms) = do r ← lift (object_of m); s ← name_of r; rest ← names_of ms; pure (s ∷ rest)

  -- The text of the interface file.
  unfoldable pub make_swig_interface_file : Option Str → Exec World Str
  unfolding in_category_by in_category block_includes block2_includes block_entries block2_entries
      others entries names_of make_func_entry make_class_entry join
  make_swig_interface_file custom_output = do
    blocks ← in_category_by compound_xml index_xml block_includes index block
    blocks2 ← in_category_by compound_xml index_xml block2_includes index block2
    made ← block_entries blocks ([], banner ∷ custom custom_output)
    made2 ← block2_entries blocks2 made
    functions ← in_category compound_xml index_xml index function
    funcs ← others made2.0 functions
    func_entries ← entries (λ r. make_func_entry compound_xml index_xml r none none []) funcs
    block_names ← names_of blocks
    block_names2 ← names_of blocks2
    classes ← in_category compound_xml index_xml index class
    klasses ← others (block_names ++ block_names2) classes
    class_entries ← entries (λ r. make_class_entry compound_xml index_xml r none [] none) klasses
    pure (join (codes "\n\n") (made2.1 ++ (func_entries ++ class_entries)))
