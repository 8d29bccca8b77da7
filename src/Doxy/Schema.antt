-- ===== src/Doxy/Schema.antt =====
-- The classes of docs/doxygen/doxyxml/generated/compoundsuper.py, as generateDS.py writes them from a
-- schema: a table of each class, and what the tables are made of.
pub mod Tables
pub mod Object
pub mod Build
pub mod Access
pub mod Numeral
pub mod Distinct
pub mod Typed
pub mod AttributeText
pub mod Attributes
pub mod Export
pub mod Literal
pub mod Shape
pub mod Conforms
pub mod Built
pub mod Accepts
pub mod Columns
pub mod Reads
pub mod Holds
pub mod Encodable
pub mod Exported
pub mod Safe
pub mod Literally
pub mod Content
pub mod Raw
pub mod Documents
pub mod Unsafe
mod Tests
use gr_digitizers.Prelude.{List}
use gr_digitizers.Prelude.Str.{Str}

-- The classes that are derived of `GeneratedsSuper`.
pub data ClassName : Type 0 where
  doxygen_type compounddef_type listofallmembers_type member_ref_type scope_class : ClassName
  name_class compound_ref_type reimplement_type inc_type ref_type ref_text_type : ClassName
  sectiondef_type memberdef_type definition_class argsstring_class read_class write_class :
      ClassName
  bitfield_class description_type enumvalue_type templateparamlist_type param_type : ClassName
  declname_class defname_class array_class linked_text_type graph_type node_type : ClassName
  label_class childnode_type edgelabel_class link_type listing_type codeline_type : ClassName
  highlight_type sp_class reference_type location_type doc_sect1_type doc_sect2_type : ClassName
  doc_sect3_type doc_sect4_type doc_internal_type doc_internal_s1_type : ClassName
  doc_internal_s2_type doc_internal_s3_type doc_internal_s4_type doc_title_type : ClassName
  doc_para_type doc_markup_type doc_url_link doc_anchor_type doc_formula_type : ClassName
  doc_index_entry_type doc_list_type doc_list_item_type doc_simple_sect_type : ClassName
  doc_var_list_entry_type doc_variable_list_type doc_ref_text_type doc_table_type : ClassName
  doc_row_type doc_entry_type doc_caption_type doc_heading_type doc_image_type : ClassName
  doc_dot_file_type doc_toc_item_type doc_toc_list_type doc_language_type : ClassName
  doc_param_list_type doc_param_list_item doc_param_name_list doc_param_name : ClassName
  doc_x_ref_sect_type doc_copy_type doc_char_type doc_empty_type : ClassName

-- How an attribute is read and written: a text that `exportAttributes` encodes, one that it does not
-- encode, one that it writes even if it is `None`, or an integer.
pub data AttributeKind : Type 0 where
  encoded quoted always numeric : AttributeKind

abbrev pub Attribute : Type 0
Attribute = Str × AttributeKind

-- `exportChildren` calls `export` of an object, or writes the object as if it were a text.
pub data Form : Type 0 where
  as_object as_text : Form

-- The field for the children of a name: the text or the object of the last child, or a list with one of
-- each child.
pub data ChildKind : Type 0 where
  one_text texts : ChildKind
  one_object : Form → ClassName → ChildKind
  objects : ClassName → ChildKind

-- What a class with mixed content does with the children of a name, `CategorySimple` or `CategoryComplex`.
pub data PartKind : Type 0 where
  simple_part : PartKind
  complex_part : ClassName → PartKind

-- The four forms of a generated class: fields for the children; the text `valueOf_`; the text with
-- `content_`, where other children are left out; and `content_` with all that the class declares.
pub data Family : Type 0 where
  structured_class : List (Str × ChildKind) → Family
  simple_class markup_class : Family
  mixed_class : List (Str × PartKind) → Family

pub record Class : Type 0 where
  pub name : Str
  pub attributes : List Attribute
  pub family : Family
