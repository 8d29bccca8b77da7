-- ===== src/Doxy/Schema/Tables/Parts.antt =====
-- The classes of compoundsuper.py for lists, tables, images and parameters in a documentation. A table
-- stands for all methods of its class: __init__ and the accessors (Schema/Object, Schema/Access),
-- build (Schema/Build), export (Schema/Export) and exportLiteral (Schema/Literal), with their parts.
use gr_digitizers.Prelude.{[], ◌∷◌}
use gr_digitizers.Prelude.Str.{codes}
use gr_digitizers.Doxy.Schema.{
  Class, encoded, quoted, numeric, as_object, one_text, texts, one_object, objects, complex_part,
  structured_class, simple_class, markup_class, mixed_class, description_type, doc_sect1_type,
  doc_internal_type, doc_title_type, doc_para_type, doc_list_item_type, doc_ref_text_type,
  doc_row_type, doc_entry_type, doc_caption_type, doc_toc_item_type, doc_param_list_item,
  doc_param_name_list, doc_param_name,
}

abbrev pub doc_index_entry_type_table : Class
doc_index_entry_type_table = record {
  name = codes "docIndexEntryType";
  attributes = [];
  family = structured_class ((codes "primaryie", one_text) ∷ (codes "secondaryie", one_text) ∷ []);
}

abbrev pub doc_list_type_table : Class
doc_list_type_table = record {
  name = codes "docListType";
  attributes = [];
  family = structured_class ((codes "listitem", objects doc_list_item_type) ∷ []);
}

abbrev pub doc_list_item_type_table : Class
doc_list_item_type_table = record {
  name = codes "docListItemType";
  attributes = [];
  family = structured_class ((codes "para", objects doc_para_type) ∷ []);
}

abbrev pub doc_simple_sect_type_table : Class
doc_simple_sect_type_table = record {
  name = codes "docSimpleSectType";
  attributes = (codes "kind", quoted) ∷ [];
  family = structured_class (
      (codes "title", one_object as_object doc_title_type)
      ∷ (codes "para", objects doc_para_type)
      ∷ []);
}

abbrev pub doc_var_list_entry_type_table : Class
doc_var_list_entry_type_table = record {
  name = codes "docVarListEntryType";
  attributes = [];
  family = structured_class ((codes "term", one_object as_object doc_title_type) ∷ []);
}

abbrev pub doc_variable_list_type_table : Class
doc_variable_list_type_table = record {
  name = codes "docVariableListType";
  attributes = [];
  family = simple_class;
}

abbrev pub doc_ref_text_type_table : Class
doc_ref_text_type_table = record {
  name = codes "docRefTextType";
  attributes =
      (codes "refid", encoded) ∷ (codes "kindref", quoted) ∷ (codes "external", encoded) ∷ [];
  family = markup_class;
}

abbrev pub doc_table_type_table : Class
doc_table_type_table = record {
  name = codes "docTableType";
  attributes = (codes "rows", numeric) ∷ (codes "cols", numeric) ∷ [];
  family = structured_class (
      (codes "row", objects doc_row_type)
      ∷ (codes "caption", one_object as_object doc_caption_type)
      ∷ []);
}

abbrev pub doc_row_type_table : Class
doc_row_type_table = record {
  name = codes "docRowType";
  attributes = [];
  family = structured_class ((codes "entry", objects doc_entry_type) ∷ []);
}

abbrev pub doc_entry_type_table : Class
doc_entry_type_table = record {
  name = codes "docEntryType";
  attributes = (codes "thead", quoted) ∷ [];
  family = structured_class ((codes "para", objects doc_para_type) ∷ []);
}

abbrev pub doc_caption_type_table : Class
doc_caption_type_table = record {
  name = codes "docCaptionType";
  attributes = [];
  family = markup_class;
}

abbrev pub doc_heading_type_table : Class
doc_heading_type_table = record {
  name = codes "docHeadingType";
  attributes = (codes "level", numeric) ∷ [];
  family = markup_class;
}

abbrev pub doc_image_type_table : Class
doc_image_type_table = record {
  name = codes "docImageType";
  attributes =
      (codes "width", encoded)
      ∷ (codes "type", quoted)
      ∷ (codes "name", encoded)
      ∷ (codes "height", encoded)
      ∷ [];
  family = markup_class;
}

abbrev pub doc_dot_file_type_table : Class
doc_dot_file_type_table = record {
  name = codes "docDotFileType";
  attributes = (codes "name", encoded) ∷ [];
  family = markup_class;
}

abbrev pub doc_toc_item_type_table : Class
doc_toc_item_type_table = record {
  name = codes "docTocItemType";
  attributes = (codes "id", encoded) ∷ [];
  family = markup_class;
}

abbrev pub doc_toc_list_type_table : Class
doc_toc_list_type_table = record {
  name = codes "docTocListType";
  attributes = [];
  family = structured_class ((codes "tocitem", objects doc_toc_item_type) ∷ []);
}

abbrev pub doc_language_type_table : Class
doc_language_type_table = record {
  name = codes "docLanguageType";
  attributes = (codes "langid", encoded) ∷ [];
  family = structured_class ((codes "para", objects doc_para_type) ∷ []);
}

abbrev pub doc_param_list_type_table : Class
doc_param_list_type_table = record {
  name = codes "docParamListType";
  attributes = (codes "kind", quoted) ∷ [];
  family = structured_class ((codes "parameteritem", objects doc_param_list_item) ∷ []);
}

abbrev pub doc_param_list_item_table : Class
doc_param_list_item_table = record {
  name = codes "docParamListItem";
  attributes = [];
  family = structured_class (
      (codes "parameternamelist", objects doc_param_name_list)
      ∷ (codes "parameterdescription", one_object as_object description_type)
      ∷ []);
}

abbrev pub doc_param_name_list_table : Class
doc_param_name_list_table = record {
  name = codes "docParamNameList";
  attributes = [];
  family = structured_class ((codes "parametername", objects doc_param_name) ∷ []);
}

abbrev pub doc_param_name_table : Class
doc_param_name_table = record {
  name = codes "docParamName";
  attributes = (codes "direction", quoted) ∷ [];
  family = mixed_class ((codes "ref", complex_part doc_ref_text_type) ∷ []);
}

abbrev pub doc_x_ref_sect_type_table : Class
doc_x_ref_sect_type_table = record {
  name = codes "docXRefSectType";
  attributes = (codes "id", encoded) ∷ [];
  family = structured_class (
      (codes "xreftitle", texts)
      ∷ (codes "xrefdescription", one_object as_object description_type)
      ∷ []);
}

abbrev pub doc_copy_type_table : Class
doc_copy_type_table = record {
  name = codes "docCopyType";
  attributes = (codes "link", encoded) ∷ [];
  family = structured_class (
      (codes "para", objects doc_para_type)
      ∷ (codes "sect1", objects doc_sect1_type)
      ∷ (codes "internal", one_object as_object doc_internal_type)
      ∷ []);
}

abbrev pub doc_char_type_table : Class
doc_char_type_table = record {
  name = codes "docCharType";
  attributes = (codes "char", quoted) ∷ [];
  family = simple_class;
}

abbrev pub doc_empty_type_table : Class
doc_empty_type_table = record {
  name = codes "docEmptyType";
  attributes = [];
  family = simple_class;
}
