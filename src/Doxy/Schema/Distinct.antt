-- ===== src/Doxy/Schema/Distinct.antt =====
-- The names of the attributes in the tables of the classes.
use gr_digitizers.Prelude.{◌≡◌, refl, Bool, true, false, ◌&&◌, not, List, [], ◌∷◌}
use gr_digitizers.Prelude.Str.{Str, str_eq}
use gr_digitizers.Doxy.Index.Denotes.{letters}
use gr_digitizers.Doxy.Schema.{
  ClassName, Attribute, doxygen_type, compounddef_type, listofallmembers_type, member_ref_type,
  scope_class, name_class, compound_ref_type, reimplement_type, inc_type, ref_type, ref_text_type,
  sectiondef_type, memberdef_type, definition_class, argsstring_class, read_class, write_class,
  bitfield_class, description_type, enumvalue_type, templateparamlist_type, param_type,
  declname_class, defname_class, array_class, linked_text_type, graph_type, node_type, label_class,
  childnode_type, edgelabel_class, link_type, listing_type, codeline_type, highlight_type, sp_class,
  reference_type, location_type, doc_sect1_type, doc_sect2_type, doc_sect3_type, doc_sect4_type,
  doc_internal_type, doc_internal_s1_type, doc_internal_s2_type, doc_internal_s3_type,
  doc_internal_s4_type, doc_title_type, doc_para_type, doc_markup_type, doc_url_link,
  doc_anchor_type, doc_formula_type, doc_index_entry_type, doc_list_type, doc_list_item_type,
  doc_simple_sect_type, doc_var_list_entry_type, doc_variable_list_type, doc_ref_text_type,
  doc_table_type, doc_row_type, doc_entry_type, doc_caption_type, doc_heading_type, doc_image_type,
  doc_dot_file_type, doc_toc_item_type, doc_toc_list_type, doc_language_type, doc_param_list_type,
  doc_param_list_item, doc_param_name_list, doc_param_name, doc_x_ref_sect_type, doc_copy_type,
  doc_char_type, doc_empty_type,
}
use gr_digitizers.Doxy.Schema.Tables.{class_of}

-- The names of the attributes are words, and all different.
abbrev pub is_word : Str → Bool
is_word [] = false
is_word (c ∷ s) = letters (c ∷ s)

abbrev pub absent : Str → List Attribute → Bool
absent key [] = true
absent key (a ∷ attributes) = not (str_eq a.0 key) && absent key attributes

unfoldable pub distinct : List Attribute → Bool
unfolding str_eq
distinct [] = true
distinct (a ∷ attributes) = is_word a.0 && (absent a.0 attributes && distinct attributes)

pub class_of-distinct : (c : ClassName) → distinct (class_of c).attributes ≡ true
unfolding class_of distinct
class_of-distinct doxygen_type = refl
class_of-distinct compounddef_type = refl
class_of-distinct listofallmembers_type = refl
class_of-distinct member_ref_type = refl
class_of-distinct scope_class = refl
class_of-distinct name_class = refl
class_of-distinct compound_ref_type = refl
class_of-distinct reimplement_type = refl
class_of-distinct inc_type = refl
class_of-distinct ref_type = refl
class_of-distinct ref_text_type = refl
class_of-distinct sectiondef_type = refl
class_of-distinct memberdef_type = refl
class_of-distinct definition_class = refl
class_of-distinct argsstring_class = refl
class_of-distinct read_class = refl
class_of-distinct write_class = refl
class_of-distinct bitfield_class = refl
class_of-distinct description_type = refl
class_of-distinct enumvalue_type = refl
class_of-distinct templateparamlist_type = refl
class_of-distinct param_type = refl
class_of-distinct declname_class = refl
class_of-distinct defname_class = refl
class_of-distinct array_class = refl
class_of-distinct linked_text_type = refl
class_of-distinct graph_type = refl
class_of-distinct node_type = refl
class_of-distinct label_class = refl
class_of-distinct childnode_type = refl
class_of-distinct edgelabel_class = refl
class_of-distinct link_type = refl
class_of-distinct listing_type = refl
class_of-distinct codeline_type = refl
class_of-distinct highlight_type = refl
class_of-distinct sp_class = refl
class_of-distinct reference_type = refl
class_of-distinct location_type = refl
class_of-distinct doc_sect1_type = refl
class_of-distinct doc_sect2_type = refl
class_of-distinct doc_sect3_type = refl
class_of-distinct doc_sect4_type = refl
class_of-distinct doc_internal_type = refl
class_of-distinct doc_internal_s1_type = refl
class_of-distinct doc_internal_s2_type = refl
class_of-distinct doc_internal_s3_type = refl
class_of-distinct doc_internal_s4_type = refl
class_of-distinct doc_title_type = refl
class_of-distinct doc_para_type = refl
class_of-distinct doc_markup_type = refl
class_of-distinct doc_url_link = refl
class_of-distinct doc_anchor_type = refl
class_of-distinct doc_formula_type = refl
class_of-distinct doc_index_entry_type = refl
class_of-distinct doc_list_type = refl
class_of-distinct doc_list_item_type = refl
class_of-distinct doc_simple_sect_type = refl
class_of-distinct doc_var_list_entry_type = refl
class_of-distinct doc_variable_list_type = refl
class_of-distinct doc_ref_text_type = refl
class_of-distinct doc_table_type = refl
class_of-distinct doc_row_type = refl
class_of-distinct doc_entry_type = refl
class_of-distinct doc_caption_type = refl
class_of-distinct doc_heading_type = refl
class_of-distinct doc_image_type = refl
class_of-distinct doc_dot_file_type = refl
class_of-distinct doc_toc_item_type = refl
class_of-distinct doc_toc_list_type = refl
class_of-distinct doc_language_type = refl
class_of-distinct doc_param_list_type = refl
class_of-distinct doc_param_list_item = refl
class_of-distinct doc_param_name_list = refl
class_of-distinct doc_param_name = refl
class_of-distinct doc_x_ref_sect_type = refl
class_of-distinct doc_copy_type = refl
class_of-distinct doc_char_type = refl
class_of-distinct doc_empty_type = refl
