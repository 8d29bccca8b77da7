-- ===== src/Doxy/Schema/Tables.antt =====
-- The table of each class.
pub mod Compounds
pub mod Members
pub mod Graphs
pub mod Documentation
pub mod Parts
use gr_digitizers.Doxy.Schema.{
  ClassName, Class, doxygen_type, compounddef_type, listofallmembers_type, member_ref_type,
  scope_class, name_class, compound_ref_type, reimplement_type, inc_type, ref_type, ref_text_type,
  sectiondef_type, memberdef_type, definition_class, argsstring_class, read_class, write_class,
  bitfield_class, description_type, enumvalue_type, templateparamlist_type, param_type,
  declname_class, defname_class, array_class, linked_text_type, graph_type, node_type, label_class,
  childnode_type, edgelabel_class, link_type, listing_type, codeline_type, highlight_type, sp_class,
  reference_type, location_type, doc_sect1_type, doc_sect2_type, doc_sect3_type, doc_sect4_type,
  doc_internal_type, doc_internal_s1_type, doc_internal_s2_type, doc_internal_s3_type,
  doc_internal_s4_type, doc_title_type, doc_para_type, doc_markup_type, doc_url_link,
  doc_anchor_type, doc_formula_type, doc_index_entry_type, doc_list_type, doc_list_item_type,
  doc_simple_sect_type, doc_var_list_entry_type, doc_variable_list_type, doc_ref_text_type,
  doc_table_type, doc_row_type, doc_entry_type, doc_caption_type, doc_heading_type, doc_image_type,
  doc_dot_file_type, doc_toc_item_type, doc_toc_list_type, doc_language_type, doc_param_list_type,
  doc_param_list_item, doc_param_name_list, doc_param_name, doc_x_ref_sect_type, doc_copy_type,
  doc_char_type, doc_empty_type,
}
use gr_digitizers.Doxy.Schema.Tables.Compounds.{
  doxygen_type_table, compounddef_type_table, listofallmembers_type_table, member_ref_type_table,
  scope_class_table, name_class_table, compound_ref_type_table, reimplement_type_table,
  inc_type_table, ref_type_table, ref_text_type_table, sectiondef_type_table,
}
use gr_digitizers.Doxy.Schema.Tables.Members.{
  memberdef_type_table, definition_class_table, argsstring_class_table, read_class_table,
  write_class_table, bitfield_class_table, description_type_table, enumvalue_type_table,
  templateparamlist_type_table, param_type_table, declname_class_table, defname_class_table,
  array_class_table,
}
use gr_digitizers.Doxy.Schema.Tables.Graphs.{
  linked_text_type_table, graph_type_table, node_type_table, label_class_table,
  childnode_type_table, edgelabel_class_table, link_type_table, listing_type_table,
  codeline_type_table, highlight_type_table, sp_class_table, reference_type_table,
  location_type_table,
}
use gr_digitizers.Doxy.Schema.Tables.Documentation.{
  doc_sect1_type_table, doc_sect2_type_table, doc_sect3_type_table, doc_sect4_type_table,
  doc_internal_type_table, doc_internal_s1_type_table, doc_internal_s2_type_table,
  doc_internal_s3_type_table, doc_internal_s4_type_table, doc_title_type_table, doc_para_type_table,
  doc_markup_type_table, doc_url_link_table, doc_anchor_type_table, doc_formula_type_table,
}
use gr_digitizers.Doxy.Schema.Tables.Parts.{
  doc_index_entry_type_table, doc_list_type_table, doc_list_item_type_table,
  doc_simple_sect_type_table, doc_var_list_entry_type_table, doc_variable_list_type_table,
  doc_ref_text_type_table, doc_table_type_table, doc_row_type_table, doc_entry_type_table,
  doc_caption_type_table, doc_heading_type_table, doc_image_type_table, doc_dot_file_type_table,
  doc_toc_item_type_table, doc_toc_list_type_table, doc_language_type_table,
  doc_param_list_type_table, doc_param_list_item_table, doc_param_name_list_table,
  doc_param_name_table, doc_x_ref_sect_type_table, doc_copy_type_table, doc_char_type_table,
  doc_empty_type_table,
}

unfoldable pub class_of : ClassName → Class
class_of doxygen_type = doxygen_type_table
class_of compounddef_type = compounddef_type_table
class_of listofallmembers_type = listofallmembers_type_table
class_of member_ref_type = member_ref_type_table
class_of scope_class = scope_class_table
class_of name_class = name_class_table
class_of compound_ref_type = compound_ref_type_table
class_of reimplement_type = reimplement_type_table
class_of inc_type = inc_type_table
class_of ref_type = ref_type_table
class_of ref_text_type = ref_text_type_table
class_of sectiondef_type = sectiondef_type_table
class_of memberdef_type = memberdef_type_table
class_of definition_class = definition_class_table
class_of argsstring_class = argsstring_class_table
class_of read_class = read_class_table
class_of write_class = write_class_table
class_of bitfield_class = bitfield_class_table
class_of description_type = description_type_table
class_of enumvalue_type = enumvalue_type_table
class_of templateparamlist_type = templateparamlist_type_table
class_of param_type = param_type_table
class_of declname_class = declname_class_table
class_of defname_class = defname_class_table
class_of array_class = array_class_table
class_of linked_text_type = linked_text_type_table
class_of graph_type = graph_type_table
class_of node_type = node_type_table
class_of label_class = label_class_table
class_of childnode_type = childnode_type_table
class_of edgelabel_class = edgelabel_class_table
class_of link_type = link_type_table
class_of listing_type = listing_type_table
class_of codeline_type = codeline_type_table
class_of highlight_type = highlight_type_table
class_of sp_class = sp_class_table
class_of reference_type = reference_type_table
class_of location_type = location_type_table
class_of doc_sect1_type = doc_sect1_type_table
class_of doc_sect2_type = doc_sect2_type_table
class_of doc_sect3_type = doc_sect3_type_table
class_of doc_sect4_type = doc_sect4_type_table
class_of doc_internal_type = doc_internal_type_table
class_of doc_internal_s1_type = doc_internal_s1_type_table
class_of doc_internal_s2_type = doc_internal_s2_type_table
class_of doc_internal_s3_type = doc_internal_s3_type_table
class_of doc_internal_s4_type = doc_internal_s4_type_table
class_of doc_title_type = doc_title_type_table
class_of doc_para_type = doc_para_type_table
class_of doc_markup_type = doc_markup_type_table
class_of doc_url_link = doc_url_link_table
class_of doc_anchor_type = doc_anchor_type_table
class_of doc_formula_type = doc_formula_type_table
class_of doc_index_entry_type = doc_index_entry_type_table
class_of doc_list_type = doc_list_type_table
class_of doc_list_item_type = doc_list_item_type_table
class_of doc_simple_sect_type = doc_simple_sect_type_table
class_of doc_var_list_entry_type = doc_var_list_entry_type_table
class_of doc_variable_list_type = doc_variable_list_type_table
class_of doc_ref_text_type = doc_ref_text_type_table
class_of doc_table_type = doc_table_type_table
class_of doc_row_type = doc_row_type_table
class_of doc_entry_type = doc_entry_type_table
class_of doc_caption_type = doc_caption_type_table
class_of doc_heading_type = doc_heading_type_table
class_of doc_image_type = doc_image_type_table
class_of doc_dot_file_type = doc_dot_file_type_table
class_of doc_toc_item_type = doc_toc_item_type_table
class_of doc_toc_list_type = doc_toc_list_type_table
class_of doc_language_type = doc_language_type_table
class_of doc_param_list_type = doc_param_list_type_table
class_of doc_param_list_item = doc_param_list_item_table
class_of doc_param_name_list = doc_param_name_list_table
class_of doc_param_name = doc_param_name_table
class_of doc_x_ref_sect_type = doc_x_ref_sect_type_table
class_of doc_copy_type = doc_copy_type_table
class_of doc_char_type = doc_char_type_table
class_of doc_empty_type = doc_empty_type_table
