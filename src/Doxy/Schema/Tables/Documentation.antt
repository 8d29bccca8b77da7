-- ===== src/Doxy/Schema/Tables/Documentation.antt =====
-- The classes of compoundsuper.py for the sections of a documentation. A table
-- stands for all methods of its class: __init__ and the accessors (Schema/Object, Schema/Access),
-- build (Schema/Build), export (Schema/Export) and exportLiteral (Schema/Literal), with their parts.
use gr_digitizers.Prelude.{[], ◌∷◌}
use gr_digitizers.Prelude.Str.{codes}
use gr_digitizers.Doxy.Schema.{
  Class, encoded, complex_part, markup_class, mixed_class, doc_sect1_type, doc_sect2_type,
  doc_sect3_type, doc_sect4_type, doc_internal_s1_type, doc_internal_s2_type, doc_internal_s3_type,
  doc_internal_s4_type, doc_title_type, doc_para_type,
}

abbrev pub doc_sect1_type_table : Class
doc_sect1_type_table = record {
  name = codes "docSect1Type";
  attributes = (codes "id", encoded) ∷ [];
  family = mixed_class (
      (codes "title", complex_part doc_title_type)
      ∷ (codes "para", complex_part doc_para_type)
      ∷ (codes "sect2", complex_part doc_sect2_type)
      ∷ (codes "internal", complex_part doc_internal_s1_type)
      ∷ []);
}

abbrev pub doc_sect2_type_table : Class
doc_sect2_type_table = record {
  name = codes "docSect2Type";
  attributes = (codes "id", encoded) ∷ [];
  family = mixed_class (
      (codes "title", complex_part doc_title_type)
      ∷ (codes "para", complex_part doc_para_type)
      ∷ (codes "sect3", complex_part doc_sect3_type)
      ∷ (codes "internal", complex_part doc_internal_s2_type)
      ∷ []);
}

abbrev pub doc_sect3_type_table : Class
doc_sect3_type_table = record {
  name = codes "docSect3Type";
  attributes = (codes "id", encoded) ∷ [];
  family = mixed_class (
      (codes "title", complex_part doc_title_type)
      ∷ (codes "para", complex_part doc_para_type)
      ∷ (codes "sect4", complex_part doc_sect4_type)
      ∷ (codes "internal", complex_part doc_internal_s3_type)
      ∷ []);
}

abbrev pub doc_sect4_type_table : Class
doc_sect4_type_table = record {
  name = codes "docSect4Type";
  attributes = (codes "id", encoded) ∷ [];
  family = mixed_class (
      (codes "title", complex_part doc_title_type)
      ∷ (codes "para", complex_part doc_para_type)
      ∷ (codes "internal", complex_part doc_internal_s4_type)
      ∷ []);
}

abbrev pub doc_internal_type_table : Class
doc_internal_type_table = record {
  name = codes "docInternalType";
  attributes = [];
  family = mixed_class (
      (codes "para", complex_part doc_para_type)
      ∷ (codes "sect1", complex_part doc_sect1_type)
      ∷ []);
}

abbrev pub doc_internal_s1_type_table : Class
doc_internal_s1_type_table = record {
  name = codes "docInternalS1Type";
  attributes = [];
  family = mixed_class (
      (codes "para", complex_part doc_para_type)
      ∷ (codes "sect2", complex_part doc_sect2_type)
      ∷ []);
}

abbrev pub doc_internal_s2_type_table : Class
doc_internal_s2_type_table = record {
  name = codes "docInternalS2Type";
  attributes = [];
  family = mixed_class (
      (codes "para", complex_part doc_para_type)
      ∷ (codes "sect3", complex_part doc_sect3_type)
      ∷ []);
}

abbrev pub doc_internal_s3_type_table : Class
doc_internal_s3_type_table = record {
  name = codes "docInternalS3Type";
  attributes = [];
  family = mixed_class (
      (codes "para", complex_part doc_para_type)
      ∷ (codes "sect3", complex_part doc_sect4_type)
      ∷ []);
}

abbrev pub doc_internal_s4_type_table : Class
doc_internal_s4_type_table = record {
  name = codes "docInternalS4Type";
  attributes = [];
  family = mixed_class ((codes "para", complex_part doc_para_type) ∷ []);
}

abbrev pub doc_title_type_table : Class
doc_title_type_table = record {
  name = codes "docTitleType";
  attributes = [];
  family = markup_class;
}

abbrev pub doc_para_type_table : Class
doc_para_type_table = record { name = codes "docParaType"; attributes = []; family = markup_class }

abbrev pub doc_markup_type_table : Class
doc_markup_type_table = record {
  name = codes "docMarkupType";
  attributes = [];
  family = markup_class;
}

abbrev pub doc_url_link_table : Class
doc_url_link_table = record {
  name = codes "docURLLink";
  attributes = (codes "url", encoded) ∷ [];
  family = markup_class;
}

abbrev pub doc_anchor_type_table : Class
doc_anchor_type_table = record {
  name = codes "docAnchorType";
  attributes = (codes "id", encoded) ∷ [];
  family = markup_class;
}

abbrev pub doc_formula_type_table : Class
doc_formula_type_table = record {
  name = codes "docFormulaType";
  attributes = (codes "id", encoded) ∷ [];
  family = markup_class;
}
