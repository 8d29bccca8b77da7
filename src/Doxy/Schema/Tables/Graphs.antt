-- ===== src/Doxy/Schema/Tables/Graphs.antt =====
-- The classes of compoundsuper.py for graphs, listings and locations. A table
-- stands for all methods of its class: __init__ and the accessors (Schema/Object, Schema/Access),
-- build (Schema/Build), export (Schema/Export) and exportLiteral (Schema/Literal), with their parts.
use gr_digitizers.Prelude.{[], ◌∷◌}
use gr_digitizers.Prelude.Str.{codes}
use gr_digitizers.Doxy.Schema.{
  Class, encoded, quoted, numeric, as_object, one_text, texts, one_object, objects, simple_part,
  complex_part, structured_class, simple_class, markup_class, mixed_class, node_type,
  childnode_type, link_type, codeline_type, highlight_type, doc_ref_text_type,
}

abbrev pub linked_text_type_table : Class
linked_text_type_table = record {
  name = codes "linkedTextType";
  attributes = [];
  family = mixed_class ((codes "ref", complex_part doc_ref_text_type) ∷ []);
}

abbrev pub graph_type_table : Class
graph_type_table = record {
  name = codes "graphType";
  attributes = [];
  family = structured_class ((codes "node", objects node_type) ∷ []);
}

abbrev pub node_type_table : Class
node_type_table = record {
  name = codes "nodeType";
  attributes = (codes "id", encoded) ∷ [];
  family = structured_class (
      (codes "label", one_text)
      ∷ (codes "link", one_object as_object link_type)
      ∷ (codes "childnode", objects childnode_type)
      ∷ []);
}

abbrev pub label_class_table : Class
label_class_table = record { name = codes "label"; attributes = []; family = simple_class }

abbrev pub childnode_type_table : Class
childnode_type_table = record {
  name = codes "childnodeType";
  attributes = (codes "relation", quoted) ∷ (codes "refid", encoded) ∷ [];
  family = structured_class ((codes "edgelabel", texts) ∷ []);
}

abbrev pub edgelabel_class_table : Class
edgelabel_class_table = record { name = codes "edgelabel"; attributes = []; family = simple_class }

abbrev pub link_type_table : Class
link_type_table = record {
  name = codes "linkType";
  attributes = (codes "refid", encoded) ∷ (codes "external", encoded) ∷ [];
  family = simple_class;
}

abbrev pub listing_type_table : Class
listing_type_table = record {
  name = codes "listingType";
  attributes = [];
  family = structured_class ((codes "codeline", objects codeline_type) ∷ []);
}

abbrev pub codeline_type_table : Class
codeline_type_table = record {
  name = codes "codelineType";
  attributes =
      (codes "external", quoted)
      ∷ (codes "lineno", numeric)
      ∷ (codes "refkind", quoted)
      ∷ (codes "refid", encoded)
      ∷ [];
  family = structured_class ((codes "highlight", objects highlight_type) ∷ []);
}

abbrev pub highlight_type_table : Class
highlight_type_table = record {
  name = codes "highlightType";
  attributes = (codes "class", quoted) ∷ [];
  family =
      mixed_class ((codes "sp", simple_part) ∷ (codes "ref", complex_part doc_ref_text_type) ∷ []);
}

abbrev pub sp_class_table : Class
sp_class_table = record { name = codes "sp"; attributes = []; family = simple_class }

abbrev pub reference_type_table : Class
reference_type_table = record {
  name = codes "referenceType";
  attributes =
      (codes "endline", numeric)
      ∷ (codes "startline", numeric)
      ∷ (codes "refid", encoded)
      ∷ (codes "compoundref", encoded)
      ∷ [];
  family = markup_class;
}

abbrev pub location_type_table : Class
location_type_table = record {
  name = codes "locationType";
  attributes =
      (codes "bodystart", numeric)
      ∷ (codes "line", numeric)
      ∷ (codes "bodyend", numeric)
      ∷ (codes "bodyfile", encoded)
      ∷ (codes "file", encoded)
      ∷ [];
  family = simple_class;
}
