-- ===== src/Doxy/Schema/Tables/Compounds.antt =====
-- The classes of compoundsuper.py for a compound, what it refers to and its sections of members. A table
-- stands for all methods of its class: __init__ and the accessors (Schema/Object, Schema/Access),
-- build (Schema/Build), export (Schema/Export) and exportLiteral (Schema/Literal), with their parts.
use gr_digitizers.Prelude.{List, [], ◌∷◌, ◌++◌}
use gr_digitizers.Prelude.Str.{Str, codes}
use gr_digitizers.Doxy.Schema.{
  Class, Attribute, ChildKind, encoded, quoted, always, as_object, as_text, one_text, one_object,
  objects, structured_class, simple_class, markup_class, compounddef_type, listofallmembers_type,
  member_ref_type, compound_ref_type, inc_type, ref_type, sectiondef_type, memberdef_type,
  description_type, templateparamlist_type, graph_type, listing_type, location_type, doc_title_type,
}

abbrev pub doxygen_type_table : Class
doxygen_type_table = record {
  name = codes "DoxygenType";
  attributes = (codes "version", always) ∷ [];
  family = structured_class ((codes "compounddef", one_object as_object compounddef_type) ∷ []);
}

abbrev pub compounddef_attributes : List Attribute
compounddef_attributes =
    (codes "kind", quoted) ∷ (codes "prot", quoted) ∷ (codes "id", encoded) ∷ []

abbrev pub compounddef_children_from_compoundname : List (Str × ChildKind)
compounddef_children_from_compoundname =
    (codes "compoundname", one_text)
    ∷ (codes "title", one_object as_text doc_title_type)
    ∷ (codes "basecompoundref", objects compound_ref_type)
    ∷ (codes "derivedcompoundref", objects compound_ref_type)
    ∷ (codes "includes", objects inc_type)
    ∷ (codes "includedby", objects inc_type)
    ∷ (codes "incdepgraph", one_object as_object graph_type)
    ∷ (codes "invincdepgraph", one_object as_object graph_type)
    ∷ []

abbrev pub compounddef_children_from_innerdir : List (Str × ChildKind)
compounddef_children_from_innerdir =
    (codes "innerdir", objects ref_type)
    ∷ (codes "innerfile", objects ref_type)
    ∷ (codes "innerclass", objects ref_type)
    ∷ (codes "innernamespace", objects ref_type)
    ∷ (codes "innerpage", objects ref_type)
    ∷ (codes "innergroup", objects ref_type)
    ∷ (codes "templateparamlist", one_object as_object templateparamlist_type)
    ∷ (codes "sectiondef", objects sectiondef_type)
    ∷ []

abbrev pub compounddef_children_from_briefdescription : List (Str × ChildKind)
compounddef_children_from_briefdescription =
    (codes "briefdescription", one_object as_object description_type)
    ∷ (codes "detaileddescription", one_object as_object description_type)
    ∷ (codes "inheritancegraph", one_object as_object graph_type)
    ∷ (codes "collaborationgraph", one_object as_object graph_type)
    ∷ (codes "programlisting", one_object as_object listing_type)
    ∷ (codes "location", one_object as_object location_type)
    ∷ (codes "listofallmembers", one_object as_object listofallmembers_type)
    ∷ []

abbrev pub compounddef_type_table : Class
compounddef_type_table = record {
  name = codes "compounddefType";
  attributes = compounddef_attributes;
  family = structured_class (
      compounddef_children_from_compoundname
      ++ (compounddef_children_from_innerdir ++ compounddef_children_from_briefdescription));
}

abbrev pub listofallmembers_type_table : Class
listofallmembers_type_table = record {
  name = codes "listofallmembersType";
  attributes = [];
  family = structured_class ((codes "member", objects member_ref_type) ∷ []);
}

abbrev pub member_ref_type_table : Class
member_ref_type_table = record {
  name = codes "memberRefType";
  attributes =
      (codes "virt", quoted)
      ∷ (codes "prot", quoted)
      ∷ (codes "refid", encoded)
      ∷ (codes "ambiguityscope", encoded)
      ∷ [];
  family = structured_class ((codes "scope", one_text) ∷ (codes "name", one_text) ∷ []);
}

abbrev pub scope_class_table : Class
scope_class_table = record { name = codes "scope"; attributes = []; family = simple_class }

abbrev pub name_class_table : Class
name_class_table = record { name = codes "name"; attributes = []; family = simple_class }

abbrev pub compound_ref_type_table : Class
compound_ref_type_table = record {
  name = codes "compoundRefType";
  attributes = (codes "virt", quoted) ∷ (codes "prot", quoted) ∷ (codes "refid", encoded) ∷ [];
  family = markup_class;
}

abbrev pub reimplement_type_table : Class
reimplement_type_table = record {
  name = codes "reimplementType";
  attributes = (codes "refid", encoded) ∷ [];
  family = markup_class;
}

abbrev pub inc_type_table : Class
inc_type_table = record {
  name = codes "incType";
  attributes = (codes "local", quoted) ∷ (codes "refid", encoded) ∷ [];
  family = markup_class;
}

abbrev pub ref_type_table : Class
ref_type_table = record {
  name = codes "refType";
  attributes = (codes "prot", quoted) ∷ (codes "refid", encoded) ∷ [];
  family = markup_class;
}

abbrev pub ref_text_type_table : Class
ref_text_type_table = record {
  name = codes "refTextType";
  attributes =
      (codes "refid", encoded) ∷ (codes "kindref", quoted) ∷ (codes "external", encoded) ∷ [];
  family = markup_class;
}

abbrev pub sectiondef_type_table : Class
sectiondef_type_table = record {
  name = codes "sectiondefType";
  attributes = (codes "kind", quoted) ∷ [];
  family = structured_class (
      (codes "header", one_text)
      ∷ (codes "description", one_object as_object description_type)
      ∷ (codes "memberdef", objects memberdef_type)
      ∷ []);
}
