-- ===== src/Doxy/Schema/Tables/Members.antt =====
-- The classes of compoundsuper.py for the members and the texts in them. A table
-- stands for all methods of its class: __init__ and the accessors (Schema/Object, Schema/Access),
-- build (Schema/Build), export (Schema/Export) and exportLiteral (Schema/Literal), with their parts.
use gr_digitizers.Prelude.{List, [], ◌∷◌, ◌++◌}
use gr_digitizers.Prelude.Str.{Str, codes}
use gr_digitizers.Doxy.Schema.{
  Class, Attribute, ChildKind, encoded, quoted, as_object, one_text, one_object, objects,
  simple_part, complex_part, structured_class, simple_class, mixed_class, reimplement_type,
  description_type, enumvalue_type, templateparamlist_type, param_type, linked_text_type,
  reference_type, location_type, doc_sect1_type, doc_internal_type, doc_title_type, doc_para_type,
}

abbrev pub memberdef_attributes : List Attribute
memberdef_attributes =
    (codes "initonly", quoted)
    ∷ (codes "kind", quoted)
    ∷ (codes "volatile", quoted)
    ∷ (codes "const", quoted)
    ∷ (codes "raise", quoted)
    ∷ (codes "virt", quoted)
    ∷ (codes "readable", quoted)
    ∷ (codes "prot", quoted)
    ∷ (codes "explicit", quoted)
    ∷ (codes "new", quoted)
    ∷ (codes "final", quoted)
    ∷ (codes "writable", quoted)
    ∷ (codes "add", quoted)
    ∷ (codes "static", quoted)
    ∷ (codes "remove", quoted)
    ∷ (codes "sealed", quoted)
    ∷ (codes "mutable", quoted)
    ∷ (codes "gettable", quoted)
    ∷ (codes "inline", quoted)
    ∷ (codes "settable", quoted)
    ∷ (codes "id", encoded)
    ∷ []

abbrev pub memberdef_children_from_templateparamlist : List (Str × ChildKind)
memberdef_children_from_templateparamlist =
    (codes "templateparamlist", one_object as_object templateparamlist_type)
    ∷ (codes "type", one_object as_object linked_text_type)
    ∷ (codes "definition", one_text)
    ∷ (codes "argsstring", one_text)
    ∷ (codes "name", one_text)
    ∷ (codes "read", one_text)
    ∷ (codes "write", one_text)
    ∷ (codes "bitfield", one_text)
    ∷ []

abbrev pub memberdef_children_from_reimplements : List (Str × ChildKind)
memberdef_children_from_reimplements =
    (codes "reimplements", objects reimplement_type)
    ∷ (codes "reimplementedby", objects reimplement_type)
    ∷ (codes "param", objects param_type)
    ∷ (codes "enumvalue", objects enumvalue_type)
    ∷ (codes "initializer", one_object as_object linked_text_type)
    ∷ (codes "exceptions", one_object as_object linked_text_type)
    ∷ (codes "briefdescription", one_object as_object description_type)
    ∷ (codes "detaileddescription", one_object as_object description_type)
    ∷ []

abbrev pub memberdef_children_from_inbodydescription : List (Str × ChildKind)
memberdef_children_from_inbodydescription =
    (codes "inbodydescription", one_object as_object description_type)
    ∷ (codes "location", one_object as_object location_type)
    ∷ (codes "references", objects reference_type)
    ∷ (codes "referencedby", objects reference_type)
    ∷ []

abbrev pub memberdef_type_table : Class
memberdef_type_table = record {
  name = codes "memberdefType";
  attributes = memberdef_attributes;
  family = structured_class (
      memberdef_children_from_templateparamlist
      ++ (memberdef_children_from_reimplements ++ memberdef_children_from_inbodydescription));
}

abbrev pub definition_class_table : Class
definition_class_table = record {
  name = codes "definition";
  attributes = [];
  family = simple_class;
}

abbrev pub argsstring_class_table : Class
argsstring_class_table = record {
  name = codes "argsstring";
  attributes = [];
  family = simple_class;
}

abbrev pub read_class_table : Class
read_class_table = record { name = codes "read"; attributes = []; family = simple_class }

abbrev pub write_class_table : Class
write_class_table = record { name = codes "write"; attributes = []; family = simple_class }

abbrev pub bitfield_class_table : Class
bitfield_class_table = record { name = codes "bitfield"; attributes = []; family = simple_class }

abbrev pub description_type_table : Class
description_type_table = record {
  name = codes "descriptionType";
  attributes = [];
  family = mixed_class (
      (codes "title", complex_part doc_title_type)
      ∷ (codes "para", complex_part doc_para_type)
      ∷ (codes "sect1", complex_part doc_sect1_type)
      ∷ (codes "internal", complex_part doc_internal_type)
      ∷ []);
}

abbrev pub enumvalue_type_table : Class
enumvalue_type_table = record {
  name = codes "enumvalueType";
  attributes = (codes "prot", quoted) ∷ (codes "id", encoded) ∷ [];
  family = mixed_class (
      (codes "name", simple_part)
      ∷ (codes "initializer", complex_part linked_text_type)
      ∷ (codes "briefdescription", complex_part description_type)
      ∷ (codes "detaileddescription", complex_part description_type)
      ∷ []);
}

abbrev pub templateparamlist_type_table : Class
templateparamlist_type_table = record {
  name = codes "templateparamlistType";
  attributes = [];
  family = structured_class ((codes "param", objects param_type) ∷ []);
}

abbrev pub param_type_table : Class
param_type_table = record {
  name = codes "paramType";
  attributes = [];
  family = structured_class (
      (codes "type", one_object as_object linked_text_type)
      ∷ (codes "declname", one_text)
      ∷ (codes "defname", one_text)
      ∷ (codes "array", one_text)
      ∷ (codes "defval", one_object as_object linked_text_type)
      ∷ (codes "briefdescription", one_object as_object description_type)
      ∷ []);
}

abbrev pub declname_class_table : Class
declname_class_table = record { name = codes "declname"; attributes = []; family = simple_class }

abbrev pub defname_class_table : Class
defname_class_table = record { name = codes "defname"; attributes = []; family = simple_class }

abbrev pub array_class_table : Class
array_class_table = record { name = codes "array"; attributes = []; family = simple_class }
