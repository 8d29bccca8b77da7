-- ===== src/Doxy/Data.antt =====
-- The objects that the XML readers of docs/doxygen/doxyxml/generated return, with the attributes
-- that doxyxml looks at.
use gr_digitizers.Prelude.{Option, List}
use gr_digitizers.Prelude.Str.{Str}
use gr_digitizers.Prelude.Result.{Error}

-- A value as `description_bit` sees it: a string, or an object by those of its attributes `content`,
-- `content_`, `value` and `name` that it has.
mutual
  pub data Node : Type 0 where
    string : Str → Node
    object : Contents → Contents → Value → Option Str → Node

  pub data Contents : Type 0 where
    no_contents : Contents
    contents : Nodes → Contents

  pub data Nodes : Type 0 where
    nil : Nodes
    cons : Node → Nodes → Nodes

  pub data Value : Type 0 where
    no_value : Value
    value : Node → Value

-- `parameteritem`: its lists of names, and its description.
pub record ParameterItem : Type 0 where
  pub names : List (List (Option Node))
  pub description : Option Node

-- `detaileddescription`: its text, and for each of its parts the `parameterlist` of the part's value,
-- if the value has one.
pub record Detail : Type 0 where
  pub text : Node
  pub parts : List (Option (List (List ParameterItem)))

-- `param`
pub record ParamData : Type 0 where
  pub declname : Str
  pub brief : Option Node

-- What `convert_mem` takes: a `compound` of the index, which has a `refid`, or a `memberdef`, which
-- has none but the descriptions and the parameters.
pub record ParseData : Type 0 where
  pub kind : Str
  pub refid : Option Str
  pub name : Str
  pub brief : Option Node
  pub detail : Option Detail
  pub params : List ParamData

-- `compounddef`
pub record CompoundDef : Type 0 where
  pub title : Option Node
  pub brief : Option Node
  pub detail : Option Detail
  pub innergroup : List Str
  pub innerclass : List Str
  pub sections : List (List ParseData)

-- What reading a file of XML gives: `malformed` stands for an `ExpatError`, `unreadable` for an
-- `IOError`, and `invalid` for an error that the build of the document raises.
pub data Xml (A : Type 0) : Type 0 where
  well_formed : A → Xml A
  malformed unreadable : Xml A
  invalid : Error → Xml A
