-- ===== src/Lib.antt =====
-- The Python code of gr-digitizers: the utilities that generate sources at build time
-- (python/build_utils.py, python/build_utils_codes.py), and the documentation generator
-- (docs/doxygen/swig_doc.py), which reads Doxygen's XML through docs/doxygen/doxyxml and writes the
-- docstrings of the SWIG interface; and, of the examples, two Python blocks that build a filter and two
-- flow graphs that are reconfigured while they run.
--
-- How the parts map to files:
--   Prelude      strings as lists of character codes, dictionaries as association lists in the
--                order of insertion, results with the exceptions of the program, and methods that
--                change state and may raise (`Exec`: what was written before a raise stays).
--   Codes        build_utils_codes.py: the letters of a type code and their C types.
--   BuildUtils   build_utils.py. Settings: the module-level switches. Template: `do_substitution`
--                and `extract_extension`, their regular expressions as scanners. Log: `name_dict`
--                and `log_output_name`. Dicts: `standard_dict` and its two variants. Generate: the
--                functions that write files, on a world of the log and the files.
--   Doxy         doxyxml. Data: what the XML readers return. Describe: text.py. Quote: the
--                quoting of generated/indexsuper.py. Dom: the nodes of xml.dom.minidom, and (Grammar)
--                the XML that they are written in. Index: the classes of generated/indexsuper.py and
--                index.py, with `build`; Index/Export, Index/Literal and Index/Find: their `export`,
--                `exportLiteral` and searches. Compound: how generated/compoundsuper.py and
--                compound.py build descriptions, (Compound/Params) parameter lists and
--                (Compound/Member) members, (Compound/Definition) whole compounds, and
--                (Compound/Find) the searches. Schema: all classes of compoundsuper.py, a table of each
--                in Schema/Tables, with what they share: Schema/Object (`__init__`, `factory`),
--                Schema/Access (accessors), Schema/Build, Schema/Export and Schema/Literal. Heap: the
--                objects of class `Base` by number, the index beside them, and the registry `_refs`.
--                Convert: `from_refid`, `from_parse_data`, `convert_mem`. Fields and Parse: the
--                `_parse` of every class of doxyindex.py and the accessors of `Base`. Lookup:
--                `in_category`, `_get_dict_members`, `get_member`, `has_member`, with their caches.
--   SwigDoc      swig_doc.py. Texts: the string functions. Entries: the docstring entries.
--                Interface: the categories `Block` and `Block2`, `make_swig_interface_file`.
--   Filter       examples/SAT/reference/blocks_custom_filter_0.py (Custom) and Reference
--                Implementation/epy_block_0.py beside it (Embedded), on what both use (Kit).
--   FlowGraph    PostFilter: Reference Implementation/dcct_post_filter.py, its variables, the block
--                parameters that depend on them, and (Setters) its setters. ErrorPropagation: likewise
--                for B3_ErrorPropagation.py beside it.
-- The build utilities share only the type codes and the log. swig_doc.py calls the lookups of
-- doxyxml, which parse an object when it is first asked for, and so change the heap.
--
-- Parameters: the text of a template file; the document that a file of XML holds, or how reading it
-- fails; the arithmetic of Python's numbers (`Arith`) and the design of the low pass of
-- B3_ErrorPropagation.py; GNU Radio's filter design, its filters and their methods (`Filter.Kit`). The
-- proof that the embedded block's setter agrees with its constructor takes as hypotheses that FIR
-- filters of the two designs can be made, and that the taps of the first can be replaced. `get_member`
-- runs on fuel, the length of the name and one more; each step takes a part of the name off, so this
-- is enough. All else is structural recursion.
--
-- The classes of compoundsuper.py differ in their attributes and children only, so a table of a class
-- says which it has, and the methods take the table; a table stands for all methods of its class. An
-- object is one of the class as compoundsuper.py declares it, made by `factory` without arguments; what
-- `'%s'` gives of an object is a parameter (`repr`). An integer is its decimal numeral.
--
-- Texts are lists of code points. `strip` removes the white space of Unicode; `int` reads ASCII digits and
-- signs, while Python also takes the decimal digits of other scripts. The file that an export writes to
-- takes every Unicode text, as one of the codecs module or a terminal with UTF-8; only the calls of
-- `encode` raise UnicodeEncodeError there. In swig_doc.py `format` of a str raises it too. What a build of a
-- document raises is an outcome of its parameter (`invalid`), and the `compounddef` may be missing.
--
-- Not modelled: messages to stdout and stderr, the command lines of swig_doc.py, indexsuper.py and
-- compoundsuper.py, the number formats of `MixedContainer.exportSimple`, which no class asks for; of
-- compound.py, constructors with arguments; the other flow graphs of the examples and the connections
-- and looks of the two that are modelled, and the signals of their widgets; the C++ blocks and the
-- CMake files.
pub mod Prelude
pub mod Codes
pub mod BuildUtils
pub mod Doxy
pub mod SwigDoc
pub mod Filter
pub mod FlowGraph
