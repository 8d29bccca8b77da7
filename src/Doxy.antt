-- ===== src/Doxy.antt =====
-- docs/doxygen/doxyxml: text.py, base.py and doxyindex.py, over what the XML readers return.
pub mod Data
pub mod Quote
pub mod Dom
pub mod Compound
pub mod Index
pub mod Schema
pub mod Describe
pub mod Heap
pub mod Convert
pub mod Fields
pub mod Parse
pub mod Lookup
pub mod Tests
