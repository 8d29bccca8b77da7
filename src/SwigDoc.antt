-- ===== src/SwigDoc.antt =====
-- docs/doxygen/swig_doc.py
pub mod Texts
pub mod Entries
pub mod Interface
mod Tests
