-- ===== src/Evolution.antt =====
-- How procedures are learnt, kept and promoted: src/pyclaw/core/sop_extraction.py, src/pyclaw/core/skill_graduation.py and
-- src/pyclaw/core/curator.py.
pub mod Segments
pub mod Extraction
pub mod Jobs
pub mod Sop
pub mod Graduation
pub mod Procedures
pub mod Scan
pub mod Review
pub mod Cycle
pub mod Examples
pub mod Samples
