-- ===== src/Projects.antt =====
-- src/modules/admin/projects: the parts of the administration of projects that are pure.
pub mod Merge
