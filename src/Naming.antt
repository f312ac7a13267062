-- ===== src/Naming.antt =====
-- internal/naming: the parts of the naming layer that need no model.
pub mod Attribution
pub mod Language
pub mod Franchise
pub mod Titles
pub mod Known
pub mod Figures
pub mod Prompt
