-- ===== src/Import.antt =====
-- app/services/docx_template_import_service.py: the fields that are found in a regular DOCX document, and the bindings
-- that a user confirms or selects.
pub mod Patterns
pub mod Spans
pub mod Labels
pub mod Keys
pub mod Candidates
pub mod Plain
pub mod Validity
pub mod Bindings
pub mod Confirmation
pub mod Filling
pub mod Selecting
mod Tests
