-- ===== src/Documents.antt =====
-- app/services/document_service.py and app/services/generation: the generation of documents, from the request to the stored
-- files.
pub mod Resolver
pub mod Images
pub mod Mapper
pub mod Services
pub mod Stored
pub mod Creation
pub mod Filling
pub mod Processing
pub mod Footprint
pub mod Completion
pub mod Settlement
pub mod Access
pub mod Verification
mod Tests
