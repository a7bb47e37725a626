-- ===== src/Domain.antt =====
-- apps/api/internal/domain: the enumerations and records that the services share.
pub mod Role
pub mod Status
pub mod Entities
pub mod Classify
pub mod Location
pub mod Template
pub mod Content
pub mod Datasets
pub mod Searches
