-- ===== src/Resource.antt =====
-- ofrak_core/ofrak/service/resource_service.py: the resource service.
pub mod Index
pub mod Node
pub mod Store
pub mod Filter
pub mod Query
