-- ===== src/Data.antt =====
-- ofrak_core/ofrak/service/data_service.py: the data service.
pub mod Grid
pub mod Shift
pub mod Tracker
pub mod Root
pub mod Service
