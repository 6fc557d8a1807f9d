-- ===== src/Service.antt =====
-- internal/service: the slots of the backend array, and the Maglev table.
pub mod Slots
