-- ===== src/Main.antt =====
-- The application of src/main.c: the timer of the light, the update of the dongle itself, and the
-- start.
pub mod Led
pub mod Update
pub mod Boot
pub mod Start
pub mod Init
mod Tests
