-- ===== src/Loop.antt =====
-- src/modules/base/loop: the main loop, of the TizenRT build and of the Linux build.
pub mod Vector
pub mod Watchers
pub mod Linux
