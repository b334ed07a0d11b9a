-- ===== src/Cloud.antt =====
-- src/modules/connectivity/cloud/artik_cloud.c: the client of the ARTIK Cloud services.
pub mod Text
pub mod Http
pub mod Requests
pub mod Functions
pub mod Api
pub mod Rules
pub mod Balance
pub mod Limits
pub mod Stream
mod Tests
