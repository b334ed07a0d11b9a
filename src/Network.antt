-- ===== src/Network.antt =====
-- src/modules/connectivity/network: watching whether an address answers, over ICMP echo requests.
pub mod Checksum
pub mod Echo
pub mod Watch
pub mod Registry
pub mod PublicIp
pub mod Online
mod Tests
