-- ===== src/Sources.antt =====
-- pkg/mahogany/sources and pkg/vpn: the clients of the services over HTTP.
pub mod Http
pub mod Registry
pub mod Watchtower
pub mod Vpn
pub mod Docker
mod Tests
