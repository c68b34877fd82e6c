-- ===== src/Config.antt =====
-- src/tcpd_config.c and src/udpd_config.c: the settings of an endpoint.
pub mod Tcp
pub mod Udp
pub mod Copies
mod Tests
