-- ===== src/Mavlink.antt =====
-- components/mav: the MAVLink side of the firmware.
pub mod Ftp
pub mod GsNetwork
pub mod Dispatcher
pub mod FtpClient
pub mod Wifi
pub mod ApVer
mod Tests
