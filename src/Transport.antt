-- ===== src/Transport.antt =====
-- How bytes travel between the debugger and the host (src/transport): the frames of the multiplexed
-- serial port.
pub mod Serial
pub mod Cobs
pub mod Mux
pub mod User
pub mod Stdio
pub mod Foreign
