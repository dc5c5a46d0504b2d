-- ===== src/SerialPort.antt =====
-- Opening a serial port: include/util/asio/setserialportoptions.hpp and
-- include/util/asio/serialportopener.hpp.
pub mod Options
pub mod Termios
pub mod Opener
pub mod Retry
mod Tests
mod RetryTests
mod TermiosTests
