-- ===== src/WebSocket.antt =====
-- The WebSocket message queue of include/util/asio/ws/messagequeue.hpp. Boost.Asio and websocketpp
-- are not modelled: what they report (error codes, messages) is an argument of the step that reads
-- it, and what the code posts to the `io_service` is a list in the order of posting, whose elements
-- the environment runs.
pub mod ErrorCode
pub mod MessageQueue
pub mod Acceptor
pub mod Connector
pub mod Session
