-- ===== src/Lib.antt =====
-- A verification library for cxx-util, a C++ library of containers and of helpers for Boost.Asio.
--
-- Parts, and how they interact. `PotRingbuffer` (include/util/potringbuffer.hpp) is a ring buffer
-- whose capacity is a power of two, and `PotQueue` (include/util/potqueue.hpp) a queue on it.
-- `ProducerConsumerQueue` (include/util/producerconsumerqueue.hpp) pairs data with the function
-- objects that consume them; the WebSocket message queue (include/util/asio/ws/messagequeue.hpp)
-- is built on it. `Operation` (include/util/asio/operation.hpp) runs a coroutine whose state is
-- shared by reference count. include/util/asio/setserialportoptions.hpp configures a serial port,
-- and include/util/asio/serialportopener.hpp opens one and retries: its coroutines run as such
-- operations. The acceptor and the connector (include/util/asio/ws/acceptor.hpp and connector.hpp)
-- make the connections that message queues use; they are implementations of the transparent
-- service (include/util/asio/transparentservice.hpp). Its tokens and handlers, those that carry a
-- logger (include/util/asio/associatedlogger.hpp), `Operation` and the operations of
-- include/composed/op.hpp wrap one another around a user's handler. Callbacks
-- (include/util/callback.hpp), variants (include/util/variant.hpp) and versions
-- (include/util/version.hpp) stand alone, and so do the set-up of logging (src/log.cpp), whose
-- records carry the time stamps of include/util/logsafely.hpp, and the small functions of
-- include/util/global.hpp, include/util/tohexstring.hpp, src/programpath.cpp and src/iothread.cpp.
--
-- Files. Prelude: lists, bits, 64-bit words and integers that the parts share. RingBuffer: the
-- members of `PotRingbuffer`, with `mBegin`, `mEnd` and `mData` as a record; RingBuffer/Deque is
-- the bounded deque that it promises, RingBuffer/Invariant what a valid ring is and the elements
-- it holds, Index, Gap, Window, Moves, Size and Ends the lemmas on its indices, Refine and Run the
-- results; RingBuffer/Queue is `PotQueue`. ProducerConsumer: `consume`, `produce`, `depth` and the
-- loop of `post`, with handlers that may call the queue again; Rule is the induction over its
-- runs, History, Depth and Total the results, Quiet the case of handlers that do not call it,
-- Asked and Enough that of handlers that only consume, and Closing the two loops with which its
-- users empty it. WebSocket/ErrorCode: error codes. WebSocket/MessageQueue: the data of
-- `MessageQueueImpl`, with Operations its members, Receive its events in any order, and Close its
-- `close`. SerialPort/Options: `tenaciousSetOption` and `setSerialPortOptions`; Attempts, Order
-- and Thrown its results; SerialPort/Termios the terminal's attributes that it sets.
-- SerialPort/Opener: `asyncOpen` and `close` as steps on the timer, the port and the place where
-- the coroutine resumes; Safety and Cancel its results. SerialPort/Retry: `asyncOpenUntilSuccess`
-- over it; Success and Persistence its results. Operation: `OperationState` and `Operation` of
-- version 2; Spec is what they promise, Handles and Invariant the count of references, Results and
-- Once the results. Operation/Version1 is version 1, with Steps on each step of both versions, and
-- Versions the run of version 2 that goes with a run of it. WebSocket/Acceptor: `AcceptorImpl` on
-- a `ProducerConsumerQueue`; Service its events in any order, with ProducerConsumer/Served, Ending
-- and Answers what they lead to without `close`, Close and Endless its `close`.
-- WebSocket/Connector: `ConnectorImpl` with its map of nascent connections; Runs is what its runs
-- keep, Balance and Once count the handlers it calls, and Fit and Connected are on their message
-- queues. WebSocket/Session: a connector and the message queues that it gives connections to.
-- Handler: the tokens and handlers that wrap one another, with Forwarding, Delivery and Loggers on
-- their hooks, calls and loggers. IoObject: `TransparentService`, `TransparentIoObject` and the
-- methods of the macro, with Owned on the implementations, Method on the tokens and Pending on
-- both. Composed: `op`, `op_continuation` and `start_op` of include/composed/op.hpp, with what
-- they promise (Spec) and Runs on both; AsyncRun is `async_run`, HandlerPtr
-- include/composed/handler_ptr.hpp with Lifetime on its object, Stdlib the integer sequences of
-- include/composed/stdlib.hpp. Callback: include/util/callback.hpp, with Signal. Variant:
-- include/util/variant.hpp, with Swap on its moves. Version: the comparisons of
-- include/util/version.hpp and src/version.cpp, with Order and Laws on the orders of what a
-- version has, Identifiers a documented pair of comparisons, Operators, and Classes on the
-- versions up to `==`; Version/Spirit is what is asked of the parsers and generators of
-- Boost.Spirit, Grammar the rules of src/version.cpp, its `parse` and its output, Text the texts
-- of versions, Parsing, Printing and RoundTrip the results, and Engine an instance of the parsers
-- and generators. TimeStamp: the output of clocks and timers, with Order on their texts. Log: the
-- notifiers of the logging options and the default formatter, with Sinks, Directory and Lines.
-- Global: `global`, with Single. ProgramPath: `programPath` on Windows, with Loop. IoThread: the
-- thread of an I/O context, with Join. HexString: `toHexString`, with Read. Fold: `any` and `max`.
-- Tuple: the index sequences of include/util/index_sequence.hpp and `applyTuple` of
-- include/util/applytuple.hpp; Indices their results. The modules whose names end in Tests hold
-- runs at concrete inputs, and the theorems at such inputs.
--
-- Bounds. `size_t` has 64 bits, and its sums wrap. A ring's capacity is 2 ^ k with k below 63,
-- since its indices run to twice the capacity. `depth` is an `int` of 32 bits, so the results on
-- it ask for fewer than 2 ^ 31 entries. A count of references stays below 2 ^ 64. Fuel. The loop
-- of `post` takes fuel, since handlers may feed the queue for ever: fuel for each handler that
-- waits or comes is enough where handlers do not consume, and for each datum where they do not
-- produce. The message queue gives its loops a round for each entry, `tenaciousSetOption` has one
-- for each attempt, and the template recursion of an index sequence one more than the number of
-- its indices. A handler's dispatches are one for each `TransparentHandler` it has. An acceptor's
-- `close` takes fuel for its two loops. The loop of `programPath` has 17 calls, since its buffer
-- doubles from 1 to 2 ^ 16. Decimal digits have fuel above the number.
--
-- Not modelled. Asio, Boost.Log, beast and websocketpp are parameters: the answers of a
-- connection, of a device and of an implementation are functions, and so is what Asio knows of a
-- user's handler, and boost's comparisons of optional values; the parsers and generators of
-- Boost.Spirit are parameters with what is documented of them, and so are file systems and system
-- calls. Log messages are left out. Threads are not modelled: the code runs on one thread of the
-- context, as events in any order. Nothing is modelled of the loggers of include/composed, of
-- overloads, which are chosen at compile time, of a construction that throws in `makeOperation` or
-- `makeOperationState`, of the owners of an implementation besides its I/O object and of its
-- destruction, of the messages of Windows and websocketpp, and of the functions on files and
-- floating point numbers.
pub mod Prelude
pub mod RingBuffer
pub mod ProducerConsumer
pub mod WebSocket
pub mod SerialPort
pub mod Operation
pub mod Tuple
pub mod Handler
pub mod Fold
pub mod Variant
pub mod Callback
pub mod Composed
pub mod IoObject
pub mod Version
pub mod TimeStamp
pub mod Log
pub mod Global
pub mod ProgramPath
pub mod IoThread
pub mod HexString
