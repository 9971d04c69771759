-- ===== src/Lib.antt =====
-- Verification of CANnect, a C++ library for the CAN-TS protocol: nodes on a CAN bus exchange
-- telecommands, telemetry, unsolicited telemetry, time synchronisation, and blocks of up to 512 bytes
-- that are written to a peer (SETBLOCK) or read from it (GETBLOCK).
--
-- The parts and how they interact. `Cannect` and its `CanDispatcher` own the interfaces and run a
-- thread for each, which filters the frames that it receives and gives them to the receivers. A
-- receiver is a `CanTsProtocol`: it decodes the identifier of the frame, drops what is not addressed to
-- the node, and calls the handler of the message type; block frames go to its `SetBlockManager` and its
-- `GetBlockManager`, which send their answers through the protocol's `sendFrame`. The application calls
-- `sendTelecommand`, `requestTelemetry`, `setBlock` and `getBlock` from threads of its own; these wait
-- for what the interface thread writes to the pending request.
--
-- The files and the code, by paths from the root of the repository:
-- - Types: include/cannect/Types.hpp, include/cannect/cants/Types.hpp, include/cannect/Status.hpp.
-- - Codec, and Codec/ for its theorems: src/cants/CanTsCodec.hpp. Numbers are natural numbers; every
--   cast and shift has its width written out (Base/Words). Bits relates the bit operations to
--   arithmetic.
-- - Wire: the frame that `CanTsProtocol::sendFrame` (src/cants/CanTsProtocol.cpp) builds.
-- - SetBlock/State, Receiver and Sender: src/cants/SetBlockManager.cpp and
--   include/cannect/cants/SetBlockManager.hpp. State has the fields; Receiver is `onFrame`, one function
--   for each case of its switch; Sender is `setBlock`, one function for each part between two waits.
--   The other files of SetBlock/ hold theorems: Sessions, Delivery and Once on the receiving node;
--   Pending, Seen and Success on the sending node; Blocks on how the data is cut; Link, Peer,
--   Transfers, Report, Answers, Finish, Transaction, Addressed and Senders on two nodes together.
-- - GetBlock/State, Provider and Requester: src/cants/GetBlockManager.cpp and
--   include/cannect/cants/GetBlockManager.hpp, in the same way. Progress, Cut, Link, Collect, Serve,
--   Answers, Transaction, Sessions, Kept, Success, Addressed and Senders hold theorems.
-- - Protocol/State, Handling and Calls: src/cants/CanTsProtocol.cpp and
--   include/cannect/cants/CanTsProtocol.hpp. Handling is `onFrame` with the handlers; Calls are the
--   calls of the application. Routing, Peers, Pending, Telecommand, Cache, Telemetry, Wire, Exchange and
--   Reading hold theorems. Heard and Hearing say which frames the block managers handle; Blocks,
--   Serving, Parts and Writing lift a block write to the frames of two nodes, and BlockReads, with
--   BlockReads/Parts and BlockReads/Answered, a block read.
-- - Dispatcher: src/CanDispatcher.cpp and src/Cannect.cpp. Names, Runs and Given hold theorems; Registry
--   is what the dispatcher promises, with Entries and Refines for the proof.
-- - Waiting: `waitSignal` and the signal handler of src/Cannect.cpp; Ends and Lost hold theorems.
-- - Logger: src/Logger.cpp, include/cannect/Logger.hpp, LogSinks.hpp and ILogSink.hpp; Received holds
--   theorems.
-- - App: the console program. Numbers, Reader, Options, Interface and Commands are src/app/Cli.cpp with
--   src/app/Cli.hpp; Printing and Handlers are src/app/Handlers.cpp; Main is src/app/main.cpp; Text is what
--   they share. Numbers/RoundTrip, Reader/Bytes, Options/Spelled, Interface/Split, Commands/Telecommand,
--   Printing/Addresses, Handlers/Reads, Main/Ends, Main/Left and Main/Sends hold theorems.
-- - Socket: src/SocketCanInterface.cpp and include/cannect/SocketCanInterface.hpp. State and Frames hold
--   theorems.
-- - Examples: the theorems at concrete inputs, and runs of the definitions.
-- - Base, and Base/: lists, Boolean tests and machine words that the other files share.
--
-- How the state is modelled. A manager is a record; an operation returns the new record with what it
-- did outside (`Effect`): the calls of `frameSender`, of the transmitter, and of the callbacks. The map of
-- sessions is a function of the peer's address. A callback is a function from its arguments to its
-- answer and to what it writes. What a transmitter answers is a function of the frame. What a system
-- call answers is an argument, and so are the constants of linux/can.h.
--
-- Threads. A locked section is one step. A call that waits is cut where it does not hold the mutex; the
-- frames that the interface thread handles there are arguments (`Gaps`, or a list of arrivals), so the
-- theorems hold for any frames between the parts, and for a wait that ends early or times out. One thread
-- calls `setBlock` or `getBlock` of a manager at a time, and one interface thread calls `onFrame`, so the
-- three locked sections of a STATUS_REQUEST are one step. There is no fuel:
-- every loop of the code runs over a list or up to a bound and is structural recursion; `runInterface`
-- runs over what `receive` answers while the dispatcher runs.
--
-- The console program. A text is the list of its bytes. A function that may throw returns a result, and
-- one of `ArgReader` passes the reader on. `std::stoul` is written out for base 0 and an `unsigned long` of
-- 64 bits. What a stream prints of a number takes fuel, one more than the number, which has fewer digits
-- than that. A command runs against a protocol of Protocol, with the frames that arrive meanwhile as an
-- argument; the time that it may wait is read and left open there.
--
-- Not modelled: the text of `printUsage` and what `main` prints, the calls that the library makes of the
-- logger, the interface thread's reading of the filters and receivers while another thread adds to them,
-- and what happens on a frame whose DLC is above 8, where the code reads past the frame. The destructors
-- of `Cannect` and `CanDispatcher` are modelled where `main` ends. A second thread that calls `setBlock` or
-- `getBlock` while a transaction is pending overwrites it, which is not modelled. That `waitSignal` and a
-- command end is left to their own theorems: `main` is modelled for what it does when they do. `addInterface` is modelled for an interface that is not null.
pub mod Base
pub mod Bits
pub mod Types
pub mod Codec
pub mod Wire
pub mod SetBlock
pub mod GetBlock
pub mod Protocol
pub mod Dispatcher
pub mod Socket
pub mod App
pub mod Logger
pub mod Waiting
pub mod Examples
