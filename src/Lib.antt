-- ===== src/Lib.antt =====
-- Software on silicon: a byte-wide link between an FPGA and a microcontroller, and the buffers on
-- both sides of it.
--
-- The parts of the program, from the wire up, and the modules that model them:
--
-- - Errors (Code, Message, Decode): impl/error.cpp. `logic_error` and `runtime_error` print a report
--   and abort, so a call is an `Outcome`: it returns, it has aborted with a code, or it spins on a
--   flag that another thread holds. `Safe` says that a call does not spin, and what holds if it
--   returns.
-- - Signals: the atomic flags of include/software-on-silicon/INTERFACE.hpp and rtos_helpers.hpp.
-- - Com (Offsets): `ComBus` of rtos_helpers.hpp, with `read_byte` and `write_byte` of
--   ByteWiseTransfer.hpp.
-- - Wire (Bits, RoundTrip): the codec of `BlockWiseTransfer` in ByteWiseTransfer.hpp. Three bytes
--   travel as four, with six payload bits in each and two bits left to the handshake signals. A
--   bitset is the number that `to_ulong` gives, and a shift cuts at the width of the bitset.
-- - Sync (Laws): `SyncProcessor` of ByteWiseTransfer.hpp over the `SerialResolverBus` of
--   SerialNotifier.hpp: the switches that tell the resolver what became of each object, and the
--   descriptors under their lock. Memory is a function from addresses to bytes.
-- - Block (Sender, Receiver, Exchange, Groups, Transfer; Sound, Change, WriteSound, StoreSound,
--   ReadSound): `write_object` and `read_object` of `BlockWiseTransfer`.
-- - Serial (State, Crossover, Queries, Requests, ReadHook, WriteHook, EventLoop; Ready, Incoming,
--   Outgoing, Invariant, Runs, Signalling): `Serial` of Serial.hpp with the crossovers of MCUFPGA.hpp
--   and the overridden functions of impl/MCUFPGA.cpp. `Role` says which of the two sides it is.
-- - Ring (Gather, Fifo): RingBuffer.hpp and `WriteInterleaved` of ringbuffer_helpers.hpp.
-- - Memory (Writer, Reader): MemoryController.hpp with the tasks of impl/RingToMemory.cpp.
-- - Resolver (Contract, Rest): `SequentialResolverDSP` and `REST` of SerialNotifier.hpp, the client of
--   the switches and its host.
-- - Ring.Producer and Memory.Producer: the hosts of test/test_ringbuffer.cpp and
--   test/test_ringtomemory.cpp.
-- - Memory.Priority (Pattern): the writer of impl/MemoryController.cpp. Memory.Request: the bus of a
--   reader and its event loop. Memory.Wait: the flag between a reader and the writer of
--   MemoryController.hpp, one access at a time.
-- - Wire.Numbers: the conversions of serial_helpers.hpp.
-- - Loop (Stages, Ending, Unstarted): `Loop` of INTERFACE.hpp, the thread that calls an event loop
--   and the owner that starts and destroys it, one access to the stop token at a time.
-- - Timed (Counts, Marks with Turns, Kept and Alternation, Exclusion): the timer of
--   simulation_helpers.hpp and the lights and controllers of impl/Controller.cpp and
--   impl/EventLoop.cpp.
-- - Boot (Children): the bootstrap controllers of rtos_helpers.hpp.
-- - Counter: impl/MCUFPGA/SymbolRateCounter.cpp.
-- - Descriptors (Variants, Lifetime): impl/FPGAInitialisers.cpp, cpp14.hpp and cpp17.hpp, and the
--   constructor and destructor of `SerialResolverBus`. The tuple of objects is handed over by value
--   there; elsewhere the addresses of the objects are those that the descriptors hold.
-- - Resolver.Echo: the hosts of impl/MCUFPGA.cpp. Memory.Settled: the way from the ring buffer through the memory to a reader.
-- - Serial.Link (Safety, Token, Progress, Channel, Fifo): the wire of test/test_mcufpga.cpp between
--   the two endpoints. Serial.Frame (Outgoing), Block.Frame, Errors.Yields: what leaves the
--   port's flags alone. Serial.Shutdown: the destructors of impl/MCUFPGA.cpp.
-- - Controllers (Cascade, Passthru): the controller classes of INTERFACE.hpp, rtos_helpers.hpp,
--   MemoryController.hpp and SerialNotifier.hpp. A reference is the address of a bus in a store, which
--   says what is constructed at each address. Controllers.Passthru (Buffers, Endpoints): the classes
--   of impl/RingToMemory.cpp, impl/MemoryController.cpp and impl/MCUFPGA.cpp, with the order in which
--   their bases and members are constructed.
-- - Session: the loop of main of test/test_mcufpga.cpp with its two signal handlers.
-- - Base holds what the modules share, and Tests the samples and the theorems applied to them.
--
-- A call of `Serial::event_loop` is a function from a state to an outcome. It looks at the port's
-- flag, reads a byte, its signals, and what they announce, settles requests, and sends the next
-- byte, which is a request, a byte of an object, or an idle. The layers are called as the code calls
-- them: Serial uses Block, Block uses Sync, Com and Wire. What other threads do between two calls is
-- a step of its own in `Serial.Runs.Run`, and a list of the states met in `Memory.read`.
--
-- Loops over the descriptors are recursions on their number. The loop of the ring buffer's
-- `read_hook` takes the size of the buffer as fuel, which is enough since a reader is never more than
-- that many values behind. A loop that waits for the lock of the descriptors is `spin` when the
-- lock is held. `size_t` counters wrap at `2 ^ 64` and an `unsigned char` at 256.
--
-- Output to the terminal other than what the controllers print, measured time, and the programs in
-- test/ and stage5/ other than the wire, the end of its main and the hosts that write into the ring
-- buffer are not modelled, and neither are the parts of MCUFPGA.cpp that set objects and print
-- them. In Loop, Memory.Wait, Timed.Exclusion and Timed.Marks each access to a flag is a step of its
-- own; elsewhere a flag changes in one step with the state it belongs to. The memory order of the
-- atomic operations is the strongest, which is the default that the code uses.
pub mod Base
pub mod Errors
pub mod Loop
pub mod Timed
pub mod Counter
pub mod Boot
pub mod Descriptors
pub mod Signals
pub mod Wire
pub mod Com
pub mod Controllers
pub mod Sync
pub mod Block
pub mod Serial
pub mod Ring
pub mod Memory
pub mod Session
pub mod Resolver
pub mod Tests
