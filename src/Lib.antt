-- ===== src/Lib.antt =====
-- UDM, a transport protocol over UDP that sends one file from a server to a client. This library
-- models the protocol as the sources implement it and proves what it does.
--
-- The parts and how they interact. `Session` (session.h) is a state machine that both ends run: open,
-- setup, connected, then closed and done in turn until the file is through. Its states call the
-- `Gateway` (gateway.h), which moves capsules in and out of datagrams, the `Compositor`
-- (presentation.h), which hands out capsules and writes the received window to the file, and two
-- `DataFactory` objects (datafactory.h), one for each direction, which hold capsules in a
-- `threadsafe_queue` (circular_pipeline.hpp) and load and store the file.
--
-- The files of this library:
--   Base           tests, lists and bit tests that the others share
--   Wire           datafactory.h: codes and the capsule header, as a record and as fourteen bytes
--   Queue          circular_pipeline.hpp: the linked queue over a store of nodes; Queue/Fifo is the list
--                  that it implements, and the factories hold such lists; Queue/Threads has the
--                  accesses of several threads as steps, and Queue/Interleaved what they keep
--   World          all state of a process: objects behind pointers, the globals and static locals of
--                  the sources, what comes in and what went out; actions `World → Run A`, where a run
--                  ends early by `exit`, by an undefined access, or by waiting for ever
--   Factory        datafactory.h: DataSource and DataFactory; Factory/Load proves the loading of chunks
--   Gateway        gateway.h: GatewayProcessor and Gateway; Gateway/Interfaces is PhyInterfaces
--   Presentation   presentation.h: PresentationProcessor and Compositor; Presentation/Written proves what
--                  is written to the file
--   Session        session.h: Peers (address lists), Processor (SessionProcessor), States (the state
--                  functions, submitTask and start), Keeping and Window (the receive window stays in order), Sender (one chunk),
--                  Rounds, Windows, Closed and FullWindow (closedState over the chunks of the file),
--                  Receiver (one chunk that comes in), Received and ReceivedWindow (closedState over
--                  the chunks that come in), Ack (doneState of a sender), Finish and Finished
--                  (doneState of a receiver), Loop, SentFile, WholeFile (a file that is sent),
--                  Listening, Turn and ReceivedFile (a file that comes in), Capsules, Series, Arriving
--                  and Acks (what one end sends as what comes in at the other), Transfer (a file from
--                  end to end, whose states before that Ends describes), Graph (where each state leads), Hello (the
--                  first message), Telling, Greeting and Answering (the states that tell addresses),
--                  Hearing (those that take them), Connections, Shaken, Begun and First (the first
--                  three states at either end), Whole (a session from `start` to its end), Steps
--                  (the two ends by turns), Answered, LastWindow, Exchange and Together (a session by
--                  turns)
--   Setup          how the programs get ready: Text (strcpy, to_string, atoi), Sockets (connection.h),
--                  Context (userclass.h and the constructor of DataSource), Programs
--                  (udmuser_srv.cpp, udmuser_cl.cpp); Opening, Texts, Ports, Lookup and Server prove
--                  what they do, Running and Ready what comes before the session, Download that the
--                  client gets the file of the server
--   Pool           worker_pool.hpp: thread_pool; Pool/Drained proves that its destructor ends
--   Samples        concrete worlds for the tests
-- A method keeps its name in snake case. A method of DataFactory takes the direction whose factory
-- it is called on. A raw or shared pointer to a memBuff is an address of the store; a popped object
-- dies where the shared pointer to it goes out of scope. Each malloc'd body belongs to one capsule
-- and stands in it.
--
-- Numbers: fields of the header and counters wrap at their width; an `int` is its bit pattern, and
-- an addition that overflows wraps as the two's complement does. Pointers have eight bytes.
--
-- Parameters: the record Env and the list `incoming` stand for the operating system: which calls of
-- sendto fail, what inet_addr makes of a text, which interfaces ioctl lists, what recvfrom and
-- getnameinfo deliver, what fresh memory holds, what socket, bind and getaddrinfo answer, and what
-- the files hold and which can be opened; also when ioctl fails, whether the pointer ifc_buf that
-- nothing sets happens to be null, and how many bytes a heap block holds, which are 24 at least, the
-- smallest block of the C library. Bytes that strcpy writes behind an array are counted. The one behind an
-- array of resolve and fetch_addresses goes into the padding of its heap block, and is an undefined access
-- where that has none; the one behind an address of fifteen characters in a list of interfaces goes into
-- the padding of its struct ipaddr_dummy, and is only counted.
--
-- Fuel: the loop of closedState takes the window size at its start, which falls in every round. The
-- loop of Session::start takes fuel, since it ends only when the peer says so: three states, and two
-- more for each window, are enough. The doubling loop of _noOfInterfaces takes
-- fuel for 27 rounds, in the last of which the room is more than an int counts.
-- The destructor of thread_pool takes fuel: one round more than there are tasks.
--
-- Not modelled: printing and logging, and the times that the programs measure; threads beyond those at
-- a queue, since each process runs one; that resolve reads more bytes of the first address than it
-- has; head_dataref of the queue, which does not compile when it is used; methods with an
-- empty body, and destroy of a factory, which calls one; disposeAllocedBody, which nothing
-- calls; changes of the list of interfaces while the program runs.
pub mod Base
pub mod Wire
pub mod Queue
pub mod World
pub mod Factory
pub mod Gateway
pub mod Presentation
pub mod Session
pub mod Setup
pub mod Pool
pub mod Samples
