-- ===== src/Lib.antt =====
-- ZIP: a bank that moves money between clients over UDP, with a multi-threaded server.
--
-- The program has a server (server/), a client (client/), code that both use (shared/) and a test
-- driver (tests/). A client finds the server by a DISCOVERY packet, which opens an account, and
-- then sends TRANSACTION_REQUEST packets, one at a time, each until it is acknowledged. The server
-- starts a thread for each packet; the threads share a map of accounts with a lock for each entry.
--
-- The modules:
--   Prelude: names of the libraries passed on, Boolean tests, wrap-around arithmetic (Words), and
--     families of threads with sums over them (Family), text and what the program uses of the
--     standard library to read it (Text, Scan).
--   Packet: `Packet`, its payload union and its factories (shared/include/packet.h). The union is
--     two words that both payloads name. Memory that the source leaves uninitialised is an
--     argument. Wire has the 16 bytes of a packet in memory, which the sockets carry.
--   Net: `SocketAddress` and `UDPSocket` (shared/include/udp_socket.h, shared/src/udp_socket.cpp).
--     The conversions of the platform (`htons`, `inet_pton`, ...) are the interface `Inet`; the
--     answers of the operating system are arguments of each socket operation.
--   LockedMap: `LockedMap` and `Entry` (server/include/locked_map.h). Lock has the counters of an
--     entry's lock and each lock operation; the module itself has the operations of the map, as
--     one thread runs them; View, Operations and PairOperation have what they do to the map's
--     contents. Threads has any number of threads at one lock, with sleeping, notifying and
--     spurious wake-ups, and Values the value that the lock protects, word by word; Pairs has any
--     number of threads that lock one or two entries: their Owners and Values, an entry's updates
--     while they are InFlight and once they are Settled, and whole operations in Atomic. Abstract
--     has the contract of the map, told of a function from keys to values, and calls that commute.
--   Server: `Server` (server/include/server.h, server/src/server.cpp). The module itself has the
--     state and the handlers, as one thread runs them; Spec tells what they are to do by a verdict
--     on the request, and Transaction, Discovery and Request compare them with it. Sound has the
--     invariant of the bank, Effects and Retransmission the promises of the protocol. Worker has a
--     handler cut into its accesses to shared state, and Pool any number of such threads
--     interleaved in any order, with Isolated for a request whose accounts no other of them
--     changes, Money and Leaks for the sum of all balances, and Books for `s_total_balance`.
--     Listen has the receive loop that starts them.
--   Client: `Client` (client/include/client.h, client/src/client.cpp). The module itself has the
--     constructor and the two discovery loops, which run on a list of polls and timeouts;
--     Discovery says what they reach, and Handshake what they make of a DISCOVERY_ACK. Launch has
--     `run`. Input has one line of user input and InputLoop the loop. Responses has the receive
--     loop of the network thread. StopAndWait has `send_request` and `handle_server_responses` as
--     two threads; Safety has what holds under every interleaving, Races what some interleavings
--     do.
--   Protocol: one client and the server together. Its steps are those of StopAndWait and of the
--     server's `process_request`, and the network delivers any packet that was ever sent, any
--     number of times; that the client hears anything but the answers to its requests, and that a
--     send fails, is counted. Opening joins the server's answer to a DISCOVERY to the client's
--     discovery loop. Handling has what the server does to one client's account, Invariant what
--     holds in every reachable state, Delivery and Finish what a request reaches, on what Taken
--     and Ending have of the server and of the client. Datagrams has a packet from `send` to the
--     other program's receive loop, and Report the way of a transfer up to the line that the test
--     driver reads.
--   Port: the port argument of server/main.cpp and client/main.cpp.
--   Program: the two `main` functions. ServerMain and ClientMain say how they end or go on.
--   Print: the lines of shared/src/print_utils.cpp. Decimal has the digits of numbers, and Balance
--     `validate_balance` of tests/main.cpp, which reads such a line.
--   Driver: the test driver (tests/main.cpp): its wait for a balance and its counters. Main has
--     `main` around the threads, and Processes what it ends. Commands has what it writes to a
--     client, Expected the balance that it expects, Summary what the printed summary is worth.
--   Subprocess: `Subprocess` (tests/include/subprocess.h, tests/src/subprocess.cpp). Descriptors
--     has the pipes, Child what the child does up to `execv` and Redirection its streams, Moves
--     the move operations, Streams the reads, the write and the end of the child. Windows has the
--     same class as it is compiled on Windows, with its Handles, Streams and Lines.
--
-- How the models are cut. An operation on an entry runs while it has the entry's lock, so `Pool`
-- takes each operation of the map as one step; how the locks keep threads apart is the matter of
-- Threads and Pairs. Handlers and operations give `none` where the thread would sleep for ever.
-- Numbers are native naturals, with every wrap-around of `uint32_t` and `uint64_t` written out.
-- Nothing runs on fuel but `steps`, which counts the steps of a thread (eight are enough for
-- each), and the printing of numbers.
--
-- What is not modelled: random amounts (they are any numbers) and printed lines in the test
-- driver, the Windows half of shared/src/udp_socket.cpp, and the durations of timeouts (a timeout
-- may come at any time). In Protocol the server handles one packet at a time, one client is
-- followed, and no packet is sent under its address by another. But for the line in
-- Protocol.Report, server and client keep what is printed as data and do not use Print. Print
-- writes a number with at most 20 digits, which is enough for a `uint64_t`.
mod Prelude
pub mod Packet
pub mod Net
pub mod LockedMap
pub mod Client
pub mod Port
pub mod Print
pub mod Protocol
pub mod Program
pub mod Subprocess
pub mod Driver
pub mod Server
