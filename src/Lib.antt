-- ===== src/Lib.antt =====
-- spiped: symmetrically encrypted and authenticated pipes between sockets.
--
-- The program accepts connections on one socket and forwards each to a target, so that what runs
-- between the two ends is encrypted. A connection (lib/proto/proto_conn.c) connects to the target,
-- has its end of the handshake (lib/proto/proto_handshake.c) agree on two keys with the peer, and
-- starts two pipes (lib/proto/proto_pipe.c), one of which encrypts and one decrypts. The handshake
-- and the pipes compute by lib/proto/proto_crypt.c.
--
-- Primitives: the calls into libcperciva's cryptography, as a record of functions, and the law for
--   each that its header gives. Nothing is assumed to be hard to compute.
-- Crypt: lib/proto/proto_crypt.c. Crypt/Keys has the key file and the key structures, with heap
--   objects and open files counted; Crypt/Exchange the MAC keys, the Diffie-Hellman parameters and
--   `proto_crypt_mkkeys`; Crypt/Packet has `proto_crypt_enc` and `proto_crypt_dec`, and
--   Crypt/Packet/Design the packet format of DESIGN.md; Crypt/One is about `is_not_one`.
-- Handshake: lib/proto/proto_handshake.c. An outcome of a callback is the cookie, or the end of
--   the handshake with what was cancelled. Handshake/Progress is about one end under any network,
--   Handshake/Agreement about two ends that hear each other.
-- Pipe: lib/proto/proto_pipe.c. Pipe/Loop is the loop of `callback_pipe_read`, Pipe/Callbacks the
--   callbacks, and Pipe/Callbacks/Link two pipes with a wire between them, as a step relation.
--   Pipe/Callbacks/Link/Liveness is about what that relation can always still do.
-- Conn: lib/proto/proto_conn.c, over a ledger of what the process holds. Conn/Callbacks has the
--   callbacks, Conn/Ledger what is held and released, Conn/Reasons what is reported, and Conn/Phases
--   an abstract machine of five phases that it is compared with.
-- Dispatch: spiped/dispatch.c, which accepts connections, counts them and stops. Dispatch/Nodes is
--   about the list of connections, Dispatch/Ledger about each event, Dispatch/Stop has
--   `dispatch_shutdown`, whose loop has as much fuel as there are connections: each pass drops one.
-- Server: spiped/dispatch.c composed with lib/proto/proto_conn.c: each connection in the list has
--   its own state, and a connection that ends calls `callback_conndied` back. Server/Shutdown has
--   `dispatch_shutdown` over those states, with fuel as in Dispatch/Stop; Server/Requested is about
--   whether a shutdown is requested.
-- Conn/Session: the two connections of a session with the pipes that their handshakes lead to.
-- DnsThread: lib/dnsthread/dnsthread.c. The worker, its caller and the event loop are a step
--   relation over the shared record; DnsThread/Spawn has `dnsthread_spawn` and `dnsthread_resolve`
--   with what they allocate counted.
-- ThreadStart: lib/util/pthread_create_blocking_np.c, the parent and the child as a step relation.
-- GracefulShutdown: lib/util/graceful_shutdown.c, the flag that SIGTERM sets and the timer that
--   looks at it.
-- Pushbits: spipe/pushbits.c, the threads of the client that copy to and from its connection.
-- Options: the loop over the options of both main functions; Options/Loop is about it, for any table
--   of options.
-- Spipe: spipe/main.c. Spipe has its options, Spipe/Program what is set up and cleaned up, and
--   Spipe/Events its callbacks, composed with Conn and GracefulShutdown. Spipe/CommandLine is about
--   the options; Spipe/Invariant, Spipe/Shutdown and Spipe/Ledger are about the events, Spipe/SetUp
--   about what is left by the set-up, Spipe/Outcome about which calls decide how it ends, and Spipe/Run about whole runs.
-- ServerProgram: spiped/main.c. ServerProgram has its options and ServerProgram/SetUp what is set up
--   and cleaned up, over Dispatch; ServerProgram/Table and ServerProgram/CommandLine are about the
--   options, ServerProgram/Exit about what is left by the set-up and ServerProgram/Outcome about
--   which calls decide how it ends. ServerProgram/Events has the event
--   loop's callbacks, over Server and GracefulShutdown, and the exit; ServerProgram/Ledger is about
--   each event and ServerProgram/Run about whole runs.
-- SimpleServer: tests/nc-server/simple_server.c, the server of the tests. SimpleServer has its
--   callbacks, SimpleServer/Stop how it starts and stops, with as much fuel for the loop of
--   `simple_server_shutdown` as there are connections; SimpleServer/Nodes is about its list,
--   SimpleServer/Ledger about lost connections, SimpleServer/Events about each event,
--   SimpleServer/Shutdown about stopping, and SimpleServer/Run about whole runs.
-- NcServer: tests/nc-server/main.c, what that server does with a message. NcServer/Rate is about the
--   rate at which it is sent back. The passes of the loop of `write_bps` are those of a list of what
--   the clock and `write` report, so that it needs no fuel.
-- NcClient: tests/nc-client/main.c, the client of the tests; NcClient/Ledger is about each event and
--   NcClient/Run about whole runs.
-- SendZeros and RecvZeros: perftests/send-zeros/main.c and perftests/recv-zeros/main.c, which send
--   zeros and receive them, over ledgers of what they hold. The loop over `recv` is over a list of what
--   it reports.
-- EofCase: `pipe_decr_eof_case` of perftests/standalone-enc/standalone_pipe_socketpair_one.c, a
--   decrypting pipe that is sent packets and the end of its input, as a step relation.
--   EofCase/Keeps is about each step, EofCase/Sent about what is sent, EofCase/Ends about the end, and EofCase/Finishes about
--   whether it is reached.
-- Sample: a concrete instance of Primitives that keeps the laws, and the theorems applied to
--   concrete inputs.
--
-- What a call that may fail reports (an allocation, a timer, a read or write that is started) is an
-- argument of the operation. A theorem about an operation covers each of the cases; one about two
-- pipes with a wire between them (Pipe/Callbacks/Link, Conn/Session), two ends of a handshake
-- (Handshake/Agreement) or a pipe that is sent the end of its input (EofCase) is about runs in which
-- the calls succeed. The loop of `callback_pipe_read` runs on fuel, one more than there are buffered
-- bytes: each pass uses at least one. Packet numbers wrap at 2^64, a `size_t` has 64 bits, lengths
-- are written modulo 2^32, and `is_not_one` computes on 32-bit patterns.
--
-- Not modelled: libcperciva, a copy of another project's library; in lib/dnsthread, the value
-- `res_errno` and mutex calls that fail once the thread runs; in spiped/main.c, the handler of SIGINT
-- under process number 1; the wiping of buffers, what is printed, and the socket options, which have
-- no result; time, so that a timer may fire whenever it is set; and, of tests and perftests, the
-- programs that measure time or run the functions above on fixed inputs.
pub mod Base
pub mod Primitives
pub mod Crypt
pub mod Options
pub mod Pipe
pub mod Handshake
pub mod Conn
pub mod Dispatch
pub mod Spipe
pub mod ThreadStart
pub mod GracefulShutdown
pub mod Pushbits
pub mod Server
pub mod ServerProgram
pub mod SimpleServer
pub mod EofCase
pub mod NcClient
pub mod NcServer
pub mod SendZeros
pub mod RecvZeros
pub mod DnsThread
pub mod Sample
