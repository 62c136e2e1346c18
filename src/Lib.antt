-- ===== src/Lib.antt =====
-- The memif library of this repository (memif-new/memif): packets between two processes through
-- rings in shared memory, set up over a control channel on a UNIX socket.
--
-- The program has two halves. The data path (packet_writer.go, packet_reader.go, memif_unsafe.go
-- and the rings and descriptors of memif.go) runs on a queue whose ring lies in a memory region:
-- the sender fills a descriptor's buffer and moves the head or the tail, the receiver reads it. The
-- control path (control_channel.go, control_channel_unsafe.go, interface.go, interface_unsafe.go)
-- keeps a socket with its interfaces and control channels: epoll events become messages, messages
-- set up regions and queues, connect an interface and take it down.
--
-- Files and code:
--   Prelude   numbers, Boolean tests, lists and bits that all share
--   Bytes     little-endian loads and stores on a list of bytes, Go's slices and `copy`
--   Desc      descBuf and its accessors (memif.go)
--   Types     the structs of memif.go and interface.go; Types.Os: requests to the system, errors
--   Ring      the ring header (memif.go: newRing and the accessors of ring)
--   Region    sizes and offsets of addRegion and initializeQueues (interface.go)
--   Queue     a queue's accesses to its region (memif.go, memif_unsafe.go)
--   Packet    WritePacket (Packet.Writer) and ReadPacket (Packet.Reader); what they do
--             (Packet.Send, Packet.Receive), packets of several buffers (Packet.Chain, for a slave
--             that sends; Packet.Gather, for a receiver), one after the other (Packet.Transfer), and any
--             sequence of calls of both ends as a queue of packets: of a slave that sends to its
--             master (Packet.Stream), and of a master that sends to its slave (Packet.Credit), whose
--             refill is Packet.Refill; and of both directions (Packet.Duplex)
--   Message   the structs on the wire, as encoding/binary writes and reads them
--   Socket    the state of a socket, and the monad of its operations; Socket.Keeps and Socket.Ends
--             have the rules for invariants of actions
--   Setup     addRegion, initializeRegions, initializeQueues (interface.go), memfdCreate; Setup.Pair:
--             what the rounds over the queue pairs leave (Setup.Round, Setup.Descs, Setup.Memory);
--             Setup.Traffic: packets through the new ring; Setup.Turns and Setup.Overlap: through both
--             rings of a pair, in one direction at a time and in both at once
--   Link      connect, disconnect and the queue accessors (interface.go)
--   Accessors the getters of interfaces, queues and sockets (interface.go)
--   Channel   the msgEnq functions, sendMsg and close; Channel.Parse: the parse functions;
--             Channel.Dispatch: parseMsg
--   Events    the handleEvent methods, addControlChannel and a round of the polling loop
--   Polling   StartPolling, its goroutine and StopPolling; Polling.Stopping: what stopping does
--   Lifecycle NewSocket, NewInterface, AddListener, RequestConnection, Disconnect and the Delete
--             methods
--   Session   both sides of a connection's setup: a slave's answer to a hello (Session.Answer), the
--             handling of one datagram (Session.Delivery), what a master makes of each message
--             (Session.Meeting, Session.Joining, Session.Steps) and of all (Session.Handshake)
--   Apps      the programs beside the library: the goroutines of memif-new/_examples/responder and
--             bridge (Apps.Relay) and what they pass on (Apps.Forward, Apps.Deliver), their connection
--             loop (Apps.Start, Apps.Connect), their callbacks (Apps.Callbacks) and command line
--             (Apps.Console); and memif-attach, its messages (Apps.Attach) and its requests (Apps.Vpp)
--   Tests     runs on small inputs
--
-- A function of the code has its name in snake case. Functions of the data path return an Option,
-- where `none` is a run-time panic, since a Go slice out of range panics. Those of the control path
-- run in the monad M of Socket, with errors that keep the state reached, and panics. Interfaces and
-- channels are references into two stores, as the code shares pointers to them.
--
-- Numbers are natural; what the code stores in 16, 32 or 64 bits is cut by `% 2 ^ w` where it is
-- stored or computed. The loops of the data path run on the number of free or pending slots, which
-- the code counts down too, and the loops of the control path on the lists or counts that they walk.
-- The goroutines of the examples run on the number of rounds until their quit channel is closed, and
-- their connection loop on the number of tests of its condition, of which two are enough. No function
-- has other fuel.
--
-- The system is a parameter, a record Os: the reply to each request as a function of the requests
-- before it, what mmap(2) shows of a file, and what recvmsg(2) delivers. The client's callbacks are
-- requests as well.
--
-- The goroutine of StartPolling and the calls of its client are a step relation (Polling). The client
-- is assumed to call StartPolling and StopPolling from one goroutine, the first only while none
-- polls, and to take every error from its channel. EpollWait returns by itself only when the eventfd of
-- the wake event has been written; other events are steps of the peers. The callbacks of the examples
-- and their goroutines are such a relation too (Apps.Callbacks), in which each call of Connected starts
-- one more goroutine, which keeps the channels that it was started with.
--
-- Not modelled: the ordering of memory accesses between the two processes, whose
-- accesses are steps one after the other here; log output; GetPrivateData and GetSocket; the flags,
-- profiling and banner of the examples; and memif-attach's log. VPP's binary API is a parameter.
pub mod Prelude
pub mod Bytes
pub mod Desc
pub mod Types
pub mod Ring
pub mod Region
pub mod Queue
pub mod Packet
pub mod Message
pub mod Socket
pub mod Setup
pub mod Accessors
pub mod Link
pub mod Channel
pub mod Events
pub mod Polling
pub mod Lifecycle
pub mod Session
pub mod Apps
pub mod Tests
