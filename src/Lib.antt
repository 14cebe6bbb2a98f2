-- ===== src/Lib.antt =====
-- The logic of the CSQTT tunnel, client and server: how packets and stream bytes are spread over many
-- TURN workers, put together again, repeated, and how broken workers are repaired.
--
-- The client (rust-client) opens up to 126 workers, each a TURN session to the server (rust-server).
-- Both ends give every packet to a worker by the striped scheduler (shared/striped_scheduler.rs) and
-- send a few packets twice, within a budget (shared/selective_fec.rs). A proxied TCP stream is cut
-- into chunks that carry their offset, and the receiver hands on the bytes in order
-- (shared/proxy_sequence.rs). The server sees which workers of a client it has lost and asks for them
-- (rust-server/protocol.rs); the client restarts them (rust-client/repair.rs).
--
-- Shared: Boolean tests, lists measured by native numbers, bytes, texts and maps.
-- Scheduler: shared/striped_scheduler.rs. `begin_class`, `select_class`, `packet_class`; the counters
--   are 64-bit words that wrap.
-- Fec: shared/selective_fec.rs. `Budget.allow` is `allow`, in nanoseconds; the loops over IPv6
--   extension headers are bounded by the code's own count of eight.
-- Sequence: shared/proxy_sequence.rs. `StreamSequence` with `encode` and `decode`,
--   `ReorderReceiver` with `push`; the flush loop has the number of parked chunks as its fuel, and
--   every turn removes one.
-- Repair: rust-client/repair.rs. The atomics of a slot are fields, a command is one step.
-- Control: the repair protocol between the two ends. Control.Inventory is `StreamInventory`,
--   Control.Server is `StreamRepairRound` and `stream_control_payload`, all of
--   rust-server/protocol.rs, and Control.Client is `parse_stream_command` of
--   rust-client/protocol.rs; their prefixes are parameters.
-- Replay: the windows of packet numbers, `ReplayState` of rust-server/protocol.rs and, in
--   Replay.Client, `ReplayWindow` of rust-client/session.rs. A map of bits is a function.
-- Stun: rust-client/stun_codec.rs. The loop over attributes has the length of the message as its
--   fuel, and every turn moves on by at least four bytes.
-- Framing: rust-client/turn_stream.rs. `read_frame` runs over the chunks that a socket yields.
-- Packet: rust-client/packet.rs. Packet.Pool is the pool as a transition system, one step for each
--   atomic operation of a task; a buffer is its range.
-- Downlink: rust-server/downlink_queue.rs, `PacketSlots` and lanes in Downlink, `DownlinkQueue` in
--   Downlink.Queue. `dequeue` looks once at each place of a ring.
-- Proxy: rust-server/stream_proxy.rs and rust-client/stream_proxy.rs, whose frames have one format.
--   `run_stream` is followed by what it sends: a list of reads and of RESEND requests.
-- Epoch: `DeviceEpochState` of rust-server/protocol.rs.
-- Supervisor: rust-server/udp_supervisor.rs, in milliseconds.
-- Model: rust-server/model.rs. Model.Disk has the tables of the SQLite file, where a statement is an
--   operation of a map and a transaction one function; Model.Load reads them and imports the older
--   JSON files, where any transaction of the import and any removal of a file may fail; Model.Persistence is the queue of writes, with the worker's two critical sections as
--   steps. Model.View is the specification: what a reader of the file finds under every key.
-- Turn: rust-client/turn_core.rs, `Inner` with the private operations in Turn.Steps, the calls of
--   `NativeCore` in Turn.Core and Turn.Drive, and the messages in Turn.Builder. Every call reads the
--   clock once; HMAC, MD5 and CRC-32 are parameters. The loop of `expire_transactions` has one turn
--   for each pending transaction.
-- Worker: rust-client/worker.rs, the credential cache of `GroupCredentials` under its lock, the retry
--   delays and the ids of a group; Worker.Gate is `RecoveryLogGate`. A call of `get` holds the lock
--   while it fetches, so that calls follow each other; what a fetch brings is its argument.
-- Dns: rust-client/dns.rs, `build_query` and `parse_response`. The loop of `skip_name` runs on fuel,
--   one more than the bytes of the message, each turn passing over one byte at least.
--
-- Not modelled: sockets, threads and encryption; the Android application, the web panel, the
-- installers and OpenWrt files; sign-in, captchas and calls of VK; TLS, TUN and netlink devices.
pub mod Turn
pub mod Worker
pub mod Dns
pub mod Model
pub mod Shared
pub mod Scheduler
pub mod Fec
pub mod Sequence
pub mod Repair
pub mod Control
pub mod Replay
pub mod Stun
pub mod Framing
pub mod Packet
pub mod Downlink
pub mod Proxy
pub mod Epoch
pub mod Supervisor
