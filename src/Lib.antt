-- ===== src/Lib.antt =====
-- RATAN engine: a verification library for hyperagg, the multi-path bonding tunnel.
--
-- A tunnel endpoint hands each IP packet to forward error correction (hyperagg/fec), which numbers
-- it within a group and adds parity packets, wraps all of them in HyperAggPackets
-- (hyperagg/tunnel/packet.py) and sends them over several paths. What a full socket does not take
-- waits in a retry queue per path (hyperagg/tunnel/send_queue.py); the size of the packets comes from
-- a search for the MTU of the path (hyperagg/tunnel/pmtud.py). The receiver parses, lets the decoder
-- that the group size names recover what a path has lost, and puts the packets back into order
-- (hyperagg/tunnel/reorder_buffer.py). The client (hyperagg/tunnel/client.py) chooses the path of each
-- packet by what it measures of the paths (hyperagg/scheduler); the server
-- (hyperagg/tunnel/server.py) answers on every path that it has heard from.
--
-- Which file models what:
--   Prelude         shared names; native lists (Lists), exceptions (Errors), bytes and integers as
--                   Python converts them (Bytes, Bits), dicts and sets (Dict, Distinct), sorting
--                   (Sort), floats (Floats)
--   Packet          hyperagg/tunnel/packet.py: the record, serialize, deserialize, create_*,
--                   get_timestamp_us; Packet.Struct is struct.pack and struct.unpack for big-endian
--                   fields, Wire and Parse have the two round trips, Create the constructors
--   Fec.Xor         hyperagg/fec/xor_fec.py: XORFec; its children Encoder and Decoder are the classes
--                   XORFecEncoder (add_packet, flush) and XORFecDecoder (receive_packet,
--                   expire_groups, with _try_recover and _cleanup_group)
--   Fec.Rs          hyperagg/fec/rs_fec.py: ReedSolomonFec (encode, decode), and in the children
--                   Encoder and Decoder the classes RSFecEncoder and RSFecDecoder (receive_shard,
--                   expire_groups); Codec states what the library reedsolo is relied on for
--   Fec.Adaptive    hyperagg/fec/adaptive_fec.py: BurstDetector, AdaptiveFecSizer and Interleaver;
--                   Fec.Mode has the modes, which are strings in the code
--   Fec.Engine      hyperagg/fec/fec_engine.py: FecEngine, its encode_packet, decode_packet,
--                   expire_groups over the two codes; Modes has update_mode
--   Reorder         hyperagg/tunnel/reorder_buffer.py: AdaptiveReorderBuffer, with insert,
--                   check_timeouts and update_timeout; Loops has the two loops, Valid the invariant,
--                   Stream and Complete whole runs
--   SendQueue       hyperagg/tunnel/send_queue.py: SendQueue, with try_send, _enqueue and drain;
--                   Account has whole runs
--   Pmtud           hyperagg/tunnel/pmtud.py: PathMTUDiscovery, with probe_path
--   Session         hyperagg/tunnel/session.py: SessionManager, with create_session, update, _save
--                   and try_resume; what a file holds is an argument, and a state that is read back
--                   has texts for keys
--   Pacer           hyperagg/scheduler/bandwidth_estimator.py: TokenBucketPacer, with _refill, set_rate,
--                   consume, can_send and time_until_available
--   Crypto          hyperagg/tunnel/crypto.py: PacketCrypto, with its nonce; the cipher is a parameter
--   Scheduler       hyperagg/scheduler: Models, and the classes of one file each: Monitor
--                   (path_monitor.py), Predictor (path_predictor.py), PathScheduler
--                   (path_scheduler.py), Congestion (congestion_control.py), Bandwidth
--                   (BandwidthEstimator of bandwidth_estimator.py), Delay (owd_estimator.py)
--   Metrics         hyperagg/metrics/throughput_calculator.py: ThroughputCalculator
--   Tunnel.Frames   what hyperagg/tunnel/client.py and server.py do alike to build, seal and open
--   Tunnel.Server   hyperagg/tunnel/server.py: TunnelServer, from a datagram on, from a packet for the
--                   client on, and a round of its timer
--   Tunnel.Client   hyperagg/tunnel/client.py: TunnelClient; its children have _send_packet (Send),
--                   _on_udp_readable (Arrive), and the handshake and the rounds of its timers (Rounds)
--   Tunnel.Classify _classify_traffic and _port_in_range of hyperagg/tunnel/client.py
--   Controller      hyperagg/controller: Sdn (sdn_controller.py), Bypass (bypass_rules.py), Qos
--                   (qos_engine.py)
--   */Tests         runs at concrete inputs, and an instance of each theorem below
--
-- How the code is translated: a class is a record of its attributes, a method a function from its
-- arguments and the object to its result and the new object. Exceptions are `raise` with the class of
-- the exception. Bytes are lists of numbers with the predicate IsBytes. A dict is the list of its
-- entries in insertion order, a set the list of its elements. The clock's reading is an argument, as
-- is the outcome of each call of a socket; the datagrams that a socket takes are part of the result.
-- Floats are a parameter with the operations that the code uses and no laws: a theorem that needs one
-- has it as a hypothesis. The codec of reedsolo is a parameter too. Statistics for display and log
-- lines are left out.
--
-- Bounds: a byte is below 256, a header field below 2 ^ (8 w) for its width w, the microsecond
-- timestamp wraps modulo 2 ^ 32. Loops over a collection are structural recursion. Two loops of the
-- reorder buffer have fuel: `deliver_loop` the number of buffered packets, each turn taking one out,
-- and `skip_loop` the distance to the smallest number in the buffer, each turn coming one nearer;
-- Reorder.Fuel is about both.
-- The search of Pmtud has the ten turns of its `for`.
--
-- Not modelled: sockets, the event loop and the TUN device, the dashboards and REST interfaces, the
-- calls of outside programs (ip, tc, nft, iptables), JSON, the benchmark and test drivers, all of which
-- are input and output; and the older prototype under engine/. What other tasks of the client do
-- during the millisecond that _send_packet waits for a full socket is not interleaved with it.
pub mod Prelude
pub mod Packet
pub mod Fec
pub mod Reorder
pub mod SendQueue
pub mod Pmtud
pub mod Session
pub mod Pacer
pub mod Crypto
pub mod Scheduler
pub mod Metrics
pub mod Tunnel
pub mod Controller
