-- ===== src/Tunnel/Server.antt =====
-- `TunnelServer` of hyperagg/tunnel/server.py: its state, its sessions and a round of its timer. The
-- child Arrive has what it does with a datagram, Answer what it does with a packet for the client. The
-- socket, the TUN device and JSON are outside: datagrams come with their address, the outcomes of
-- `sendto` are arguments, and what is written to the TUN device or sent is part of the result. Where
-- error correction raises, the callback ends with that exception, and the state it leaves is not
-- modelled.
pub mod Arrive
pub mod Addresses
pub mod Answer
pub mod Sessions
pub mod Receive
pub mod Return
mod Tests
use ratan_engine.Prelude.{
  ℕ, zero, suc, ◌+◌, Bool, true, false, not, ◌&&◌, Option, none, some, List, [], ◌∷◌, ◌++◌, map,
  ltb, ◌==◌, if◌then◌else◌, length, Result, ok, raise, ◌>>=◌,
}
use Prim.Native.Nat.{bit_and}
use ratan_engine.Prelude.Bytes.{Bytes}
use ratan_engine.Prelude.Dict.{Dict, lookup, insert}
use ratan_engine.Prelude.Floats.{FloatOps}
use ratan_engine.Packet.Struct.{struct_pack}
use ratan_engine.Packet.{
  HyperAggPacket, deserialize, serialize, is_keepalive, is_control, is_fec_parity, create_keepalive,
  create_control,
}
use ratan_engine.Crypto.{Aead, PacketCrypto}
use ratan_engine.Fec.Rs.{RsCodec}
use ratan_engine.Fec.Mode.{Mode}
use ratan_engine.Fec.Engine.{FecEngine, FecMetadata, Tier, streaming, encode_packet, decode_packet}
use ratan_engine.Fec.Engine as Engine
use ratan_engine.Reorder.{AdaptiveReorderBuffer, is_duplicate, check_timeouts}
use ratan_engine.Reorder as Reorder
use ratan_engine.Tunnel.Frames.{build_packet, seal_packet, open_payload}

-- The ip, a text in the code, and the port.
pub record Addr : Type 0 where
  pub ip : ℕ
  pub port : ℕ

abbrev pub same_addr : Addr → Addr → Bool
same_addr a b = a.ip == b.ip && a.port == b.port

pub record ClientSession (Float : Type 0) : Type 0 where
  pub path_addrs : Dict Addr
  pub last_seen : Float
  pub packets_received : ℕ

-- A session is named by the client's ip: `client-{ip}`. `addr_to_session` holds references to the
-- sessions, which are never removed: an address leads to the session of its ip.
pub record TunnelServer (Float : Type 0) : Type 0 where
  pub crypto : Option PacketCrypto
  pub fec : FecEngine Float
  pub reorder : AdaptiveReorderBuffer Float
  pub sessions : Dict (ClientSession Float)
  pub known_addrs : List Addr
  pub tun_open : Bool
  pub return_global_seq : ℕ
  pub return_path_seq : ℕ
  pub packets_received : ℕ
  pub packets_sent : ℕ
  pub fec_recoveries : ℕ
  pub duplicates_dropped : ℕ

-- What a callback did: the packets written to the TUN device, the datagrams given to the socket, and
-- the server after it.
pub record Effect (Float : Type 0) : Type 0 where
  pub written : List Bytes
  pub sent : List (Bytes × Addr)
  pub server : TunnelServer Float

-- `addr in self._addr_to_session`
unfoldable pub knows : Addr → List Addr → Bool
knows a [] = false
knows a (b ∷ bs) = if same_addr a b then true else knows a bs

module _ {Float : Type 0} where
  abbrev pub quiet : TunnelServer Float → Effect Float
  quiet s = record { written = []; sent = []; server = s }

  abbrev pub new_session : Float → ClientSession Float
  new_session now = record { path_addrs = []; last_seen = now; packets_received = 0 }

  unfoldable pub session_of : Float → ℕ → TunnelServer Float → ClientSession Float
  session_of now client s = elim (lookup client s.sessions) [ none ↦ new_session now | some c ↦ c ]

  abbrev pub put_session : ℕ → ClientSession Float → TunnelServer Float → TunnelServer Float
  put_session client c s = record s { sessions = insert client c s.sessions }

  -- `_get_or_create_session`, for its effect; the session is then that of the ip.
  unfoldable pub get_or_create_session : Float → Addr → ℕ → TunnelServer Float → TunnelServer Float
  get_or_create_session now addr path_id s =
      if knows addr s.known_addrs
      then s
      else let c = session_of now addr.ip s in
        record (put_session addr.ip (record c { path_addrs = insert path_id addr c.path_addrs })
          s) { known_addrs = addr ∷ s.known_addrs }

  -- `session.path_addrs[path_id] = addr`
  unfoldable pub set_path_addr : Float → Addr → ℕ → TunnelServer Float → TunnelServer Float
  set_path_addr now addr path_id s =
      let s' = get_or_create_session now addr path_id s in
      let c = session_of now addr.ip s' in
      put_session addr.ip (record c { path_addrs = insert path_id addr c.path_addrs }) s'

  -- `session.last_seen = ...; session.packets_received += 1`
  unfoldable pub touch_session : Float → Addr → ℕ → TunnelServer Float → TunnelServer Float
  touch_session now addr path_id s =
      let s' = get_or_create_session now addr path_id s in
      let c = session_of now addr.ip s' in
      put_session addr.ip (record c { last_seen = now; packets_received = c.packets_received + 1 })
        s'

  abbrev pub to_tun : TunnelServer Float → List Bytes → List Bytes
  to_tun s payloads = if s.tun_open then payloads else []

module _ {Float : Type 0} (fl : FloatOps Float) where
  -- A round of `_reorder_timeout_loop`
  unfoldable pub timeout_round : Float → TunnelServer Float → Effect Float
  timeout_round now s =
      let (delivered, reorder) = check_timeouts fl now s.reorder in
      record {
        written = to_tun s delivered;
        sent = [];
        server = record s {
          reorder = reorder;
          packets_received = s.packets_received + length delivered;
          fec = Engine.expire_groups fl now s.fec;
        };
      }
