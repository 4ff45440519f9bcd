-- ===== src/Tunnel/Server/Answer.antt =====
-- `_send_return` of hyperagg/tunnel/server.py: a packet from the TUN device goes to the client.
use ratan_engine.Prelude.{
  ℕ, ◌+◌, Bool, Option, none, some, List, [], ◌∷◌, ◌++◌, if◌then◌else◌, length, Result, ok, ◌>>=◌,
}
use ratan_engine.Prelude.Bytes.{Bytes}
use ratan_engine.Prelude.Dict.{Dict}
use ratan_engine.Prelude.Floats.{FloatOps}
use ratan_engine.Packet.{HyperAggPacket, serialize}
use ratan_engine.Crypto.{Aead}
use ratan_engine.Fec.Rs.{RsCodec}
use ratan_engine.Fec.Engine.{FecMetadata, streaming, encode_packet}
use ratan_engine.Tunnel.Frames.{build_packet, seal_packet}
use ratan_engine.Tunnel.Server.{TunnelServer, Effect, Addr, ClientSession, quiet}

-- A datagram to every address of the session, with the outcome of each call: true where the socket
-- took it. Calls beyond the list of outcomes succeed.
unfoldable pub send_to_all : Bytes → Dict Addr → List Bool → List (Bytes × Addr) × List Bool
send_to_all wire [] outcomes = ([], outcomes)
send_to_all wire ((path_id, addr) ∷ rest) [] =
    let (sent, left) = send_to_all wire rest [] in ((wire, addr) ∷ sent, left)
send_to_all wire ((path_id, addr) ∷ rest) (taken ∷ outcomes) =
    let (sent, left) = send_to_all wire rest outcomes in
    (if taken then (wire, addr) ∷ sent else sent, left)

module _ {Float : Type 0} where
  -- The packet of `_send_return` for one result of error correction, on path 0
  unfoldable pub return_packet :
      Aead → ℕ → Bytes × FecMetadata → TunnelServer Float → Result HyperAggPacket
  return_packet aead stamp (payload, meta) s =
      seal_packet aead s.crypto
        (build_packet stamp payload meta 0 s.return_path_seq s.return_global_seq)

  -- The loop of `_send_return`
  unfoldable pub send_results :
      Aead
      → ℕ
      → Dict Addr
      → List (Bytes × FecMetadata)
      → List Bool
      → TunnelServer Float
      → Result (Effect Float)
  send_results aead stamp addrs [] outcomes s = ok (quiet s)
  send_results aead stamp addrs (r ∷ rs) outcomes s = do
    pkt ← return_packet aead stamp r s
    wire ← serialize pkt
    let (sent, left) = send_to_all wire addrs outcomes
    effect ← send_results aead stamp addrs rs left (record s {
      packets_sent = s.packets_sent + length sent;
      return_global_seq = s.return_global_seq + 1;
      return_path_seq = s.return_path_seq + 1;
    })
    ok (record effect { sent = sent ++ effect.sent })

module _ {Float : Type 0} (fl : FloatOps Float) where
  -- `max(self._sessions.values(), key=lambda s: s.last_seen)`
  unfoldable pub latest_of : ClientSession Float → Dict (ClientSession Float) → ClientSession Float
  latest_of c [] = c
  latest_of c ((k, d) ∷ rest) = latest_of (if fl.lt c.last_seen d.last_seen then d else c) rest

  -- `_find_active_session`
  unfoldable pub find_active_session : TunnelServer Float → Option (ClientSession Float)
  find_active_session s = elim s.sessions [
    | [] ↦ none
    | first ∷ rest ↦ some (latest_of first.1 rest)
  ]

  -- `_send_return`
  unfoldable pub send_return :
      Aead → RsCodec → ℕ → Bytes → List Bool → TunnelServer Float → Result (Effect Float)
  send_return aead codec stamp payload outcomes s = elim (find_active_session s) [
    | none ↦ ok (quiet s)
    | some c ↦ elim c.path_addrs [
      | [] ↦ ok (quiet s)
      | a ∷ rest ↦ do
        encoded ← encode_packet codec payload streaming s.fec
        let (results, fec) = encoded
        send_results aead stamp (a ∷ rest) results outcomes (record s { fec = fec })
    ]
  ]
