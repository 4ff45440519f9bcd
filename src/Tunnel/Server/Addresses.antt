-- ===== src/Tunnel/Server/Addresses.antt =====
-- Which datagrams of `_on_udp_readable` of hyperagg/tunnel/server.py move the address of a path.
use ratan_engine.Prelude.{
  ℕ, ◌≡◌, refl, sym, Bool, true, not, ◌&&◌, Option, none, some, List, [], ◌∷◌, ◌+◌, if◌then◌else◌,
  Bool-cases, inl, inr, ◌∙◌, ap, Result, ok, raise, ok-injective, >>=-eq-ok,
}
use ratan_engine.Prelude.Bytes.{Bytes}
use ratan_engine.Packet.{
  HyperAggPacket, deserialize, serialize, is_keepalive, is_control, is_fec_parity, create_control,
}
use ratan_engine.Crypto.{Aead}
use ratan_engine.Fec.Rs.{RsCodec}
use ratan_engine.Fec.Mode.{Mode}
use ratan_engine.Fec.Engine.{FecEngine}
use ratan_engine.Reorder.{is_duplicate}
use ratan_engine.Tunnel.Frames.{open_payload}
use ratan_engine.Tunnel.Server.{
  TunnelServer, ClientSession, Addr, knows, session_of, set_path_addr, touch_session, put_session,
  Effect, quiet,
}
use ratan_engine.Tunnel.Server.Arrive.{
  echo, handle_keepalive, handle_control, decode_payload, deliver_payload, receive_payload,
  receive_opened, receive_known, receive_data, on_udp_readable,
}
use ratan_engine.Tunnel.Server.Sessions.{
  path_addr, is_slot, set_path_addr_moves, touch_session_moves, put_same, session_lookup,
}

module _ {Float : Type 0} where
  -- What depends on the sessions only
  path_addr_of :
      (k j : ℕ) (s s' : TunnelServer Float)
      → s'.sessions ≡ s.sessions
      → path_addr k j s' ≡ path_addr k j s
  unfolding path_addr
  path_addr_of k j s s' same = rw same refl

  deliver_payload_same :
      (now : Float) (pkt : HyperAggPacket) (payload : Bytes) (recovered : List (ℕ × Bytes))
      (fec : FecEngine Float) (s : TunnelServer Float)
      → (deliver_payload now pkt payload recovered fec s).server.sessions ≡ s.sessions
  unfolding deliver_payload
  deliver_payload_same now pkt payload recovered fec s = elim (Bool-cases (is_fec_parity pkt)) [
    | inl parity ↦ rw parity refl
    | inr carried ↦ rw carried refl
  ]

  receive_opened_same :
      (codec : RsCodec) (now : Float) (pkt : HyperAggPacket) (opened : Option Bytes)
      (s : TunnelServer Float) (e : Effect Float)
      → receive_opened codec now pkt opened s ≡ ok e
      → e.server.sessions ≡ s.sessions
  unfolding receive_opened receive_payload
  receive_opened_same codec now pkt none s e h = rw (← ok-injective h) refl
  receive_opened_same codec now pkt (some payload) s e h =
      let (decoded, d, h1) = >>=-eq-ok (decode_payload codec now pkt payload s) _ {final = e} h in
      rw (← ok-injective h1) (deliver_payload_same now pkt payload decoded.0 decoded.1 s)

  receive_known_same :
      (aead : Aead) (codec : RsCodec) (now : Float) (pkt : HyperAggPacket) (s : TunnelServer Float)
      (e : Effect Float)
      → receive_known aead codec now pkt s ≡ ok e
      → e.server.sessions ≡ s.sessions
  unfolding receive_known
  receive_known_same aead codec now pkt s e h =
      elim (Bool-cases (is_duplicate pkt.global_seq s.reorder)) [
        | inl again ↦ rw (← ok-injective (rw again at h)) refl
        | inr fresh ↦
            receive_opened_same codec now pkt (open_payload aead s.crypto pkt) s e (rw fresh at h)
      ]

  handle_keepalive_moves :
      (now : Float) (stamp t2 t3 k j : ℕ) (pkt : HyperAggPacket) (addr : Addr)
      (s : TunnelServer Float) (e : Effect Float)
      → handle_keepalive now stamp t2 t3 pkt addr s ≡ ok e
      → path_addr k j e.server
        ≡ (if is_slot addr.ip pkt.path_id k j then some addr else path_addr k j s)
  unfolding handle_keepalive
  handle_keepalive_moves now stamp t2 t3 k j pkt addr s e h =
      let (wire, w, h1) = >>=-eq-ok (echo stamp t2 t3 pkt) _ {final = e} h in
      rw (← ok-injective h1) (set_path_addr_moves now addr pkt.path_id k j s)

  module _ (is_handshake : Bytes → Bool) (ack : (client : ℕ) → Mode → (path_id : ℕ) → Bytes) where
    answered_same :
        (answer : Result Bytes) (addr : Addr) (s : TunnelServer Float)
        → let e : Effect Float = elim answer [
          | ok wire ↦ record { written = []; sent = (wire, addr) ∷ []; server = s }
          | raise error ↦ quiet s
        ] in
          e.server ≡ s
    answered_same (ok wire) addr s = refl
    answered_same (raise error) addr s = refl

    handle_control_moves :
        (now : Float) (stamp k j : ℕ) (pkt : HyperAggPacket) (addr : Addr) (s : TunnelServer Float)
        → path_addr k j (handle_control is_handshake ack now stamp pkt addr s).server ≡ (
            if is_handshake pkt.payload && is_slot addr.ip pkt.path_id k j
            then some addr
            else path_addr k j s)
    unfolding handle_control
    handle_control_moves now stamp k j pkt addr s =
        let s' = set_path_addr now addr pkt.path_id s in
        let c = session_of now addr.ip s' in
        let c' : ClientSession Float = record c { packets_received = c.packets_received + 1 } in
        let answer =
          serialize
            (create_control stamp (ack addr.ip s.fec.current_mode pkt.path_id) pkt.path_id 0) in
        elim (Bool-cases (is_handshake pkt.payload)) [
          | inl handshake ↦ rw handshake (
              ap (path_addr k j) (answered_same answer addr (put_session addr.ip c' s'))
              ∙ put_same addr.ip k j c' s' (session_lookup now addr.ip j s')
              ∙ set_path_addr_moves now addr pkt.path_id k j s)
          | inr other ↦ rw other refl
        ]

    -- The path whose address a datagram sets, if it sets one.
    abbrev pub moved_path : HyperAggPacket → Addr → TunnelServer Float → Option ℕ
    moved_path pkt addr s =
        let moves =
          if is_keepalive pkt
          then true
          else if is_control pkt
          then is_handshake pkt.payload
          else not (knows addr s.known_addrs) in
        if moves then some pkt.path_id else none

    control_case :
        (pkt : HyperAggPacket) (addr : Addr) (k j : ℕ) (s : TunnelServer Float)
        → (if is_handshake pkt.payload && is_slot addr.ip pkt.path_id k j
            then some addr
            else path_addr k j s)
          ≡ (elim (if is_handshake pkt.payload then some pkt.path_id else none) [
            | none ↦ path_addr k j s
            | some path_id ↦ if is_slot addr.ip path_id k j then some addr else path_addr k j s
          ])
    control_case pkt addr k j s = elim (Bool-cases (is_handshake pkt.payload)) [
      | inl handshake ↦ rw handshake refl
      | inr other ↦ rw other refl
    ]

    data_case :
        (pkt : HyperAggPacket) (addr : Addr) (k j : ℕ) (s : TunnelServer Float)
        → (if knows addr s.known_addrs
            then path_addr k j s
            else if is_slot addr.ip pkt.path_id k j
            then some addr
            else path_addr k j s)
          ≡ (elim (if not (knows addr s.known_addrs) then some pkt.path_id else none) [
            | none ↦ path_addr k j s
            | some path_id ↦ if is_slot addr.ip path_id k j then some addr else path_addr k j s
          ])
    data_case pkt addr k j s = elim (Bool-cases (knows addr s.known_addrs)) [
      | inl known ↦ rw known refl
      | inr unknown ↦ rw unknown refl
    ]

    -- For a datagram that is a packet and is handled without an exception: after `_on_udp_readable` the
    -- answers for its path of the client go to the address it came from if it is a keepalive, a control
    -- packet with a handshake, or a data or parity packet (accepted or not) whose address is new to the
    -- server. No other packet moves an address, and no packet moves those of the client's other paths
    -- and of other clients.
    pub path_addr_lem :
        (aead : Aead) (codec : RsCodec) (now : Float) (stamp t2 t3 k j : ℕ) (bytes : Bytes)
        (pkt : HyperAggPacket) (addr : Addr) (s : TunnelServer Float) (e : Effect Float)
        → deserialize bytes ≡ ok pkt
        → on_udp_readable aead codec is_handshake ack now stamp t2 t3 bytes addr s ≡ ok e
        → path_addr k j e.server ≡ (elim (moved_path pkt addr s) [
          | none ↦ path_addr k j s
          | some path_id ↦ if is_slot addr.ip path_id k j then some addr else path_addr k j s
        ])
    unfolding on_udp_readable receive_data
    path_addr_lem aead codec now stamp t2 t3 k j bytes pkt addr s e parsed h =
        let run = rw (parsed, on_udp_readable) at h in
        elim (Bool-cases (is_keepalive pkt)) [
          | inl keepalive ↦
              rw keepalive
                (handle_keepalive_moves now stamp t2 t3 k j pkt addr s e (rw keepalive at run))
          | inr other ↦ elim (Bool-cases (is_control pkt)) [
            | inl control ↦
                let moved = handle_control_moves now stamp k j pkt addr s in
                let done : ok (handle_control is_handshake ack now stamp pkt addr s) ≡ ok e =
                  rw (other, control) at run in
                rw (other, control)
                  (ap (λ (e : Effect Float). path_addr k j e.server) (sym (ok-injective done))
                    ∙ moved
                    ∙ control_case pkt addr k j s)
            | inr carried ↦
                let s' = touch_session now addr pkt.path_id s in
                let same =
                  receive_known_same aead codec now pkt s' e (rw (other, carried) at run) in
                rw (other, carried)
                  (path_addr_of k j s' e.server same
                    ∙ touch_session_moves now addr pkt.path_id k j s
                    ∙ data_case pkt addr k j s)
          ]
        ]
