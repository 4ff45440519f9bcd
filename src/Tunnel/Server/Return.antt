-- ===== src/Tunnel/Server/Return.antt =====
-- The packets that hyperagg/tunnel/server.py sends to the client: their numbers, their destinations
-- and their nonces.
use ratan_engine.Prelude.{
  ℕ, zero, suc, ◌+◌, ◌≡◌, refl, sym, ap, ap₂, ◌∙◌, Bool, true, false, Option, some, List, [], ◌∷◌,
  ◌++◌, map, drop, subst, arith, length, length-append, ok, >>=-eq-ok, ok-injective, All,
}
use ratan_engine.Prelude.Bytes.{Bytes}
use ratan_engine.Prelude.Dict.{Dict, values}
use ratan_engine.Crypto.{Aead, PacketCrypto, derive_nonce, encrypt, tag_size}
use ratan_engine.Crypto.Nonce.{derive_nonce_total}
use ratan_engine.Fec.Engine.{FecMetadata}
use ratan_engine.Packet.{HyperAggPacket, header_bytes, serialize, create_data, create_fec_parity}
use ratan_engine.Tunnel.Frames.{build_packet, seal_packet}
use ratan_engine.Tunnel.Server.{TunnelServer, Effect, Addr}
use ratan_engine.Tunnel.Server.Answer.{send_to_all, return_packet, send_results}

-- Sealed under a nonce
abbrev pub SealedUnder : Aead → PacketCrypto → Bytes → Bytes → HyperAggPacket → Type 0
SealedUnder aead c nonce text q = (aad : Bytes) × (q.payload ≡ aead.seal c.key nonce text aad)

seal_packet-SealedUnder :
    (aead : Aead) (c : PacketCrypto) (p q : HyperAggPacket) (nonce : Bytes)
    → derive_nonce p.global_seq p.path_id ≡ ok nonce
    → seal_packet aead (some c) p ≡ ok q
    → SealedUnder aead c nonce p.payload q
unfolding seal_packet encrypt
seal_packet-SealedUnder aead c p q nonce n h =
    let p' : HyperAggPacket = record p { payload_len = length p.payload + tag_size } in
    let (aad, a, h1) = >>=-eq-ok (header_bytes p') _ {final = q} h in
    let (text, t, h2) =
      >>=-eq-ok (encrypt aead c p.payload aad p.global_seq p.path_id) _ {final = q} h1 in
    let (n', d, h3) = >>=-eq-ok (derive_nonce p.global_seq p.path_id) _ {final = text} t in
    (
      aad,
      ap (λ (r : HyperAggPacket). r.payload) (sym (ok-injective h2))
          ∙ sym (ok-injective h3)
          ∙ ap (λ (b : Bytes). aead.seal c.key b p.payload aad) (ok-injective (sym d ∙ n)),
    )

build_packet_fields :
    (timestamp : ℕ) (payload : Bytes) (meta : FecMetadata) (path_id seq global_seq : ℕ)
    → let p = build_packet timestamp payload meta path_id seq global_seq in
      (p.payload ≡ payload) × (p.global_seq ≡ global_seq) × (p.path_id ≡ path_id)
unfolding build_packet create_data create_fec_parity
build_packet_fields timestamp payload meta path_id seq global_seq = ground arith

drop-empty : {A : Type 0} (n : ℕ) → drop {A = A} n [] ≡ []
drop-empty zero = refl
drop-empty (suc n) = refl

-- The addresses for which the socket takes a datagram
abbrev pub taken : List Addr → List Bool → List Addr
taken [] outcomes = []
taken (a ∷ addrs) [] = a ∷ taken addrs []
taken (a ∷ addrs) (true ∷ outcomes) = a ∷ taken addrs outcomes
taken (a ∷ addrs) (false ∷ outcomes) = taken addrs outcomes

-- One datagram with these bytes for each address whose call succeeds, in the order of the addresses
abbrev pub IsSentToAll : Bytes → Dict Addr → List Bool → List (Bytes × Addr) → Type 0
IsSentToAll wire addrs outcomes sent =
    All (λ d. d.0 ≡ wire) sent × (map (λ d. d.1) sent ≡ taken (values addrs) outcomes)

send_to_all-IsSentToAll :
    (wire : Bytes) (addrs : Dict Addr) (outcomes : List Bool)
    → let (sent, left) = send_to_all wire addrs outcomes in
      IsSentToAll wire addrs outcomes sent × (left ≡ drop (length addrs) outcomes)
unfolding send_to_all
send_to_all-IsSentToAll wire [] outcomes = ((tt, refl), refl)
send_to_all-IsSentToAll wire ((k, a) ∷ addrs) [] =
    let ((same, to), left) = send_to_all-IsSentToAll wire addrs [] in
    (((refl, same), ap (λ (l : List Addr). a ∷ l) to), left ∙ drop-empty (length addrs))
send_to_all-IsSentToAll wire ((k, a) ∷ addrs) (true ∷ os) =
    let ((same, to), left) = send_to_all-IsSentToAll wire addrs os in
    (((refl, same), ap (λ (l : List Addr). a ∷ l) to), left)
send_to_all-IsSentToAll wire ((k, a) ∷ addrs) (false ∷ os) = send_to_all-IsSentToAll wire addrs os

add_zero : (a : ℕ) → a ≡ a + 0
add_zero a = omega arith

add_assoc : (a n : ℕ) → a + 1 + n ≡ a + suc n
add_assoc a n = omega arith

count_assoc :
    (a : ℕ) (xs ys : List (Bytes × Addr)) → a + length xs + length ys ≡ a + length (xs ++ ys)
count_assoc a xs ys = omega (arith, length-append xs ys)

-- The datagrams for the results of error correction: the packet of each has the next number of each of
-- the two sequences and is on path 0, and one with its bytes goes to each address whose call succeeds.
abbrev pub IsReturned :
    Aead
    → Option PacketCrypto
    → (stamp : ℕ) → Dict Addr
    → List (Bytes × FecMetadata)
    → List Bool
    → (seq global_seq : ℕ) → List (Bytes × Addr)
    → Type 0
IsReturned aead crypto stamp addrs [] outcomes seq global_seq sent = sent ≡ []
IsReturned aead crypto stamp addrs (r ∷ rs) outcomes seq global_seq sent =
    (pkt : HyperAggPacket) × (wire : Bytes) × (first : List (Bytes × Addr)) × (rest : List
      (Bytes × Addr))
    × (seal_packet aead crypto (build_packet stamp r.0 r.1 0 seq global_seq) ≡ ok pkt)
    × (serialize pkt ≡ ok wire)
    × (sent ≡ first ++ rest)
    × IsSentToAll wire addrs outcomes first
    × IsReturned aead crypto stamp addrs rs (drop (length addrs) outcomes) (seq + 1)
        (global_seq + 1) rest

module _ {Float : Type 0} where
  -- What sending the results of error correction does.
  pub record Returned (aead : Aead) (stamp : ℕ) (addrs : Dict Addr)
      (results : List (Bytes × FecMetadata)) (outcomes : List Bool) (s : TunnelServer Float)
      (e : Effect Float) : Type 0 where
    pub datagrams :
        IsReturned aead s.crypto stamp addrs results outcomes s.return_path_seq s.return_global_seq
          e.sent
    pub server_is : e.server ≡ record s {
      return_global_seq = s.return_global_seq + length results;
      return_path_seq = s.return_path_seq + length results;
      packets_sent = s.packets_sent + length e.sent;
    }
    pub nothing_written : e.written ≡ []

  -- The packet for each result of error correction has the next number of each of the two sequences,
  -- whatever the socket does, and is sealed and sent to every address of the session whose call
  -- succeeds, in turn. The state changes in the two sequences, which go up by the number of results,
  -- and in the count of sent packets, which goes up by the datagrams that the socket took; and nothing
  -- is written to the TUN device.
  pub send_results-Returned :
      (aead : Aead) (stamp : ℕ) (addrs : Dict Addr) (results : List (Bytes × FecMetadata))
      (outcomes : List Bool) (s : TunnelServer Float) (e : Effect Float)
      → send_results aead stamp addrs results outcomes s ≡ ok e
      → Returned aead stamp addrs results outcomes s e
  unfolding send_results return_packet
  send_results-Returned aead stamp addrs [] outcomes s e h = rw (← ok-injective h) (record {
    datagrams = refl;
    server_is = λ i. record s {
      return_global_seq = add_zero s.return_global_seq i;
      return_path_seq = add_zero s.return_path_seq i;
      packets_sent = add_zero s.packets_sent i;
    };
    nothing_written = refl;
  })
  send_results-Returned aead stamp addrs (r ∷ rs) outcomes s e h =
      let (pkt, p, h1) = >>=-eq-ok (return_packet aead stamp r s) _ {final = e} h in
      let (wire, w, h2) = >>=-eq-ok (serialize pkt) _ {final = e} h1 in
      let (first, left) = send_to_all wire addrs outcomes in
      let (to_all, left_is) = send_to_all-IsSentToAll wire addrs outcomes in
      let s' : TunnelServer Float = record s {
        packets_sent = s.packets_sent + length first;
        return_global_seq = s.return_global_seq + 1;
        return_path_seq = s.return_path_seq + 1;
      } in
      let (e', k, h3) = >>=-eq-ok (send_results aead stamp addrs rs left s') _ {final = e} h2 in
      let ih = send_results-Returned aead stamp addrs rs left s' e' k in
      rw (← ok-injective h3) (record {
        datagrams = (
          pkt,
          wire,
          first,
          e'.sent,
          p,
          w,
          refl,
          to_all,
          subst
              (λ (os : List Bool).
                IsReturned aead s.crypto stamp addrs rs os (s.return_path_seq + 1)
                  (s.return_global_seq + 1) e'.sent)
              left_is ih.datagrams,
        );
        server_is = ih.server_is ∙ (λ i. record s {
          return_global_seq = add_assoc s.return_global_seq (length rs) i;
          return_path_seq = add_assoc s.return_path_seq (length rs) i;
          packets_sent = count_assoc s.packets_sent first e'.sent i;
        });
        nothing_written = ih.nothing_written;
      })

  -- The two directions share their nonces. With encryption on, the packet that the server sends with
  -- its number g and the packet with that number that the client sends on path 0 are sealed under the
  -- same nonce of the same key, whatever the two payloads are.
  pub return_nonce_shared :
      (aead : Aead) (c : PacketCrypto) (s : TunnelServer Float) (stamp stamp' seq : ℕ)
      (text text' : Bytes) (meta meta' : FecMetadata) (from_server from_client : HyperAggPacket)
      → s.crypto ≡ some c
      → return_packet aead stamp (text, meta) s ≡ ok from_server
      → seal_packet aead (some c) (build_packet stamp' text' meta' 0 seq s.return_global_seq)
        ≡ ok from_client
      → (nonce : Bytes) × SealedUnder aead c nonce text from_server
        × SealedUnder aead c nonce text' from_client
  unfolding return_packet
  return_nonce_shared aead c s stamp stamp' seq text text' meta meta' p q on h h' =
      let (nonce, n) = derive_nonce_total s.return_global_seq 0 (omega arith) in
      let p' : HyperAggPacket =
        build_packet stamp text meta 0 s.return_path_seq s.return_global_seq in
      let q' : HyperAggPacket = build_packet stamp' text' meta' 0 seq s.return_global_seq in
      let f = build_packet_fields stamp text meta 0 s.return_path_seq s.return_global_seq in
      let f' = build_packet_fields stamp' text' meta' 0 seq s.return_global_seq in
      let x =
        seal_packet-SealedUnder aead c p' p nonce (ap₂ derive_nonce f.1 f.2 ∙ n)
          (ap (λ (o : Option PacketCrypto). seal_packet aead o p') (sym on) ∙ h) in
      let y = seal_packet-SealedUnder aead c q' q nonce (ap₂ derive_nonce f'.1 f'.2 ∙ n) h' in
      (
        nonce,
        (x.0, x.1 ∙ ap (λ (b : Bytes). aead.seal c.key nonce b x.0) f.0),
        (y.0, y.1 ∙ ap (λ (b : Bytes). aead.seal c.key nonce b y.0) f'.0),
      )
