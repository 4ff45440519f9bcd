-- ===== src/Tunnel/Server/Sessions.antt =====
-- The sessions of hyperagg/tunnel/server.py: where answers for a client go.
use ratan_engine.Prelude.{
  ℕ, ◌≡◌, Bool, true, false, Option, none, some, [], arith, ◌==◌, ◌+◌, if◌then◌else◌, Bool-cases,
  Option-cases, ==_iff, inl, inr, ◌∙◌, ap,
}
use ratan_engine.Prelude.Dict.{lookup, insert, lookup-insert}
use ratan_engine.Tunnel.Server.{
  TunnelServer, ClientSession, Addr, knows, session_of, get_or_create_session, set_path_addr,
  touch_session, put_session,
}

-- The slot of a client's path
abbrev pub is_slot : (client path_id k j : ℕ) → Bool
is_slot client path_id k j = if client == k then path_id == j else false

module _ {Float : Type 0} where
  -- The address that the server has for a path of a client
  unfoldable pub path_addr : ℕ → ℕ → TunnelServer Float → Option Addr
  path_addr client path_id s = elim (lookup client s.sessions) [
    | none ↦ none
    | some c ↦ lookup path_id c.path_addrs
  ]

  set_lookup :
      (now : Float) (addr : Addr) (path_id j : ℕ) (s : TunnelServer Float)
      → lookup j (insert path_id addr (session_of now addr.ip s).path_addrs)
        ≡ (if path_id == j then some addr else path_addr addr.ip j s)
  unfolding path_addr session_of lookup
  set_lookup now addr path_id j s = elim (Option-cases (lookup addr.ip s.sessions)) [
    | inl missing ↦ rw (missing, path_addr, session_of) (lookup-insert path_id j addr [])
    | inr (c, found) ↦ rw (found, path_addr, session_of) (lookup-insert path_id j addr c.path_addrs)
  ]

  path_addr-put :
      (client k j : ℕ) (c : ClientSession Float) (s : TunnelServer Float)
      → path_addr k j (put_session client c s)
        ≡ (if client == k then lookup j c.path_addrs else path_addr k j s)
  unfolding path_addr
  path_addr-put client k j c s = elim (Bool-cases (client == k)) [
    | inl same ↦ ground (arith, same, lookup-insert client k c s.sessions)
    | inr other ↦ ground (arith, other, lookup-insert client k c s.sessions)
  ]

  path_addr_same :
      (client k j : ℕ) (s : TunnelServer Float)
      → (client == k) ≡ true
      → path_addr client j s ≡ path_addr k j s
  path_addr_same client k j s h = ap (λ (c : ℕ). path_addr c j s) ((==_iff client k).0 h)

  put_addr :
      (now : Float) (addr : Addr) (path_id k j : ℕ) (s : TunnelServer Float)
      → let c = session_of now addr.ip s in
        path_addr k j
          (put_session addr.ip (record c { path_addrs = insert path_id addr c.path_addrs }) s)
        ≡ (if is_slot addr.ip path_id k j then some addr else path_addr k j s)
  put_addr now addr path_id k j s =
      let c = session_of now addr.ip s in
      let c' : ClientSession Float = record c { path_addrs = insert path_id addr c.path_addrs } in
      path_addr-put addr.ip k j c' s ∙ (elim (Bool-cases (addr.ip == k)) [
        | inl same ↦ rw same (
            set_lookup now addr path_id j s
            ∙ ap (λ (o : Option Addr). if path_id == j then some addr else o)
                (path_addr_same addr.ip k j s same))
        | inr other ↦ rw other
      ])

  pub session_lookup :
      (now : Float) (client j : ℕ) (s : TunnelServer Float)
      → lookup j (session_of now client s).path_addrs ≡ path_addr client j s
  unfolding path_addr session_of lookup
  session_lookup now client j s = elim (Option-cases (lookup client s.sessions)) [
    | inl missing ↦ rw (missing, path_addr, session_of)
    | inr (c, found) ↦ rw (found, path_addr, session_of)
  ]

  -- Counting a packet leaves the addresses.
  pub put_same :
      (client k j : ℕ) (c : ClientSession Float) (s : TunnelServer Float)
      → lookup j c.path_addrs ≡ path_addr client j s
      → path_addr k j (put_session client c s) ≡ path_addr k j s
  put_same client k j c s h = path_addr-put client k j c s ∙ (elim (Bool-cases (client == k)) [
    | inl same ↦ rw same (h ∙ path_addr_same client k j s same)
    | inr other ↦ rw other
  ])

  get_or_create-path_addr :
      (now : Float) (addr : Addr) (path_id k j : ℕ) (s : TunnelServer Float)
      → path_addr k j (get_or_create_session now addr path_id s) ≡ (
          if knows addr s.known_addrs
          then path_addr k j s
          else if is_slot addr.ip path_id k j
          then some addr
          else path_addr k j s)
  unfolding get_or_create_session path_addr
  get_or_create-path_addr now addr path_id k j s = elim (Bool-cases (knows addr s.known_addrs)) [
    | inl known ↦ rw known
    | inr unknown ↦ rw unknown (put_addr now addr path_id k j s)
  ]

  pub set_path_addr_moves :
      (now : Float) (addr : Addr) (path_id k j : ℕ) (s : TunnelServer Float)
      → path_addr k j (set_path_addr now addr path_id s)
        ≡ (if is_slot addr.ip path_id k j then some addr else path_addr k j s)
  unfolding set_path_addr
  set_path_addr_moves now addr path_id k j s =
      put_addr now addr path_id k j (get_or_create_session now addr path_id s)
      ∙ ground (arith, get_or_create-path_addr now addr path_id k j s)

  pub touch_session_moves :
      (now : Float) (addr : Addr) (path_id k j : ℕ) (s : TunnelServer Float)
      → path_addr k j (touch_session now addr path_id s) ≡ (
          if knows addr s.known_addrs
          then path_addr k j s
          else if is_slot addr.ip path_id k j
          then some addr
          else path_addr k j s)
  unfolding touch_session
  touch_session_moves now addr path_id k j s =
      let s' = get_or_create_session now addr path_id s in
      let c = session_of now addr.ip s' in
      put_same addr.ip k j (record c { last_seen = now; packets_received = c.packets_received + 1 })
        s' (session_lookup now addr.ip j s')
      ∙ get_or_create-path_addr now addr path_id k j s
