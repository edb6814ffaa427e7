-- ===== src/Setup/Startup/Choice.antt =====
-- Which link is started, and with which address and port.
use svoiptunnel.Vpn.Node.{run}
use svoiptunnel.Base.{
  ℕ, ◌%◌, ◌^◌, ◌≡◌, ◌≢◌, refl, ◌⊎◌, false, List, [], Bytes, codes, same_iff, is_empty, arith,
  Option, none, some, Option-cases, Bool-cases, inl, inr, ok, >>=-eq-ok, ◌==◌,
}
use svoiptunnel.Base.Dict.{Dict}
use svoiptunnel.Setup.Config.{value_string}
use svoiptunnel.Setup.Startup.{
  LinkClass, vpn_udp_link, vpn_dtls_link, vpn_tcp_link, vpn_tls_link, Running, type_named,
  link_class, is_invalid, choose_mode, choose_side, Side, listens, dials, find_server_addr,
  find_local_ip, find_server_port, make_running, start_at, start_local, configured_type, start,
}
use svoiptunnel.Setup.Arguments.{
  Options, mode_client, mode_server, mode_invalid, TunnelMode, TunnelType,
}

-- What a value of `type` in the configuration starts.
abbrev pub Starts : Bytes → LinkClass → Type 0
Starts s c =
    ((s ≡ codes "udp") × (c ≡ vpn_udp_link))
    ⊎ ((s ≡ codes "dtls") × (c ≡ vpn_dtls_link))
    ⊎ ((s ≡ codes "tls") × (c ≡ vpn_tcp_link))
    ⊎ ((s ≡ codes "tcp") × (c ≡ vpn_tls_link))

Starts-type_named : (s : Bytes) (c : LinkClass) → link_class (type_named s) ≡ some c → Starts s c
unfolding type_named link_class
Starts-type_named s c h = ground (
  arith,
  same_iff s (codes "udp"),
  same_iff s (codes "dtls"),
  same_iff s (codes "tls"),
  same_iff s (codes "tcp"),
)

-- The facts about a run, by the state it is started from.
pub record IsStarted (to_int : Bytes → Option ℕ) (o : Options) (items : Dict Bytes Bytes)
    (host : Option (List Bytes)) (run : Running) : Type 0 where
  pub type : link_class (configured_type items) ≡ some run.class
  pub local : find_local_ip o items host ≡ ok (some run.local_addr)
  pub port : ℕ
  pub found : find_server_port to_int o items ≡ ok port
  pub nonzero : port ≢ 0
  pub side : choose_side o items port ≡ some run.side

abbrev pub IsSide : Options → Dict Bytes Bytes → ℕ → Side → Type 0
IsSide o items port side =
    ((choose_mode o items ≡ mode_server) × (side ≡ listens (port % 2 ^ 16)))
    ⊎ ((choose_mode o items ≡ mode_client)
        × (find_server_addr o items ≢ [])
        × (side ≡ dials (find_server_addr o items) (port % 2 ^ 16)))

TunnelMode-cases : (m : TunnelMode) → (m ≡ mode_server) ⊎ ((m ≡ mode_client) ⊎ (m ≡ mode_invalid))
TunnelMode-cases mode_server = inl refl
TunnelMode-cases mode_client = inr (inl refl)
TunnelMode-cases mode_invalid = inr (inr refl)

is_empty-false : (s : Bytes) → is_empty s ≡ false → s ≢ []
is_empty-false s h = ground arith

sided :
    (o : Options) (items : Dict Bytes Bytes) (port : ℕ) (side : Side)
    → choose_side o items port ≡ some side
    → IsSide o items port side
unfolding choose_side
sided o items port side h = elim (TunnelMode-cases (choose_mode o items)) [
  | inl listening ↦ ground arith
  | inr (inl dialling) ↦ elim (Bool-cases (is_empty (find_server_addr o items))) [
    | inl unset ↦ ground arith
    | inr given ↦ ground (arith, is_empty-false (find_server_addr o items) given)
  ]
  | inr (inr unset) ↦ ground arith
]

made :
    (o : Options) (items : Dict Bytes Bytes) (local : Bytes) (port : ℕ) (type : TunnelType)
    (run : Running)
    → make_running o items local port type ≡ some run
    → (choose_side o items port ≡ some run.side)
      × (link_class type ≡ some run.class)
      × (local ≡ run.local_addr)
unfolding make_running
made o items local port type run h = elim (Option-cases (choose_side o items port)) [
  | inl none_side ↦ ground arith
  | inr (side, e) ↦ elim (Option-cases (link_class type)) [
    | inl none_class ↦ ground arith
    | inr (class, k) ↦ ground arith
  ]
]

module _ (to_int : Bytes → Option ℕ) (o : Options) (items : Dict Bytes Bytes)
    (host : Option (List Bytes)) (run : Running) where
  started :
      (found : Option Bytes)
      → find_local_ip o items host ≡ ok found
      → start_local to_int o items (configured_type items) found ≡ ok (some run)
      → IsStarted to_int o items host run
  started none e h = cc
  started (some local) e h =
      let (port, p, h') =
        >>=-eq-ok {t = some run} (find_server_port to_int o items)
          (start_at o items (configured_type items) local) h in
      elim (Bool-cases (port == 0)) [
        | inl zero_port ↦ ground arith
        | inr nonzero ↦
            let (s, c, l) = made o items local port (configured_type items) run (ground arith) in
            record {
              type = c;
              local = ground arith;
              port = port;
              found = p;
              nonzero = ground arith;
              side = s;
            }
      ]

  start-IsStarted : start to_int o items host ≡ ok (some run) → IsStarted to_int o items host run
  unfolding start
  start-IsStarted h = elim (Bool-cases (is_invalid (configured_type items))) [
    | inl bad ↦ ground arith
    | inr good ↦
        let (found, e, h') =
          >>=-eq-ok {t = some run} (find_local_ip o items host)
            (start_local to_int o items (configured_type items)) (ground arith) in
        started found e h'
  ]

  -- What is started depends on `type` in the configuration: "udp" and "dtls" start the links of these
  -- names, but "tls" starts the TCP link, which does not encrypt, and "tcp" the TLS link. With any
  -- other type nothing is started.
  pub start-class :
      start to_int o items host ≡ ok (some run)
      → Starts (value_string items (codes "type") []) run.class
  start-class h = Starts-type_named _ run.class (start-IsStarted h).type

  -- A program that is started dials an address that is not empty, or listens, according to its mode,
  -- and with the port that was found, which is not 0, cut to 16 bits.
  pub start-side :
      start to_int o items host ≡ ok (some run)
      → (port : ℕ) × (find_server_port to_int o items ≡ ok port)
        × (port ≢ 0)
        × IsSide o items port run.side
  start-side h =
      let v = start-IsStarted h in
      (v.port, v.found, v.nonzero, sided o items v.port run.side v.side)
