-- ===== src/Setup/Startup.antt =====
-- `main` of svoiptunnel/voiptunnel.cpp behind the command line: what is started from the options and
-- the configuration.
pub mod Choice
use svoiptunnel.Setup.Arguments.{
  Options, TunnelMode, TunnelType, dtls, http, https, invalid, mode_client, mode_invalid,
  mode_server, tcp, tls, udp, websockets,
}
use svoiptunnel.Base.{
  ℕ, ◌%◌, ◌^◌, Bool, true, false, ◌&&◌, ◌||◌, List, [], ◌∷◌, Bytes, codes, same, is_empty, Option,
  none, some, Outcome, ok, fails, null_pointer, over_read, ◌>>=◌, if◌then◌else◌, ◌==◌,
}
use svoiptunnel.Base.Dict.{Dict}
use svoiptunnel.Setup.Config.{value_string, value_int}

-- The value of `mode` in the configuration.
unfoldable pub mode_named : Bytes → TunnelMode
mode_named s =
    if same s (codes "client")
    then mode_client
    else if same s (codes "server")
    then mode_server
    else mode_invalid

unfoldable pub choose_mode : Options → Dict Bytes Bytes → TunnelMode
unfolding value_string mode_named
choose_mode o items = elim o.mode [
  | mode_invalid ↦ mode_named (value_string items (codes "mode") [])
  | mode_client ↦ mode_client
  | mode_server ↦ mode_server
]

-- The value of `type` in the configuration.
unfoldable pub type_named : Bytes → TunnelType
type_named s =
    if same s (codes "udp")
    then udp
    else if same s (codes "dtls")
    then dtls
    else if same s (codes "tls")
    then tcp
    else if same s (codes "tcp")
    then tls
    else if same s (codes "http")
    then http
    else if same s (codes "https")
    then https
    else if same s (codes "websockets")
    then websockets
    else invalid

-- The class of the link that is made.
pub data LinkClass : Type 0 where
  vpn_udp_link vpn_dtls_link vpn_tcp_link vpn_tls_link : LinkClass

-- The `switch` on the type, which is the same in both modes.
unfoldable pub link_class : TunnelType → Option LinkClass
link_class udp = some vpn_udp_link
link_class dtls = some vpn_dtls_link
link_class tcp = some vpn_tcp_link
link_class tls = some vpn_tls_link
link_class _ = none

-- `getLocalIP`: whether it succeeds, and the addresses in order. `*begin()` of an empty set is
-- undefined.
unfoldable pub find_local_ip :
    Options → Dict Bytes Bytes → Option (List Bytes) → Outcome (Option Bytes)
unfolding value_string
find_local_ip o items host =
    let configured = value_string items (codes "localip") [] in
    if o.have_local_ip
    then ok (some o.local_ip)
    else if is_empty configured
    then elim host [
      | none ↦ ok none
      | some addrs ↦ elim addrs [ [] ↦ fails over_read | addr ∷ _ ↦ ok (some addr) ]
    ]
    else ok (some configured)

unfoldable pub find_public_ip : Options → Dict Bytes Bytes → Bytes
unfolding value_string
find_public_ip o items =
    if o.have_public_ip then o.public_ip else value_string items (codes "publicip") []

unfoldable pub find_server_port : (Bytes → Option ℕ) → Options → Dict Bytes Bytes → Outcome ℕ
unfolding value_int
find_server_port to_int o items =
    if o.server_port == 0
    then value_int to_int items (codes "tunnelserverport") 0
    else ok o.server_port

unfoldable pub find_server_addr : Options → Dict Bytes Bytes → Bytes
unfolding value_string
find_server_addr o items =
    if is_empty o.server_addr
    then value_string items (codes "tunnelserveraddr") []
    else o.server_addr

-- The end of the link: a port to listen on, or an address and a port to connect to. The constructors
-- take the port as 16 bits.
pub data Side : Type 0 where
  listens : ℕ → Side
  dials : Bytes → ℕ → Side

-- What `io_service.run()` is entered with.
pub record Running : Type 0 where
  pub sip_port : ℕ
  pub class : LinkClass
  pub side : Side
  pub local_addr : Bytes
  pub public_addr : Bytes

-- The side by the mode; none where it is not set, or has no server address.
unfoldable pub choose_side : Options → Dict Bytes Bytes → ℕ → Option Side
unfolding choose_mode find_server_addr
choose_side o items port = elim (choose_mode o items) [
  | mode_server ↦ some (listens (port % 2 ^ 16))
  | mode_client ↦
      if is_empty (find_server_addr o items)
      then none
      else some (dials (find_server_addr o items) (port % 2 ^ 16))
  | mode_invalid ↦ none
]

-- What `main` does with its local variables once the addresses and the port are found.
unfoldable pub make_running : Options → Dict Bytes Bytes → Bytes → ℕ → TunnelType → Option Running
unfolding find_public_ip choose_side link_class
make_running o items local port type = elim (choose_side o items port) [
  | none ↦ none
  | some side ↦ elim (link_class type) [
    | none ↦ none
    | some class ↦ some (record {
      sip_port = o.listen_port;
      class = class;
      side = side;
      local_addr = local;
      public_addr = find_public_ip o items;
    })
  ]
]

abbrev pub is_invalid : TunnelType → Bool
is_invalid invalid = true
is_invalid _ = false

-- Behind the search for the port.
abbrev pub start_at : Options → Dict Bytes Bytes → TunnelType → Bytes → ℕ → Outcome (Option Running)
start_at o items type local port =
    if port == 0 then ok none else ok (make_running o items local port type)

-- Behind the search for the local address.
abbrev pub start_local :
    (Bytes → Option ℕ)
    → Options
    → Dict Bytes Bytes
    → TunnelType
    → Option Bytes
    → Outcome (Option Running)
start_local to_int o items type none = ok none
start_local to_int o items type (some local) =
    find_server_port to_int o items >>= start_at o items type local

abbrev pub configured_type : Dict Bytes Bytes → TunnelType
configured_type items = type_named (value_string items (codes "type") [])

-- `main` behind the arguments. None where it ends with -1.
unfoldable pub start :
    (Bytes → Option ℕ) → Options → Dict Bytes Bytes → Option (List Bytes) → Outcome (Option Running)
unfolding find_local_ip find_server_port make_running type_named
start to_int o items host =
    if is_invalid (configured_type items)
    then ok none
    else find_local_ip o items host >>= start_local to_int o items (configured_type items)
