-- ===== src/Examples/Worlds.antt =====
-- The surroundings of the server of svoiptunnel/sipserver.cpp in the examples: a boost that knows a few
-- header lines, and a server at each end of the tunnel.
use svoiptunnel.Base.{
  ℕ, zero, suc, ◌+◌, ◌*◌, ◌/◌, ◌%◌, true, ◌&&◌, List, [], ◌∷◌, ◌++◌, Bytes, codes, same, Option,
  none, some, if◌then◌else◌, ◌==◌, ltb,
}
use svoiptunnel.Base.Dict.{Dict}
use svoiptunnel.Examples.Histories.{client_node, server_node}
use svoiptunnel.Examples.Setups.{decimal}
use svoiptunnel.Sip.Boost.{Boost}
use svoiptunnel.Sip.Media.{World, Server}
use svoiptunnel.Sip.Registry.{Registry, empty_registry, on_accept}

-- Digits of a number below ten to the fuel.
abbrev show_digits : ℕ → ℕ → Bytes → Bytes
show_digits zero n later = later
show_digits (suc fuel) n later =
    let longer = show_digits fuel (n / 10) ((b'0' + n % 10) ∷ later) in
    if ltb n 10 then (b'0' + n) ∷ later else longer

abbrev pub show : ℕ → Bytes
show n = show_digits 5 n []

-- The piece before the first separator, and the others.
abbrev split_into : ℕ → Bytes → Bytes → List Bytes
split_into at [] piece = piece ∷ []
split_into at (c ∷ s) piece =
    let behind = split_into at s [] in
    let further = split_into at s (piece ++ c ∷ []) in if c == at then piece ∷ behind else further

abbrev split : ℕ → Bytes → List Bytes
split at s = split_into at s []

-- Matches of an expression and a line.
abbrev matches : List (Bytes × Bytes × List Bytes)
matches =
    (codes "^To:\\s<(\\S+)>.*", codes "To: <ann@>", codes "ann@" ∷ [])
    ∷ (codes "^Max-Forwards:\\s+(\\S+).*", codes "Max-Forwards: 0", codes "0" ∷ [])
    ∷ (codes "^Max-Forwards:\\s+(\\S+).*", codes "Max-Forwards: 70", codes "70" ∷ [])
    ∷ (codes "^Content-Length:\\s+(\\d+)", codes "Content-Length: 2", codes "2" ∷ [])
    ∷ (codes "^Call-ID:\\s+(\\S+).*", codes "Call-ID: 14e3", codes "14e3" ∷ [])
    ∷ (
      codes "^Via:.*;branch=([^; ]+).*$",
      codes "Via: SIP/2.0/UDP 1.2.3.4:5060;rport;branch=z9hG4bK-77-3",
      codes "z9hG4bK-77-3" ∷ [],
    )
    ∷ []

abbrev look_up : List (Bytes × Bytes × List Bytes) → Bytes → Bytes → Option (List Bytes)
look_up [] regx line = none
look_up ((r, l, parts) ∷ more) regx line =
    let further = look_up more regx line in
    if same line l && same regx r then some (l ∷ parts) else further

abbrev pub small_boost : Boost
small_boost = record {
  regex_match = look_up matches;
  regex_replace = λ text regx new_text. text;
  split = split;
  to_int = decimal;
  to_unsigned = decimal;
  to_ushort = decimal;
  show = show;
  show_int = show;
}

abbrev items : Dict Bytes Bytes
items = (codes "defaultsipserver", codes "b") ∷ (codes "defaultsipport", codes "60") ∷ []

abbrev pub world : World
world = record {
  boost = small_boost;
  reachable = λ addr port. true;
  bound_port = λ n. 40000 + 2 * n;
  items = items;
  local_ip = codes "10.0.0.1";
  public_ip = codes "1.2.3.4";
  sip_port = 5060;
}

abbrev pub registry : Registry
registry = (on_accept show empty_registry (codes "a") 60 0).0

-- The ends of the tunnel: the client, and the server with two accepted links.
abbrev pub client_end : Server
client_end = record {
  registry = registry;
  node = client_node;
  calls = [];
  conns = [];
  data_ports = [];
}

abbrev pub server_end : Server
server_end = record {
  registry = registry;
  node = server_node;
  calls = [];
  conns = [];
  data_ports = [];
}
