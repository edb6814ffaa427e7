-- ===== src/Examples/Setups.antt =====
-- Start-up and configuration at concrete inputs.
use svoiptunnel.Base.{
  ℕ, ◌+◌, ◌*◌, ◌-◌, ◌≡◌, refl, List, [], ◌∷◌, Bytes, codes, Option, none, some, same,
}
use svoiptunnel.Base.Dict.{Dict, bytes_eq, find, assign}
use svoiptunnel.Setup.Config.{read}
use svoiptunnel.Setup.Config.Items.{Line, comment, entry, print}
use svoiptunnel.Setup.Startup.{start, Running, vpn_tcp_link, dials}
use svoiptunnel.Setup.Arguments.{default_options}
use svoiptunnel.Setup.Startup.Choice.{Starts, start-class}

-- Decimal digits, of which there is at least one.
abbrev pub digits : ℕ → Bytes → ℕ
digits n [] = n
digits n (c ∷ s) = digits (n * 10 + (c - b'0')) s

abbrev pub decimal : Bytes → Option ℕ
decimal [] = none
decimal (c ∷ s) = some (digits 0 (c ∷ s))

abbrev pub lines : List Line
lines =
    comment (codes " the tunnel")
    ∷ entry (codes "type") (codes "tls")
    ∷ entry (codes "mode") (codes "client")
    ∷ entry (codes "localip") (codes "10.0.0.1")
    ∷ entry (codes "tunnelserveraddr") (codes "10.0.0.2")
    ∷ entry (codes "tunnelserverport") (codes "5000")
    ∷ []

abbrev items : Dict Bytes Bytes
items =
    (codes "type", codes "tls")
    ∷ (codes "mode", codes "client")
    ∷ (codes "localip", codes "10.0.0.1")
    ∷ (codes "tunnelserveraddr", codes "10.0.0.2")
    ∷ (codes "tunnelserverport", codes "5000")
    ∷ []

read-print-items : read (print lines) ≡ items
unfolding read assign same
read-print-items = refl

abbrev arguments : List (Bytes × Bytes)
arguments = (codes "-m", codes "c") ∷ (codes "-p", codes "5000") ∷ []

abbrev running : Running
running = record {
  sip_port = 5060;
  class = vpn_tcp_link;
  side = dials (codes "10.0.0.2") 5000;
  local_addr = codes "10.0.0.1";
  public_addr = [];
}

start-class_example : Starts (codes "tls") vpn_tcp_link
unfolding start same find
start-class_example = start-class decimal default_options items none running refl
