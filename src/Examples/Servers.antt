-- ===== src/Examples/Servers.antt =====
-- A short history of the server of svoiptunnel/sipserver.cpp.
use svoiptunnel.Vpn.Node.{send_signalling}
use svoiptunnel.Sip.Message.{parse}
use svoiptunnel.Base.Dict.{insert, erase, find}
use svoiptunnel.Sip.Headers.{scan_incoming}
use svoiptunnel.Sip.Registry.{get_id, put_slot}
use svoiptunnel.Sip.Media.{Server}
use svoiptunnel.Sip.Proxy.{Action, with_content}
use svoiptunnel.Sip.Proxy.Histories.{handle_all-IsSound}
use svoiptunnel.Sip.Proxy.Sound.{IsSound}
use svoiptunnel.Sip.Proxy.Inputs.{Input, from_phone, handle_all, starting, tick}
use svoiptunnel.Base.{
  has_prefix, same, ok, fails, List, Outcome, [], codes, false, length, refl, ℕ, ◌∷◌, ◌≡◌,
}
use svoiptunnel.Examples.Histories.{client_node}
use svoiptunnel.Examples.Proxies.{wanted, options_of}
use svoiptunnel.Examples.Worlds.{world, client_end}

-- A phone sends a request, and later the timer ticks, which closes its endpoint.
abbrev inputs : List (ℕ × Input)
inputs = (0, from_phone 0 (codes "a") 60 (options_of wanted)) ∷ (90, tick false) ∷ []

abbrev result : Outcome (Server × List Action) → Server × List Action
result (ok r) = r
result (fails why) = (client_end, [])

abbrev behind : Server × List Action
behind = result (handle_all world inputs (starting client_node))

handle_all-IsSound_example : IsSound world behind.0
unfolding handle_all parse scan_incoming has_prefix same find send_signalling put_slot
handle_all-IsSound_example = handle_all-IsSound world client_node inputs behind.0 behind.1 refl

-- The request and the reply, and no endpoint in the end.
history_test : (length behind.1 ≡ 2) × (behind.0.registry.addr_map ≡ [])
unfolding handle_all parse scan_incoming has_prefix same find send_signalling put_slot get_id
    with_content erase insert
history_test = (refl, refl)
