-- ===== src/Sip/Proxy/Inputs.antt =====
-- What `sipserver` is given, one after the other: datagrams of phones, new and known, and of media, what the links
-- report, and the ticks of its timer (svoiptunnel/sipserver.cpp and sipdataconn.cpp).
use svoiptunnel.Sip.Registry.{empty_registry, slot, touch}
use svoiptunnel.Vpn.Link.{Effect}
use svoiptunnel.Sip.Proxy.{Action, on_event, on_phone, tunnelled, process_incoming}
use svoiptunnel.Vpn.Node.{Node, Origin}
use svoiptunnel.Sip.Media.{Server, World, on_media}
use svoiptunnel.Base.{ℕ, Bool, Bytes, List, Outcome, [], ◌++◌, ◌>>=◌, ◌∷◌, none, some, ok}
use svoiptunnel.Sip.Registry

-- `past` is the byte behind the buffer of a signalling message.
pub data Input : Type 0 where
  from_phone : (past : ℕ) → Bytes → ℕ → Bytes → Input
  from_endpoint : (past : ℕ) → ℕ → Bytes → Input
  from_link : Origin → (past : ℕ) → Effect → Input
  from_media : ℕ → Bytes → Input
  tick : Bool → Input

-- `sipendpoint::onReceive`, of an endpoint that is there.
unfoldable pub on_endpoint : World → ℕ → ℕ → ℕ → Bytes → Server → Outcome (Server × List Action)
unfolding process_incoming touch
on_endpoint w past ch now buf s =
    elim (slot s.registry.clients ch) as (λ _. Outcome (Server × List Action)) [
      | none ↦ ok (s, [])
      | some e ↦
          process_incoming w past ch now buf
            (record s { registry = touch w.boost.show s.registry ch now })
    ]

unfoldable pub handle : World → ℕ → Input → Server → Outcome (Server × List Action)
unfolding on_phone on_endpoint on_event on_media Registry.timer_tick
handle w now (from_phone past addr port buf) s = on_phone w past addr port now buf s
handle w now (from_endpoint past ch buf) s = on_endpoint w past ch now buf s
handle w now (from_link link past effect) s = on_event w link past now effect s
handle w now (from_media ref buf) s = on_media s ref buf >>= λ r. ok (r.0, tunnelled r.1)
handle w now (tick aborted) s =
    ok (record s { registry = Registry.timer_tick w.boost.show aborted now s.registry }, [])

-- All of them, each with its time.
unfoldable pub handle_all : World → List (ℕ × Input) → Server → Outcome (Server × List Action)
unfolding handle
handle_all w [] s = ok (s, [])
handle_all w ((now, i) ∷ more) s =
    handle w now i s >>= λ r. handle_all w more r.0 >>= λ t. ok (t.0, r.1 ++ t.1)

-- At the start.
abbrev pub starting : Node → Server
starting node = record {
  registry = empty_registry;
  node = node;
  calls = [];
  conns = [];
  data_ports = [];
}
