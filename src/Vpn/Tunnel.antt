-- ===== src/Vpn/Tunnel.antt =====
-- What a transport may do to the links of svoiptunnel/vpnlinkbase.cpp: call the methods of the link
-- itself or of a link that it has accepted, and admit a new accepted link.
pub mod Timely
use svoiptunnel.Base.Dict.{assign, find}
use svoiptunnel.Vpn.Node.{Call, Node, Sent, accept, at_client, on_accept, perform, run}
use svoiptunnel.Base.{
  ℕ, All, Bool, Bytes, List, [], ap, append-nil, append_assoc, refl, some, sym, ◌++◌, ◌∙◌, ◌∷◌, ◌≡◌,
  ok,
}
use svoiptunnel.Vpn.Link.{Endpoint, Link, accepted, new_link}
use svoiptunnel.Vpn.Endpoints.{endpoint_eq}

-- A link by itself, whose map is empty.
abbrev pub alone : Link → Node
alone l = record { link = l; clients = [] }

abbrev pub from_guest : Endpoint → Sent → Sent
from_guest ep [] = []
from_guest ep ((o, e) ∷ more) = (at_client ep, e) ∷ from_guest ep more

-- The calls that a link makes on itself; `accept` has a step of its own.
abbrev pub IsOwn : Call → Type 0
IsOwn (accept ep l) = ⊥
IsOwn _ = Unit

-- A new accepted link with an id.
abbrev pub newborn : Bytes → Link
newborn id = record (new_link accepted) { id = id }

-- One step from a node to the next, with what goes out. A link that has not been kept, as its endpoint
-- is in the map, may still send (`passes`).
pub data Move (less : Endpoint → Endpoint → Bool) (n n' : Node) (out : Sent) : Type 0 where
  own : (c : Call) → IsOwn c → perform less n c ≡ ok (n', out) → Move less n n' out
  guest :
      (ep : Endpoint) (l : Link) (c : Call) (m : Node) (es : Sent)
      → IsOwn c
      → find ep n.clients ≡ some l
      → perform less (alone l) c ≡ ok (m, es)
      → n' ≡ record n { clients = assign ep m.link n.clients }
      → out ≡ from_guest ep es
      → Move less n n' out
  admits :
      (ep : Endpoint) (id : Bytes) (cs : List Call) (m : Node) (es : Sent)
      → All IsOwn cs
      → run less (alone (newborn id)) cs ≡ ok (m, es)
      → n' ≡ on_accept less ep m.link n
      → out ≡ from_guest ep es
      → Move less n n' out
  passes :
      (ep : Endpoint) (id : Bytes) (cs : List Call) (m : Node) (es : Sent)
      → All IsOwn cs
      → run less (alone (newborn id)) cs ≡ ok (m, es)
      → n' ≡ n
      → out ≡ from_guest ep es
      → Move less n n' out

pub data Moves (less : Endpoint → Endpoint → Bool) : Node → Node → Sent → Type 0 where
  stays : {n n' : Node} {out : Sent} → n ≡ n' → out ≡ [] → Moves less n n' out
  moves :
      {n n'' : Node} {out : Sent} (n' : Node) (first later : Sent)
      → Move less n n' first
      → Moves less n' n'' later
      → out ≡ first ++ later
      → Moves less n n'' out

pub single :
    (less : Endpoint → Endpoint → Bool) (n n' : Node) (out : Sent)
    → Move less n n' out
    → Moves less n n' out
single less n n' out h = moves n' out [] h (stays refl refl) (sym (append-nil out))

pub Moves-append :
    (less : Endpoint → Endpoint → Bool) (n n' n'' : Node) (first later : Sent)
    → Moves less n n' first
    → Moves less n' n'' later
    → Moves less n n'' (first ++ later)
Moves-append less n n' n'' first later (stays e f) h = rw (e, f) h
Moves-append less n n' n'' first later (moves m a b move more f) h =
    moves m a (b ++ later) move (Moves-append less m n' n'' b later more h)
      (ap (λ out. out ++ later) f ∙ append_assoc a b later)
