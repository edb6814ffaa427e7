-- ===== src/Carrier/Secured.antt =====
-- What the links over TLS and DTLS share: `VPNTLSLink` of svoiptunnel/vpntlslink.cpp and `VPNDTLSLink` of
-- svoiptunnel/vpndtlslink.cpp, each a link with a socket and the session of `_ssl`. The virtual `send` of a
-- link goes through its session.
pub mod Heard
pub mod Received
pub mod Hearing
pub mod Quiet
pub mod Carried
pub mod Shaking
pub mod Unfinished
pub mod Delivered
pub mod Moved
use svoiptunnel.Base.{
  ℕ, suc, ◌+◌, ◌-◌, Bool, ◌&&◌, List, [], ◌∷◌, ◌++◌, Bytes, Outcome, ok, fails, ◌>>=◌, none, some,
  if◌then◌else◌, ltb, set, dangling_pointer,
}
use svoiptunnel.Base.Dict.{find, assign}
use svoiptunnel.Carrier.Guests.{Accepted, Naming, SocketLink, release, waits_of}
use svoiptunnel.Ssl.Session.{
  Engine, Out, Session, link_effect, on_connected, receive as receive_bytes, send, send_effects,
  wire,
}
use svoiptunnel.Vpn.Endpoints.{endpoint_eq}
use svoiptunnel.Vpn.Link.{Effect, Endpoint, Link, schedule, transmit}
use svoiptunnel.Vpn.Node.{Call, Node, Origin, Sent, at_client, expire, perform, self}
use svoiptunnel.Vpn.Tunnel.{alone}

-- OpenSSL: the memory BIOs of a `_ssl`, and the state of a new one in a link that connects, or in the
-- link of the accepted socket at a position.
pub record Library (E : Type 0) : Type 0 where
  pub engine : Engine E
  pub connect_state : E
  pub accept_state : ℕ → E

-- A socket with what `_ssl` is good for: the link of a server has none.
pub record Secured (E S : Type 0) : Type 0 where
  pub socket : S
  pub session : Outcome (Session E)

-- What goes out, with the object that it comes from.
abbrev pub Wired : Type 0
Wired = List (Origin × Out)

abbrev pub out_by : Origin → List Out → Wired
out_by o [] = []
out_by o (x ∷ more) = (o, x) ∷ out_by o more

abbrev pub effects_of : Sent → List Effect
effects_of [] = []
effects_of ((o, e) ∷ more) = e ∷ effects_of more

-- How many waits start.
abbrev pub waits_in : List Out → ℕ
waits_in [] = 0
waits_in (link_effect schedule ∷ more) = suc (waits_in more)
waits_in (x ∷ more) = waits_in more

-- The link that the map keeps, and the accepted socket at a position, behind a call.
unfoldable pub put_guest :
    {E S : Type 0}
    → SocketLink (Secured E S)
    → ℕ
    → Accepted (Secured E S)
    → Link
    → Session E
    → List Out
    → SocketLink (Secured E S)
unfolding assign
put_guest t i a l s out =
    let x = record a.socket { session = ok s } in
    record t {
      node = record t.node { clients = assign a.peer l t.node.clients };
      accepted_sockets =
          set t.accepted_sockets i (record a { socket = x; waits = a.waits + waits_in out });
    }

module _ {E S : Type 0} (eng : Engine E) where
  -- The virtual `send` of a link.
  unfoldable pub send_through : Bytes → Secured E S → Outcome (Secured E S × List Out)
  unfolding send
  send_through buf x = do
    s ← x.session
    let (s', out) = send eng buf s
    ok (record x { session = ok s' }, out)

  -- The `send` of the link that the map keeps for an endpoint.
  unfoldable pub send_to_guest :
      Endpoint
      → Bytes
      → List (Accepted (Secured E S))
      → Outcome (List (Accepted (Secured E S)) × List Out)
  unfolding send_through
  send_to_guest ep buf [] = fails dangling_pointer
  send_to_guest ep buf (a ∷ more) =
      let rest = send_to_guest ep buf more in
      if a.is_kept && endpoint_eq.beq ep a.peer
      then (send_through buf a.socket >>= λ r. ok (record a { socket = r.0 } ∷ more, r.1))
      else (rest >>= λ r. ok (a ∷ r.0, r.1))

  unfoldable pub send_from :
      Origin → Bytes → SocketLink (Secured E S) → Outcome (SocketLink (Secured E S) × Wired)
  unfolding send_through send_to_guest
  send_from self buf t = do
    (x, out) ← send_through buf t.socket
    ok (record t { socket = x }, out_by self out)
  send_from (at_client ep) buf t = do
    (sockets, out) ← send_to_guest ep buf t.accepted_sockets
    ok (record t { accepted_sockets = sockets }, out_by (at_client ep) out)

  unfoldable pub carry_effect :
      Origin → Effect → SocketLink (Secured E S) → Outcome (SocketLink (Secured E S) × Wired)
  unfolding send_from
  carry_effect o (transmit buf) t = send_from o buf t
  carry_effect o e t = ok (t, (o, link_effect e) ∷ [])

  -- What a call has sent, through the sessions in order.
  unfoldable pub carry :
      Sent → SocketLink (Secured E S) → Outcome (SocketLink (Secured E S) × Wired)
  unfolding carry_effect
  carry [] t = ok (t, [])
  carry ((o, e) ∷ more) t = do
    (t', out) ← carry_effect o e t
    (t'', later) ← carry more t'
    ok (t'', out ++ later)

  -- A method of the link itself that is not `onReceive`.
  unfoldable pub call_main :
      (Endpoint → Endpoint → Bool)
      → SocketLink (Secured E S)
      → Call
      → Outcome (SocketLink (Secured E S) × Wired)
  unfolding perform carry release
  call_main less t c = do
    (n, sent) ← perform less t.node c
    (t', out) ← carry sent t
    ok (
      record t' {
        node = n;
        waits = t.waits + waits_of sent;
        accepted_sockets = release n.clients t'.accepted_sockets;
      },
      out,
    )

  -- A method, not `onReceive`, of the link of the accepted socket at a position.
  unfoldable pub call_at :
      (Endpoint → Endpoint → Bool)
      → SocketLink (Secured E S)
      → ℕ
      → Accepted (Secured E S)
      → Call
      → Outcome (SocketLink (Secured E S) × Wired)
  unfolding perform find put_guest send_effects
  call_at less t i a c =
      elim (find a.peer t.node.clients) as (λ _. Outcome (SocketLink (Secured E S) × Wired)) [
        | none ↦ fails dangling_pointer
        | some l ↦ do
          (n, sent) ← perform less (alone l) c
          s ← a.socket.session
          let (s', out) = send_effects eng (effects_of sent) s
          ok (put_guest t i a n.link s' out, out_by (at_client a.peer) out)
      ]

  unfoldable pub receive_main :
      SocketLink (Secured E S) → Endpoint → Bytes → Outcome (SocketLink (Secured E S) × Wired)
  unfolding receive_bytes
  receive_main t ep buf = do
    s ← t.socket.session
    (s', (l, out)) ← receive_bytes eng buf s t.node.link ep
    ok (
      record t {
        node = record t.node { link = l };
        socket = record t.socket { session = ok s' };
        waits = t.waits + waits_in out;
      },
      out_by self out,
    )

  unfoldable pub receive_at :
      SocketLink (Secured E S)
      → ℕ
      → Accepted (Secured E S)
      → Endpoint
      → Bytes
      → Outcome (SocketLink (Secured E S) × Wired)
  unfolding find receive_bytes put_guest
  receive_at t i a ep buf =
      elim (find a.peer t.node.clients) as (λ _. Outcome (SocketLink (Secured E S) × Wired)) [
        | none ↦ fails dangling_pointer
        | some l ↦ do
          s ← a.socket.session
          (s', (l', out)) ← receive_bytes eng buf s l ep
          ok (put_guest t i a l' s' out, out_by (at_client a.peer) out)
      ]

  unfoldable pub timer_step :
      (Endpoint → Endpoint → Bool)
      → SocketLink (Secured E S)
      → Bool
      → Outcome (SocketLink (Secured E S) × Wired)
  unfolding call_main
  timer_step less t aborted =
      if ltb 0 t.waits
      then call_main less (record t { waits = t.waits - 1 }) (expire aborted)
      else ok (t, [])

  unfoldable pub guest_timer_step :
      (Endpoint → Endpoint → Bool)
      → SocketLink (Secured E S)
      → ℕ
      → Bool
      → Accepted (Secured E S)
      → Outcome (SocketLink (Secured E S) × Wired)
  unfolding call_at
  guest_timer_step less t i aborted a =
      if a.is_kept && ltb 0 a.waits
      then call_at less t i (record a { waits = a.waits - 1 }) (expire aborted)
      else ok (t, [])

-- Steps one after the other, with all that goes out.
module _ {T E : Type 0} (step : T → E → Outcome (T × Wired)) where
  unfoldable pub chain : T → List E → Outcome (T × Wired)
  chain t [] = ok (t, [])
  chain t (e ∷ es) = do (t', sent) ← step t e; (t'', later) ← chain t' es; ok (t'', sent ++ later)
