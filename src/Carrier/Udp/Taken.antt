-- ===== src/Carrier/Udp/Taken.antt =====
-- What becomes of a new socket of a UDP link of svoiptunnel/vpnudplink.cpp, and of its link.
use svoiptunnel.Net.Udp.{
  Report, UdpSocket, bind_and_connect, complete, handle_receive, listen_done, new_socket,
  receive_done, received, report, success,
}
use svoiptunnel.Net.Udp as Net
use svoiptunnel.Carrier.Guests.{Accepted, accepted_link, call_guest, is_some, joined}
use svoiptunnel.Carrier.Udp.{Platform, UdpLink, on_accept, turn_away, welcome}
use svoiptunnel.Vpn.Node as Node
use svoiptunnel.Vpn.Node.{Call, Node, Sent, perform, receive}
use svoiptunnel.Vpn.Tunnel.{alone, from_guest}
use svoiptunnel.Vpn.Link.{
  Effect, Endpoint, Link, accepted, generate_id, new_link, on_link_ready, on_receive, set_events,
}
use svoiptunnel.Vpn.Endpoints.{endpoint_eq}
use svoiptunnel.Base.Dict.{assign, find, find-assign}
use svoiptunnel.Base.{
  >>=-eq-ok, Bool, Bytes, List, Option-cases, Outcome, [], arith, codes, fails, false, inl, inr,
  not, ok, refl, some, true, ◌++◌, ◌>>=◌, ◌∷◌, ◌≡◌,
}
use mathlib.Core.Path.{subst}

module _ (p : Platform) where
  -- A guest answers only if it is in the map, and it stays there.
  call_guest-found :
      (n n' : Node) (ep : Endpoint) (c : Call) (out : Sent)
      → call_guest p.naming.less n ep c ≡ ok (n', out)
      → is_some (find ep n'.clients) ≡ true
  unfolding call_guest
  call_guest-found n n' ep c out h = elim (Option-cases (find ep n.clients)) [
    | inl e ↦ absurd (ground arith)
    | inr (l, e) ↦
        let finish : Node × Sent → Outcome (Node × Sent) =
          λ r. ok (record n { clients = assign ep r.0.link n.clients }, from_guest ep r.1) in
        let chain : perform p.naming.less (alone l) c >>= finish ≡ ok (n', out) = ground arith in
        let ((m, es), f, g) = >>=-eq-ok (perform p.naming.less (alone l) c) finish chain in
        ground (arith, find-assign ep ep m.link n.clients, endpoint_eq.beq_iff ep ep)
  ]

  welcome-found :
      (n n' : Node) (ep : Endpoint) (ready : Link × List Effect) (buf : Bytes) (out : Sent)
      → welcome p n ep ready buf ≡ ok (n', out)
      → is_some (find ep n'.clients) ≡ true
  unfolding welcome
  welcome-found n n' ep ready buf out h =
      let joined = Node.on_accept p.naming.less ep ready.0 n in
      let ((m, sent), e, f) = >>=-eq-ok (call_guest p.naming.less joined ep (receive ep buf)) _ h in
      let same : m ≡ n' = ground arith in
      subst (λ k. is_some (find ep k.clients) ≡ true) same
        (call_guest-found joined m ep (receive ep buf) sent e)

  turn_away-same :
      (n n' : Node) (ep : Endpoint) (ready : Link × List Effect) (buf : Bytes) (out : Sent)
      → turn_away p n ep ready buf ≡ ok (n', out)
      → n' ≡ n
  unfolding turn_away
  turn_away-same n n' ep ready buf out h =
      let ((l', sent), e, f) =
        >>=-eq-ok (on_receive (set_events n.link.has_events ready.0) ep buf) _ h in
      ground arith

  -- What `on_accept` does to a socket that is connected to `ep`.
  pub record Takes (t t' : UdpLink) (s : UdpSocket) : Type 0 where
    pub ep : Endpoint
    pub connected : s.peer ≡ some ep
    pub there : is_some (find ep t'.node.clients) ≡ true
    pub same_socket : t'.socket ≡ t.socket
    pub new_guest : Accepted UdpSocket
    pub is_last : t'.accepted_sockets ≡ t.accepted_sockets ++ new_guest ∷ []
    pub guest_socket : new_guest.socket ≡ Net.set_events true s
    pub kept_iff : new_guest.is_kept ≡ not (is_some (find ep t.node.clients))

  joined-guest :
      (t t' : UdpLink) (s : UdpSocket) (ep : Endpoint) (kept : Bool) (done : Outcome (Node × Sent))
      (out : Sent)
      → joined t s ep kept done ≡ ok (t', out)
      → (done ≡ ok (t'.node, out))
        × (t'.socket ≡ t.socket)
        × (t'.accepted_sockets
            ≡ t.accepted_sockets
              ++ record { peer = ep; socket = s; is_kept = kept; waits = 1 } ∷ [])
  unfolding joined
  joined-guest t t' s ep kept (ok (n, sent)) out h = (ground arith, ground arith, ground arith)
  joined-guest t t' s ep kept (fails why) out h = cc

  pub on_accept-Takes :
      (t t' : UdpLink) (s : UdpSocket) (buf : Bytes) (out : Sent)
      → on_accept p t s buf ≡ ok (t', out)
      → Takes t t' s
  unfolding on_accept accepted_link
  on_accept-Takes t t' s buf out h = elim (Option-cases s.peer) [
    | inl e ↦ absurd (ground arith)
    | inr (ep, e) ↦
        let id = ep.address ++ codes ":" ++ p.naming.show ep.port in
        let ready = on_link_ready (generate_id p.naming.hash_text id (new_link accepted)) in
        elim (Option-cases (find ep t.node.clients)) [
          | inl f ↦
              let (g, j, k) =
                joined-guest t t' (Net.set_events true s) ep true (welcome p t.node ep ready buf)
                  out (ground arith) in
              record {
                ep = ep;
                connected = e;
                there = welcome-found t.node t'.node ep ready buf out g;
                same_socket = j;
                new_guest = record {
                  peer = ep;
                  socket = Net.set_events true s;
                  is_kept = true;
                  waits = 1;
                };
                is_last = k;
                guest_socket = refl;
                kept_iff = rw f refl;
              }
          | inr (l, f) ↦
              let (g, j, k) =
                joined-guest t t' (Net.set_events true s) ep false (turn_away p t.node ep ready buf)
                  out (ground arith) in
              record {
                ep = ep;
                connected = e;
                there = rw (turn_away-same t.node t'.node ep ready buf out g, f) refl;
                same_socket = j;
                new_guest = record {
                  peer = ep;
                  socket = Net.set_events true s;
                  is_kept = false;
                  waits = 1;
                };
                is_last = k;
                guest_socket = refl;
                kept_iff = rw f refl;
              }
        ]
  ]
