-- ===== src/Carrier/Udp/Grows.antt =====
-- The map of a UDP server of svoiptunnel/vpnudplink.cpp over time: its constructor does not call
-- `onLinkReady`, which is what starts the timer.
use svoiptunnel.Net.Udp.{Completion, Report, UdpSocket, closed, complete, error, received}
use svoiptunnel.Net.Udp as Net
use svoiptunnel.Carrier.Guests.{Accepted, accepted_link, call_guest}
use svoiptunnel.Carrier.Guests.Outlived.{
  Grows, Grows-place, IsTimeless, NodeGrows, Outlives, call_at-Outlives, call_guest-Grows,
  call_main-Outlives, guest_timer_step-Outlives, joined-Outlives, public-IsCalm, stays_same,
  chain-Outlives, timer_step-Outlives,
}
use svoiptunnel.Carrier.Udp.{
  Event, Platform, UdpLink, called, deliver, deliver_at, guest_done, guest_step, guest_timer_done,
  on_accept, run, server_link, socket_done, socket_step, step, timer_done, turn_away, welcome,
}
use svoiptunnel.Vpn.Node as Node
use svoiptunnel.Vpn.Node.{
  Call, Node, Sent, accept, attach, do_connect, do_disconnect, do_ping, data_out, expire, link_down,
  link_ready, on_link_or, perform, place, receive, self, send_signalling, sent_by, setup,
  signal_out,
}
use svoiptunnel.Vpn.Link.{
  Effect, Endpoint, Link, accepted, generate_id, new_link, on_link_ready, on_receive, set_events,
}
use svoiptunnel.Vpn.Endpoints.{endpoint_eq}
use svoiptunnel.Base.Dict.{find}
use svoiptunnel.Base.{
  ℕ, >>=-eq-ok, Bytes, List, Option-cases, [], arith, codes, get_elem?, inl, inr, ok, refl, set,
  true, false, ◌++◌, ◌∷◌, ◌≡◌,
}
use mathlib.Core.Path.{subst}

module _ (p : Platform) where
  welcome-Grows :
      (n n' : Node) (ep : Endpoint) (ready : Link × List Effect) (buf : Bytes) (out : Sent)
      → welcome p n ep ready buf ≡ ok (n', out)
      → NodeGrows n n'
  unfolding welcome Node.on_accept
  welcome-Grows n n' ep ready buf out h =
      let taken = Node.on_accept p.naming.less ep ready.0 n in
      let ((m, sent), e, f) = >>=-eq-ok (call_guest p.naming.less taken ep (receive ep buf)) _ h in
      let same : m ≡ n' = ground arith in
      let (l, g) = call_guest-Grows p.naming.less taken m ep (receive ep buf) sent e in
      subst (NodeGrows n) same (
        l,
        λ j there.
            g j (
              Grows-place p.naming.less ep (set_events n.link.has_events ready.0) n.clients j
                there),
      )

  turn_away-Grows :
      (n n' : Node) (ep : Endpoint) (ready : Link × List Effect) (buf : Bytes) (out : Sent)
      → turn_away p n ep ready buf ≡ ok (n', out)
      → NodeGrows n n'
  unfolding turn_away
  turn_away-Grows n n' ep ready buf out h =
      let ((l', sent), e, f) =
        >>=-eq-ok (on_receive (set_events n.link.has_events ready.0) ep buf) _ h in
      let same : n ≡ n' = ground arith in subst (NodeGrows n) same (refl, λ j there. there)

  on_accept-Outlives :
      (t t' : UdpLink) (s : UdpSocket) (buf : Bytes) (out : Sent)
      → IsTimeless t
      → on_accept p t s buf ≡ ok (t', out)
      → Outlives t t'
  unfolding on_accept accepted_link
  on_accept-Outlives t t' s buf out v h = elim (Option-cases s.peer) [
    | inl e ↦ absurd (ground arith)
    | inr (ep, e) ↦
        let id = ep.address ++ codes ":" ++ p.naming.show ep.port in
        let ready = on_link_ready (generate_id p.naming.hash_text id (new_link accepted)) in
        elim (Option-cases (find ep t.node.clients)) [
          | inl f ↦
              joined-Outlives t t' (Net.set_events true s) ep true (welcome p t.node ep ready buf)
                out v (λ n sent. welcome-Grows t.node n ep ready buf sent) (ground arith)
          | inr (l, f) ↦
              joined-Outlives t t' (Net.set_events true s) ep false
                (turn_away p t.node ep ready buf) out v
                (λ n sent. turn_away-Grows t.node n ep ready buf sent) (ground arith)
        ]
  ]

  deliver-Outlives :
      (t t' : UdpLink) (r : Report) (out : Sent)
      → IsTimeless t
      → deliver p t r ≡ ok (t', out)
      → Outlives t t'
  unfolding deliver
  deliver-Outlives t t' (received ep buf) out v h =
      call_main-Outlives p.naming.less t t' (receive ep buf) out v tt h
  deliver-Outlives t t' (Net.accepted s buf) out v h = on_accept-Outlives t t' s buf out v h
  deliver-Outlives t t' (error code) out v h = stays_same t t' v (ground arith)
  deliver-Outlives t t' closed out v h = stays_same t t' v (ground arith)

  deliver_at-Outlives :
      (t t' : UdpLink) (i : ℕ) (a : Accepted UdpSocket) (rs : List Report) (out : Sent)
      → IsTimeless t
      → deliver_at p t i a rs ≡ ok (t', out)
      → Outlives t t'
  unfolding deliver_at
  deliver_at-Outlives t t' i a [] out v h = stays_same t t' v (ground arith)
  deliver_at-Outlives t t' i a (received ep buf ∷ rs) out v h =
      call_at-Outlives p.naming.less t t' i a (receive ep buf) out v (ground arith)
  deliver_at-Outlives t t' i a (_ ∷ rs) out v h = stays_same t t' v (ground arith)

  guest_step-Outlives :
      (t t' : UdpLink) (i : ℕ) (c : Completion) (a : Accepted UdpSocket) (out : Sent)
      → IsTimeless t
      → guest_step p t i c a ≡ ok (t', out)
      → Outlives t t'
  unfolding guest_step
  guest_step-Outlives t t' i c a out v h =
      elim (Option-cases (complete p.system p.local c a.socket)) [
        | inl e ↦ stays_same t t' v (ground arith)
        | inr ((s, rs), e) ↦
            let b = record a { socket = s } in
            let u = record t { accepted_sockets = set t.accepted_sockets i b } in
            let x = deliver_at-Outlives u t' i b rs out v (ground arith) in
            record { timeless = x.timeless; grows = x.grows }
      ]

  step-Outlives :
      (t t' : UdpLink) (e : Event) (out : Sent)
      → IsTimeless t
      → step p t e ≡ ok (t', out)
      → Outlives t t'
  unfolding step socket_step
  step-Outlives t t' (called c h) out v e =
      call_main-Outlives p.naming.less t t' c out v (public-IsCalm c h) e
  step-Outlives t t' (timer_done aborted) out v e =
      timer_step-Outlives p.naming.less t t' aborted out v e
  step-Outlives t t' (socket_done c) out v e =
      elim (Option-cases (complete p.system p.local c t.socket)) [
        | inl f ↦ stays_same t t' v (ground arith)
        | inr ((s, rs), f) ↦
            let x =
              chain-Outlives (deliver p) (λ k k' r sent. deliver-Outlives k k' r sent) rs
                (record t { socket = s }) t' out v (ground arith) in
            record { timeless = x.timeless; grows = x.grows }
      ]
  step-Outlives t t' (guest_timer_done i aborted) out v e =
      elim (Option-cases (get_elem? t.accepted_sockets i)) [
        | inl f ↦ stays_same t t' v (ground arith)
        | inr (a, f) ↦ guest_timer_step-Outlives p.naming.less t t' i aborted a out v (ground arith)
      ]
  step-Outlives t t' (guest_done i c) out v e =
      elim (Option-cases (get_elem? t.accepted_sockets i)) [
        | inl f ↦ stays_same t t' v (ground arith)
        | inr (a, f) ↦ guest_step-Outlives t t' i c a out v (ground arith)
      ]

  run-Outlives :
      (es : List Event) (t t' : UdpLink) (out : Sent)
      → IsTimeless t
      → run p t es ≡ ok (t', out)
      → Outlives t t'
  run-Outlives es t t' out v h =
      chain-Outlives (step p) (λ k k' e sent. step-Outlives k k' e sent) es t t' out v h

  -- What a new UDP server has accepted in a first history it keeps through a second one, whatever
  -- happens in them, if no exception or memory fault ends them: each endpoint in its map is there
  -- behind the second, and no wait of its own timer, whose tick is what removes inactive links, is
  -- outstanding.
  pub server_link-Grows :
      (port : ℕ) (es later : List Event) (t t' : UdpLink) (out out' : Sent)
      → run p (server_link p port) es ≡ ok (t, out)
      → run p t later ≡ ok (t', out')
      → Grows t.node.clients t'.node.clients × (t'.waits ≡ 0)
  unfolding server_link
  server_link-Grows port es later t t' out out' h k =
      let a = run-Outlives es (server_link p port) t out (unfold new_link in refl, refl) h in
      let b = run-Outlives later t t' out' a.timeless k in (b.grows, b.timeless.1)
