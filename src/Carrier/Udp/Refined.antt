-- ===== src/Carrier/Udp/Refined.antt =====
-- The UDP links of svoiptunnel/vpnudplink.cpp do to the links only what a transport may do.
use svoiptunnel.Net.Udp.{Completion, Report, UdpSocket, closed, complete, error, received}
use svoiptunnel.Net.Udp as Net
use svoiptunnel.Carrier.Guests.{Accepted, accepted_link, call_guest}
use svoiptunnel.Carrier.Udp.{
  Event, Platform, UdpLink, called, deliver, deliver_at, guest_done, guest_step, guest_timer_done,
  on_accept, run, socket_done, socket_step, step, timer_done, turn_away, welcome,
}
use svoiptunnel.Vpn.Tunnel.{Moves, admits, alone, from_guest, moves, newborn, single, passes, stays}
use svoiptunnel.Vpn.Node as Node
use svoiptunnel.Vpn.Node.{
  Call, Node, Sent, accept, attach, do_connect, do_disconnect, do_ping, data_out, expire, link_down,
  link_ready, perform, receive, self, sent_by, setup, signal_out,
}
use svoiptunnel.Vpn.Link.{
  Effect, Endpoint, Link, generate_id, new_link, on_link_ready, on_receive, set_events,
}
use svoiptunnel.Vpn.Endpoints.{endpoint_eq}
use svoiptunnel.Base.Dict.{find}
use svoiptunnel.Base.{
  ℕ, >>=-eq-ok, Bool, Bytes, List, Option-cases, [], ap, append-nil, arith, codes, get_elem?, inl,
  inr, ok, refl, set, sym, true, false, ◌++◌, ◌∙◌, ◌∷◌, ◌≡◌,
}
use svoiptunnel.Vpn.Tunnel.Timely.{IsSound, Moves-IsSound}
use svoiptunnel.Vpn.Link.{Mode}
use svoiptunnel.Carrier.Guests.Moved.{
  chain-Moves, call_at-Moves, call_guest-Moves, call_main-Moves, guest_timer_step-Moves,
  joined-node, public-IsOwn, timer_step-Moves,
}

module _ (p : Platform) where
  -- What the steps are refined to.
  abbrev pub Tunnels : UdpLink → UdpLink → Sent → Type 0
  Tunnels t t' out = Moves p.naming.less t.node t'.node out

  welcome-Moves :
      (n n' : Node) (ep : Endpoint) (id buf : Bytes) (out : Sent)
      → welcome p n ep (on_link_ready (newborn id)) buf ≡ ok (n', out)
      → Moves p.naming.less n n' out
  unfolding welcome on_link_ready new_link
  welcome-Moves n n' ep id buf out h =
      let l = (on_link_ready (newborn id)).0 in
      let ready = from_guest ep (sent_by self (on_link_ready (newborn id)).1) in
      let joined = Node.on_accept p.naming.less ep l n in
      let ((m, sent), e, f) = >>=-eq-ok (call_guest p.naming.less joined ep (receive ep buf)) _ h in
      let same_node : m ≡ n' = ground arith in
      let same_out : ready ++ sent ≡ out = ground arith in
      moves joined ready sent
        (admits ep id (link_ready ∷ []) (alone l) (sent_by self (on_link_ready (newborn id)).1)
          (tt, tt) (unfold perform Node.run in refl) refl refl)
        (call_guest-Moves p.naming.less joined n' ep (receive ep buf) sent tt
          (e ∙ ap (λ k. ok (k, sent)) same_node))
        (sym same_out)

  turned :
      (id : Bytes) (b : Bool) (ep : Endpoint) (buf : Bytes) (l : Link) (sent : List Effect)
      → on_receive (set_events b (on_link_ready (newborn id)).0) ep buf ≡ ok (l, sent)
      → Node.run p.naming.less (alone (newborn id)) (link_ready ∷ attach b ∷ receive ep buf ∷ [])
        ≡ ok (alone l, sent_by self ((on_link_ready (newborn id)).1 ++ sent))
  unfolding Node.run perform on_link_ready new_link
  turned id b ep buf l sent e = rw (e, append-nil (sent_by self sent)) refl

  turn_away-Moves :
      (n n' : Node) (ep : Endpoint) (id buf : Bytes) (out : Sent)
      → turn_away p n ep (on_link_ready (newborn id)) buf ≡ ok (n', out)
      → Moves p.naming.less n n' out
  unfolding turn_away on_link_ready new_link set_events
  turn_away-Moves n n' ep id buf out h =
      let l = set_events n.link.has_events (on_link_ready (newborn id)).0 in
      let ((l', sent), e, f) = >>=-eq-ok (on_receive l ep buf) _ h in
      single p.naming.less n n' out (
        passes ep id (link_ready ∷ attach n.link.has_events ∷ receive ep buf ∷ []) (alone l')
          (sent_by self ((on_link_ready (newborn id)).1 ++ sent)) (tt, (tt, (tt, tt)))
          (turned id n.link.has_events ep buf l' sent e) (ground arith) (ground arith))

  on_accept-Tunnels :
      (t t' : UdpLink) (s : UdpSocket) (buf : Bytes) (out : Sent)
      → on_accept p t s buf ≡ ok (t', out)
      → Tunnels t t' out
  unfolding on_accept accepted_link generate_id
  on_accept-Tunnels t t' s buf out h = elim (Option-cases s.peer) [
    | inl e ↦ absurd (ground arith)
    | inr (ep, e) ↦
        let id = p.naming.hash_text (ep.address ++ codes ":" ++ p.naming.show ep.port) in
        elim (Option-cases (find ep t.node.clients)) [
          | inl f ↦ welcome-Moves t.node t'.node ep id buf out (
              joined-node p.naming.less t t' (Net.set_events true s) ep true
                (welcome p t.node ep (on_link_ready (newborn id)) buf) out (ground arith))
          | inr (l, f) ↦ turn_away-Moves t.node t'.node ep id buf out (
              joined-node p.naming.less t t' (Net.set_events true s) ep false
                (turn_away p t.node ep (on_link_ready (newborn id)) buf) out (ground arith))
        ]
  ]

  deliver-Tunnels :
      (t t' : UdpLink) (r : Report) (out : Sent) → deliver p t r ≡ ok (t', out) → Tunnels t t' out
  unfolding deliver
  deliver-Tunnels t t' (received ep buf) out h =
      call_main-Moves p.naming.less t t' (receive ep buf) out tt h
  deliver-Tunnels t t' (Net.accepted s buf) out h = on_accept-Tunnels t t' s buf out h
  deliver-Tunnels t t' (error code) out h = stays (ground arith) (ground arith)
  deliver-Tunnels t t' closed out h = stays (ground arith) (ground arith)

  deliver_at-Tunnels :
      (t t' : UdpLink) (i : ℕ) (a : Accepted UdpSocket) (rs : List Report) (out : Sent)
      → deliver_at p t i a rs ≡ ok (t', out)
      → Tunnels t t' out
  unfolding deliver_at
  deliver_at-Tunnels t t' i a [] out h = stays (ground arith) (ground arith)
  deliver_at-Tunnels t t' i a (received ep buf ∷ rs) out h =
      call_at-Moves p.naming.less t t' i a (receive ep buf) out tt (ground arith)
  deliver_at-Tunnels t t' i a (_ ∷ rs) out h = stays (ground arith) (ground arith)

  guest_step-Tunnels :
      (t t' : UdpLink) (i : ℕ) (c : Completion) (a : Accepted UdpSocket) (out : Sent)
      → guest_step p t i c a ≡ ok (t', out)
      → Tunnels t t' out
  unfolding guest_step
  guest_step-Tunnels t t' i c a out h = elim (Option-cases (complete p.system p.local c a.socket)) [
    | inl e ↦ stays (ground arith) (ground arith)
    | inr ((s, rs), e) ↦
        let b = record a { socket = s } in
        deliver_at-Tunnels (record t { accepted_sockets = set t.accepted_sockets i b }) t' i b rs
          out (ground arith)
  ]

  socket_step-Tunnels :
      (t t' : UdpLink) (c : Completion) (out : Sent)
      → socket_step p t c ≡ ok (t', out)
      → Tunnels t t' out
  unfolding socket_step
  socket_step-Tunnels t t' c out h = elim (Option-cases (complete p.system p.local c t.socket)) [
    | inl e ↦ stays (ground arith) (ground arith)
    | inr ((s, rs), e) ↦
        chain-Moves p.naming.less (deliver p) (λ u u' r sent. deliver-Tunnels u u' r sent) rs
          (record t { socket = s }) t' out (ground arith)
  ]

  -- A step of a UDP link is a sequence of moves of the links, with the same effects. (An event is a call
  -- of the program, the wait of a timer, or the completion of an operation of a socket.)
  pub step-Moves :
      (t t' : UdpLink) (e : Event) (out : Sent)
      → step p t e ≡ ok (t', out)
      → Moves p.naming.less t.node t'.node out
  unfolding step
  step-Moves t t' (called c h) out e = call_main-Moves p.naming.less t t' c out (public-IsOwn c h) e
  step-Moves t t' (timer_done aborted) out e = timer_step-Moves p.naming.less t t' aborted out e
  step-Moves t t' (socket_done c) out e = socket_step-Tunnels t t' c out e
  step-Moves t t' (guest_timer_done i aborted) out e =
      elim (Option-cases (get_elem? t.accepted_sockets i)) [
        | inl f ↦ stays (ground arith) (ground arith)
        | inr (a, f) ↦ guest_timer_step-Moves p.naming.less t t' i aborted a out (ground arith)
      ]
  step-Moves t t' (guest_done i c) out e = elim (Option-cases (get_elem? t.accepted_sockets i)) [
    | inl f ↦ stays (ground arith) (ground arith)
    | inr (a, f) ↦ guest_step-Tunnels t t' i c a out (ground arith)
  ]

  -- Whatever happens to a UDP link, in any order (calls of the program, waits of the timers, completions
  -- of the operations of its sockets), if no exception or memory fault ends it: what it does to the
  -- links is a sequence of moves, each a method of the link, a method of a link in the map, or a new
  -- accepted link that is put into the map or turned away, with the same effects in the same order.
  pub run-Moves :
      (es : List Event) (t t' : UdpLink) (out : Sent)
      → run p t es ≡ ok (t', out)
      → Moves p.naming.less t.node t'.node out
  run-Moves es t t' out h =
      chain-Moves p.naming.less (step p) (λ u u' e sent. step-Moves u u' e sent) es t t' out h

  -- Whatever happens to a UDP link of mode `m` and to the links that it has accepted, in any order, if no
  -- exception or memory fault ends it: no link changes its mode, those of the map are accepted links,
  -- and the timer of none exceeds its default (2 for a client, 12 for any other link), provided that
  -- all this holds at first.
  pub run-IsSound :
      (m : Mode) (es : List Event) (t t' : UdpLink) (out : Sent)
      → IsSound m t.node
      → run p t es ≡ ok (t', out)
      → IsSound m t'.node
  run-IsSound m es t t' out v h =
      Moves-IsSound p.naming.less m t.node t'.node out v (run-Moves es t t' out h)
