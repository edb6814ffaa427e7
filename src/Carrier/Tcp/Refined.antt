-- ===== src/Carrier/Tcp/Refined.antt =====
-- The TCP links of svoiptunnel/vpntcplink.cpp do to the links only what a transport may do.
use svoiptunnel.Net.Tcp.{
  Completion, Report, TcpSocket, closed, complete, connected, error, received,
  set_events as set_socket_events, start_receive,
}
use svoiptunnel.Net.Tcp as Net
use svoiptunnel.Carrier.Guests.{Accepted, Naming, accepted_link}
use svoiptunnel.Carrier.Guests.Moved.{
  chain-Moves, call_at-Moves, call_main-Moves, guest_timer_step-Moves, joined-node, public-IsOwn,
  timer_step-Moves,
}
use svoiptunnel.Carrier.Tcp.{
  Event, TcpLink, called, deliver, deliver_at, guest_done, guest_report, guest_step,
  guest_timer_done, on_accept, run, socket_done, socket_step, step, timer_done,
}
use svoiptunnel.Vpn.Tunnel.{Moves, admits, alone, from_guest, newborn, single, passes, stays}
use svoiptunnel.Vpn.Node as Node
use svoiptunnel.Vpn.Node.{Node, Sent, link_down, link_ready, perform, receive, self, sent_by}
use svoiptunnel.Vpn.Link.{generate_id, new_link, on_link_ready}
use svoiptunnel.Vpn.Endpoints.{endpoint_eq}
use svoiptunnel.Base.Dict.{find}
use svoiptunnel.Base.{
  ℕ, Bool-cases, Bytes, List, Option-cases, Outcome, [], arith, codes, false, get_elem?, inl, inr,
  ok, refl, set, true, ◌++◌, ◌∷◌, ◌≡◌,
}

module _ (p : Naming) where
  -- What the steps are refined to.
  abbrev Tunnels : TcpLink → TcpLink → Sent → Type 0
  Tunnels t t' out = Moves p.less t.node t'.node out

  readied :
      (id : Bytes)
      → Node.run p.less (alone (newborn id)) (link_ready ∷ [])
        ≡ ok (alone (on_link_ready (newborn id)).0, sent_by self (on_link_ready (newborn id)).1)
  unfolding Node.run perform on_link_ready new_link
  readied id = refl

  on_accept-Tunnels :
      (t t' : TcpLink) (s : TcpSocket) (out : Sent)
      → on_accept p t s ≡ ok (t', out)
      → Tunnels t t' out
  unfolding on_accept accepted_link generate_id Net.set_events start_receive
  on_accept-Tunnels t t' s out h = elim (Option-cases s.peer) [
    | inl e ↦ absurd (ground arith)
    | inr (ep, e) ↦
        let id = p.hash_text (ep.address ++ codes ":" ++ p.show ep.port) in
        let ready = on_link_ready (newborn id) in
        let sent = from_guest ep (sent_by self ready.1) in
        let s' = start_receive (Net.set_events true s) in
        elim (Option-cases (find ep t.node.clients)) [
          | inl f ↦
              let taken = Node.on_accept p.less ep ready.0 t.node in
              let first : Outcome (Node × Sent) = ok (taken, sent) in
              let done : first ≡ ok (t'.node, out) =
                joined-node p.less t t' s' ep true (ok (taken, sent)) out (ground arith) in
              single p.less t.node t'.node out (
                admits ep id (link_ready ∷ []) (alone ready.0) (sent_by self ready.1) (tt, tt)
                  (readied id) (ground arith) (ground arith))
          | inr (l, f) ↦
              let first : Outcome (Node × Sent) = ok (t.node, sent) in
              let done : first ≡ ok (t'.node, out) =
                joined-node p.less t t' s' ep false (ok (t.node, sent)) out (ground arith) in
              single p.less t.node t'.node out (
                passes ep id (link_ready ∷ []) (alone ready.0) (sent_by self ready.1) (tt, tt)
                  (readied id) (ground arith) (ground arith))
        ]
  ]

  deliver-Tunnels :
      (t t' : TcpLink) (r : Report) (out : Sent) → deliver p t r ≡ ok (t', out) → Tunnels t t' out
  unfolding deliver
  deliver-Tunnels t t' connected out h = call_main-Moves p.less t t' link_ready out tt h
  deliver-Tunnels t t' (received buf) out h = elim (Option-cases t.socket.peer) [
    | inl e ↦ absurd (ground arith)
    | inr (ep, e) ↦ call_main-Moves p.less t t' (receive ep buf) out tt (ground arith)
  ]
  deliver-Tunnels t t' (Net.accepted s) out h = on_accept-Tunnels t t' s out h
  deliver-Tunnels t t' (error code) out h = stays (ground arith) (ground arith)
  deliver-Tunnels t t' closed out h = call_main-Moves p.less t t' link_down out tt h

  guest_report-Tunnels :
      (t t' : TcpLink) (i : ℕ) (a : Accepted TcpSocket) (r : Report) (out : Sent)
      → guest_report p t i a r ≡ ok (t', out)
      → Tunnels t t' out
  unfolding guest_report
  guest_report-Tunnels t t' i a connected out h = call_at-Moves p.less t t' i a link_ready out tt h
  guest_report-Tunnels t t' i a (received buf) out h = elim (Option-cases a.socket.peer) [
    | inl e ↦ absurd (ground arith)
    | inr (ep, e) ↦ call_at-Moves p.less t t' i a (receive ep buf) out tt (ground arith)
  ]
  guest_report-Tunnels t t' i a (Net.accepted s) out h = stays (ground arith) (ground arith)
  guest_report-Tunnels t t' i a (error code) out h = stays (ground arith) (ground arith)
  guest_report-Tunnels t t' i a closed out h = call_at-Moves p.less t t' i a link_down out tt h

  deliver_at-Tunnels :
      (t t' : TcpLink) (i : ℕ) (a : Accepted TcpSocket) (rs : List Report) (out : Sent)
      → deliver_at p t i a rs ≡ ok (t', out)
      → Tunnels t t' out
  unfolding deliver_at
  deliver_at-Tunnels t t' i a [] out h = stays (ground arith) (ground arith)
  deliver_at-Tunnels t t' i a (r ∷ rs) out h = elim (Bool-cases a.is_kept) [
    | inl kept ↦ guest_report-Tunnels t t' i a r out (ground arith)
    | inr gone ↦ absurd (ground arith)
  ]

  guest_step-Tunnels :
      (t t' : TcpLink) (i : ℕ) (c : Completion) (a : Accepted TcpSocket) (out : Sent)
      → guest_step p t i c a ≡ ok (t', out)
      → Tunnels t t' out
  unfolding guest_step
  guest_step-Tunnels t t' i c a out h = elim (Option-cases (complete c a.socket)) [
    | inl e ↦ stays (ground arith) (ground arith)
    | inr ((s, rs), e) ↦
        let b = record a { socket = s } in
        deliver_at-Tunnels (record t { accepted_sockets = set t.accepted_sockets i b }) t' i b rs
          out (ground arith)
  ]

  socket_step-Tunnels :
      (t t' : TcpLink) (c : Completion) (out : Sent)
      → socket_step p t c ≡ ok (t', out)
      → Tunnels t t' out
  unfolding socket_step
  socket_step-Tunnels t t' c out h = elim (Option-cases (complete c t.socket)) [
    | inl e ↦ stays (ground arith) (ground arith)
    | inr ((s, rs), e) ↦
        chain-Moves p.less (deliver p) (λ u u' r sent. deliver-Tunnels u u' r sent) rs
          (record t { socket = s }) t' out (ground arith)
  ]

  -- A step of a TCP link is a sequence of moves of the links, with the same effects. (An event is a call
  -- of the program, the wait of a timer, or the completion of an operation of a socket.)
  pub tcp_step-Moves :
      (t t' : TcpLink) (e : Event) (out : Sent)
      → step p t e ≡ ok (t', out)
      → Moves p.less t.node t'.node out
  unfolding step
  tcp_step-Moves t t' (called c h) out e = call_main-Moves p.less t t' c out (public-IsOwn c h) e
  tcp_step-Moves t t' (timer_done aborted) out e = timer_step-Moves p.less t t' aborted out e
  tcp_step-Moves t t' (socket_done c) out e = socket_step-Tunnels t t' c out e
  tcp_step-Moves t t' (guest_timer_done i aborted) out e =
      elim (Option-cases (get_elem? t.accepted_sockets i)) [
        | inl f ↦ stays (ground arith) (ground arith)
        | inr (a, f) ↦ guest_timer_step-Moves p.less t t' i aborted a out (ground arith)
      ]
  tcp_step-Moves t t' (guest_done i c) out e =
      elim (Option-cases (get_elem? t.accepted_sockets i)) [
        | inl f ↦ stays (ground arith) (ground arith)
        | inr (a, f) ↦ guest_step-Tunnels t t' i c a out (ground arith)
      ]

  -- Whatever happens to a TCP link, in any order (calls of the program, waits of the timers, completions
  -- of the operations of its sockets), if no exception or memory fault ends it: what it does to the
  -- links is a sequence of moves, each a method of the link, a method of a link in the map, or a new
  -- accepted link that is put into the map or turned away, with the same effects in the same order.
  pub tcp_run-Moves :
      (es : List Event) (t t' : TcpLink) (out : Sent)
      → run p t es ≡ ok (t', out)
      → Moves p.less t.node t'.node out
  tcp_run-Moves es t t' out h =
      chain-Moves p.less (step p) (λ u u' e sent. tcp_step-Moves u u' e sent) es t t' out h
