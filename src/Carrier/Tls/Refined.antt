-- ===== src/Carrier/Tls/Refined.antt =====
-- The TLS links of svoiptunnel/vpntlslink.cpp do to the links only what a transport may do.
use svoiptunnel.Net.Tcp as Net
use svoiptunnel.Net.Tcp.{
  Completion, Report, TcpSocket, closed, complete, connected, error, received,
}
use svoiptunnel.Base.{
  [], ◌∷◌, ◌++◌, ℕ, >>=-eq-ok, Bool-cases, List, Option-cases, arith, codes, get_elem?, inl, inr,
  length, ok, refl, set, ◌≡◌,
}
use svoiptunnel.Base.Dict.{find}
use svoiptunnel.Carrier.Guests.{Accepted, Naming}
use svoiptunnel.Carrier.Guests.Moved.{public-IsOwn}
use svoiptunnel.Carrier.Secured.{Library, Wired}
use svoiptunnel.Carrier.Secured.Moved.{
  call_at-Moves, call_main-Moves, chain-Moves, guest_timer_step-Moves, receive_at-Moves,
  receive_main-Moves, rests_behind, timer_step-Moves,
}
use svoiptunnel.Carrier.Secured.Quiet.{
  MovesBehind, accepted_session-silent, effects_out, on_connected-silent, silent_by,
}
use svoiptunnel.Carrier.Tcp.{Event, called, guest_done, guest_timer_done, socket_done, timer_done}
use svoiptunnel.Carrier.Tls.{
  TlsLink, TlsSocket, connected_main, deliver, deliver_at, guest_report, guest_step, on_accept, run,
  socket_step, step,
}
use svoiptunnel.Ssl.Session.{accepted_session, on_connected}
use svoiptunnel.Vpn.Endpoints.{endpoint_eq}
use svoiptunnel.Vpn.Link.{generate_id}
use svoiptunnel.Vpn.Node as Node
use svoiptunnel.Vpn.Node.{Node, at_client, link_down, self}
use svoiptunnel.Vpn.Tunnel.{admits, alone, newborn, passes, single, stays}

module _ {E : Type 0} (ssl : Library E) (p : Naming) where
  -- What the steps are refined to.
  abbrev Tunnels : TlsLink ssl → TlsLink ssl → Wired → Type 0
  Tunnels t t' out = MovesBehind p.less t.node t'.node out

  nothing_said : (id : _) → Node.run p.less (alone (newborn id)) [] ≡ ok (alone (newborn id), [])
  unfolding Node.run
  nothing_said id = refl

  on_accept-Tunnels :
      (t t' : TlsLink ssl) (s : TcpSocket) (out : Wired)
      → on_accept ssl p t s ≡ ok (t', out)
      → Tunnels t t' out
  unfolding on_accept generate_id Net.set_events Net.start_receive
  on_accept-Tunnels t t' s out h = elim (Option-cases s.peer) [
    | inl e ↦ absurd (ground arith)
    | inr (ep, e) ↦
        let id = p.hash_text (ep.address ++ codes ":" ++ p.show ep.port) in
        let l = newborn id in
        let fresh = ssl.accept_state (length t.accepted_sockets) in
        let first = accepted_session ssl.engine fresh in
        let silent : [] ≡ effects_out out =
          silent_by (at_client ep) first.1 out (accepted_session-silent ssl.engine fresh)
            (ground arith) in
        elim (Option-cases (find ep t.node.clients)) [
          | inl f ↦ (
            [],
            single p.less t.node t'.node []
                (admits ep id [] (alone l) [] tt (nothing_said id) (ground arith) refl),
            silent,
          )
          | inr (w, f) ↦ (
            [],
            single p.less t.node t'.node []
                (passes ep id [] (alone l) [] tt (nothing_said id) (ground arith) refl),
            silent,
          )
        ]
  ]

  connected_main-Tunnels :
      (t t' : TlsLink ssl) (out : Wired) → connected_main ssl t ≡ ok (t', out) → Tunnels t t' out
  unfolding connected_main on_connected
  connected_main-Tunnels t t' out h =
      let (s, e, f) = >>=-eq-ok t.socket.session _ h in
      let same_node : t.node ≡ t'.node = ground arith in
      (
        [],
        stays same_node refl,
        silent_by self (on_connected ssl.engine s).1 out (on_connected-silent ssl.engine s)
            (ground arith),
      )

  deliver-Tunnels :
      (t t' : TlsLink ssl) (r : Report) (out : Wired)
      → deliver ssl p t r ≡ ok (t', out)
      → Tunnels t t' out
  unfolding deliver
  deliver-Tunnels t t' connected out h = connected_main-Tunnels t t' out h
  deliver-Tunnels t t' (received buf) out h = elim (Option-cases t.socket.socket.peer) [
    | inl e ↦ absurd (ground arith)
    | inr (ep, e) ↦ receive_main-Moves ssl.engine p.less t t' ep buf out (ground arith)
  ]
  deliver-Tunnels t t' (Net.accepted s) out h = on_accept-Tunnels t t' s out h
  deliver-Tunnels t t' (error code) out h = rests_behind ssl.engine p.less t t' out h
  deliver-Tunnels t t' closed out h = call_main-Moves ssl.engine p.less t t' link_down out tt h

  guest_report-Tunnels :
      (t t' : TlsLink ssl) (i : ℕ) (a : Accepted (TlsSocket ssl)) (r : Report) (out : Wired)
      → guest_report ssl p t i a r ≡ ok (t', out)
      → Tunnels t t' out
  unfolding guest_report
  guest_report-Tunnels t t' i a connected out h = rests_behind ssl.engine p.less t t' out h
  guest_report-Tunnels t t' i a (received buf) out h = elim (Option-cases a.socket.socket.peer) [
    | inl e ↦ absurd (ground arith)
    | inr (ep, e) ↦ receive_at-Moves ssl.engine p.less t t' i a ep buf out (ground arith)
  ]
  guest_report-Tunnels t t' i a (Net.accepted s) out h = rests_behind ssl.engine p.less t t' out h
  guest_report-Tunnels t t' i a (error code) out h = rests_behind ssl.engine p.less t t' out h
  guest_report-Tunnels t t' i a closed out h =
      call_at-Moves ssl.engine p.less t t' i a link_down out tt h

  deliver_at-Tunnels :
      (t t' : TlsLink ssl) (i : ℕ) (a : Accepted (TlsSocket ssl)) (rs : List Report) (out : Wired)
      → deliver_at ssl p t i a rs ≡ ok (t', out)
      → Tunnels t t' out
  unfolding deliver_at
  deliver_at-Tunnels t t' i a [] out h = rests_behind ssl.engine p.less t t' out h
  deliver_at-Tunnels t t' i a (r ∷ rs) out h = elim (Bool-cases a.is_kept) [
    | inl kept ↦ guest_report-Tunnels t t' i a r out (ground arith)
    | inr gone ↦ absurd (ground arith)
  ]

  guest_step-Tunnels :
      (t t' : TlsLink ssl) (i : ℕ) (c : Completion) (a : Accepted (TlsSocket ssl)) (out : Wired)
      → guest_step ssl p t i c a ≡ ok (t', out)
      → Tunnels t t' out
  unfolding guest_step
  guest_step-Tunnels t t' i c a out h = elim (Option-cases (complete c a.socket.socket)) [
    | inl e ↦ rests_behind ssl.engine p.less t t' out (ground arith)
    | inr ((s, rs), e) ↦
        let b : Accepted (TlsSocket ssl) = record a { socket = record a.socket { socket = s } } in
        deliver_at-Tunnels (record t { accepted_sockets = set t.accepted_sockets i b }) t' i b rs
          out (ground arith)
  ]

  socket_step-Tunnels :
      (t t' : TlsLink ssl) (c : Completion) (out : Wired)
      → socket_step ssl p t c ≡ ok (t', out)
      → Tunnels t t' out
  unfolding socket_step
  socket_step-Tunnels t t' c out h = elim (Option-cases (complete c t.socket.socket)) [
    | inl e ↦ rests_behind ssl.engine p.less t t' out (ground arith)
    | inr ((s, rs), e) ↦
        chain-Moves ssl.engine p.less (deliver ssl p) (λ u u' r sent. deliver-Tunnels u u' r sent)
          rs (record t { socket = record t.socket { socket = s } }) t' out (ground arith)
  ]

  -- A step of a TLS link is a sequence of moves of the links: with its bytes on the wire left out, what
  -- it sends is what the moves send, their messages left out. (An event is a call of the program, the
  -- wait of a timer, or the completion of an operation of a socket.)
  pub tls_step-Moves :
      (t t' : TlsLink ssl) (e : Event) (out : Wired)
      → step ssl p t e ≡ ok (t', out)
      → MovesBehind p.less t.node t'.node out
  unfolding step
  tls_step-Moves t t' (called c h) out e =
      call_main-Moves ssl.engine p.less t t' c out (public-IsOwn c h) e
  tls_step-Moves t t' (timer_done aborted) out e =
      timer_step-Moves ssl.engine p.less t t' aborted out e
  tls_step-Moves t t' (socket_done c) out e = socket_step-Tunnels t t' c out e
  tls_step-Moves t t' (guest_timer_done i aborted) out e =
      elim (Option-cases (get_elem? t.accepted_sockets i)) [
        | inl f ↦ rests_behind ssl.engine p.less t t' out (ground arith)
        | inr (a, f) ↦ guest_timer_step-Moves ssl.engine p.less t t' i aborted a out (ground arith)
      ]
  tls_step-Moves t t' (guest_done i c) out e =
      elim (Option-cases (get_elem? t.accepted_sockets i)) [
        | inl f ↦ rests_behind ssl.engine p.less t t' out (ground arith)
        | inr (a, f) ↦ guest_step-Tunnels t t' i c a out (ground arith)
      ]

  -- Whatever happens to a TLS link, in any order, if no exception or memory fault ends it: what it does to
  -- the links is a sequence of moves, each a method of the link, a method of a link in the map, or a
  -- new accepted link that is put into the map or turned away. The effects of the moves other than
  -- messages are those of the TLS link other than bytes on the wire, in the same order.
  pub tls_run-Moves :
      (es : List Event) (t t' : TlsLink ssl) (out : Wired)
      → run ssl p t es ≡ ok (t', out)
      → MovesBehind p.less t.node t'.node out
  tls_run-Moves es t t' out h =
      chain-Moves ssl.engine p.less (step ssl p) (λ u u' e sent. tls_step-Moves u u' e sent) es t t'
        out h
