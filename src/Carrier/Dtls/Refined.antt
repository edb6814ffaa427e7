-- ===== src/Carrier/Dtls/Refined.antt =====
-- The DTLS links of svoiptunnel/vpndtlslink.cpp do to the links only what a transport may do.
use svoiptunnel.Net.Udp as Net
use svoiptunnel.Net.Udp.{Completion, Report, UdpSocket, closed, complete, error, received}
use svoiptunnel.Base.{
  [], ◌∷◌, ℕ, Bool-cases, List, Option-cases, arith, get_elem?, inl, inr, ok, set, ◌≡◌,
}
use svoiptunnel.Carrier.Dtls.Admitted.{Tunnels, on_accept-Tunnels}
use svoiptunnel.Carrier.Guests.{Accepted}
use svoiptunnel.Carrier.Guests.Moved.{public-IsOwn}
use svoiptunnel.Carrier.Secured.{Library, Wired}
use svoiptunnel.Carrier.Secured.Moved.{
  call_main-Moves, chain-Moves, guest_timer_step-Moves, receive_at-Moves, receive_main-Moves,
  rests_behind, timer_step-Moves,
}
use svoiptunnel.Carrier.Secured.Quiet.{MovesBehind}
use svoiptunnel.Carrier.Udp.{
  Event, Platform, called, guest_done, guest_timer_done, socket_done, timer_done,
}
use svoiptunnel.Carrier.Dtls.{
  DtlsLink, DtlsSocket, deliver, deliver_at, guest_step, run, socket_step, step,
}
use svoiptunnel.Vpn.Endpoints.{endpoint_eq}

module _ {E : Type 0} (ssl : Library E) (p : Platform) where
  deliver-Tunnels :
      (t t' : DtlsLink ssl) (r : Report) (out : Wired)
      → deliver ssl p t r ≡ ok (t', out)
      → Tunnels ssl p t t' out
  unfolding deliver
  deliver-Tunnels t t' (received ep buf) out h =
      receive_main-Moves ssl.engine p.naming.less t t' ep buf out h
  deliver-Tunnels t t' (Net.accepted s buf) out h = on_accept-Tunnels ssl p t t' s buf out h
  deliver-Tunnels t t' (error code) out h = rests_behind ssl.engine p.naming.less t t' out h
  deliver-Tunnels t t' closed out h = rests_behind ssl.engine p.naming.less t t' out h

  deliver_at-Tunnels :
      (t t' : DtlsLink ssl) (i : ℕ) (a : Accepted (DtlsSocket ssl)) (rs : List Report) (out : Wired)
      → deliver_at ssl t i a rs ≡ ok (t', out)
      → Tunnels ssl p t t' out
  unfolding deliver_at
  deliver_at-Tunnels t t' i a [] out h = rests_behind ssl.engine p.naming.less t t' out h
  deliver_at-Tunnels t t' i a (received ep buf ∷ rs) out h = elim (Bool-cases a.is_kept) [
    | inl kept ↦ receive_at-Moves ssl.engine p.naming.less t t' i a ep buf out (ground arith)
    | inr gone ↦ absurd (ground arith)
  ]
  deliver_at-Tunnels t t' i a (Net.accepted s buf ∷ rs) out h = elim (Bool-cases a.is_kept) [
    | inl kept ↦ rests_behind ssl.engine p.naming.less t t' out (ground arith)
    | inr gone ↦ absurd (ground arith)
  ]
  deliver_at-Tunnels t t' i a (error code ∷ rs) out h = elim (Bool-cases a.is_kept) [
    | inl kept ↦ rests_behind ssl.engine p.naming.less t t' out (ground arith)
    | inr gone ↦ absurd (ground arith)
  ]
  deliver_at-Tunnels t t' i a (closed ∷ rs) out h = elim (Bool-cases a.is_kept) [
    | inl kept ↦ rests_behind ssl.engine p.naming.less t t' out (ground arith)
    | inr gone ↦ absurd (ground arith)
  ]

  guest_step-Tunnels :
      (t t' : DtlsLink ssl) (i : ℕ) (c : Completion) (a : Accepted (DtlsSocket ssl)) (out : Wired)
      → guest_step ssl p t i c a ≡ ok (t', out)
      → Tunnels ssl p t t' out
  unfolding guest_step
  guest_step-Tunnels t t' i c a out h =
      elim (Option-cases (complete p.system p.local c a.socket.socket)) [
        | inl e ↦ rests_behind ssl.engine p.naming.less t t' out (ground arith)
        | inr ((s, rs), e) ↦
            let b : Accepted (DtlsSocket ssl) = record a {
              socket = record a.socket { socket = s };
            } in
            deliver_at-Tunnels (record t { accepted_sockets = set t.accepted_sockets i b }) t' i b
              rs out (ground arith)
      ]

  socket_step-Tunnels :
      (t t' : DtlsLink ssl) (c : Completion) (out : Wired)
      → socket_step ssl p t c ≡ ok (t', out)
      → Tunnels ssl p t t' out
  unfolding socket_step
  socket_step-Tunnels t t' c out h =
      elim (Option-cases (complete p.system p.local c t.socket.socket)) [
        | inl e ↦ rests_behind ssl.engine p.naming.less t t' out (ground arith)
        | inr ((s, rs), e) ↦
            chain-Moves ssl.engine p.naming.less (deliver ssl p)
              (λ u u' r sent. deliver-Tunnels u u' r sent) rs
              (record t { socket = record t.socket { socket = s } }) t' out (ground arith)
      ]

  -- A step of a DTLS link is a sequence of moves of the links: with its bytes on the wire left out, what
  -- it sends is what the moves send, their messages left out. (An event is a call of the program, the
  -- wait of a timer, or the completion of an operation of a socket.)
  pub dtls_step-Moves :
      (t t' : DtlsLink ssl) (e : Event) (out : Wired)
      → step ssl p t e ≡ ok (t', out)
      → MovesBehind p.naming.less t.node t'.node out
  unfolding step
  dtls_step-Moves t t' (called c h) out e =
      call_main-Moves ssl.engine p.naming.less t t' c out (public-IsOwn c h) e
  dtls_step-Moves t t' (timer_done aborted) out e =
      timer_step-Moves ssl.engine p.naming.less t t' aborted out e
  dtls_step-Moves t t' (socket_done c) out e = socket_step-Tunnels t t' c out e
  dtls_step-Moves t t' (guest_timer_done i aborted) out e =
      elim (Option-cases (get_elem? t.accepted_sockets i)) [
        | inl f ↦ rests_behind ssl.engine p.naming.less t t' out (ground arith)
        | inr (a, f) ↦
            guest_timer_step-Moves ssl.engine p.naming.less t t' i aborted a out (ground arith)
      ]
  dtls_step-Moves t t' (guest_done i c) out e =
      elim (Option-cases (get_elem? t.accepted_sockets i)) [
        | inl f ↦ rests_behind ssl.engine p.naming.less t t' out (ground arith)
        | inr (a, f) ↦ guest_step-Tunnels t t' i c a out (ground arith)
      ]

  -- Whatever happens to a DTLS link, in any order, if no exception or memory fault ends it: what it does to
  -- the links is a sequence of moves, each a method of the link, a method of a link in the map, or a
  -- new accepted link that is put into the map or turned away. The effects of the moves other than
  -- messages are those of the DTLS link other than bytes on the wire, in the same order.
  pub dtls_run-Moves :
      (es : List Event) (t t' : DtlsLink ssl) (out : Wired)
      → run ssl p t es ≡ ok (t', out)
      → MovesBehind p.naming.less t.node t'.node out
  dtls_run-Moves es t t' out h =
      chain-Moves ssl.engine p.naming.less (step ssl p) (λ u u' e sent. dtls_step-Moves u u' e sent)
        es t t' out h
