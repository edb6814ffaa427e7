-- ===== src/Net/Udp/Deaf.antt =====
-- What becomes of a socket of svoiptunnel/udpsocket.cpp behind an error.
use svoiptunnel.Net.Udp.{
  Completion, ErrorCode, Report, System, UdpSocket, complete, complete_all, error, failure,
  handle_sent, listen_done, message_size, operation_aborted, receive_done, report, send_done,
  success, handle_listen, handle_receive, on_accept,
}
use mathlib.Core.Path.{subst}
use svoiptunnel.Net.Steps.{all-Keeps, head_of, All-any}
use svoiptunnel.Base.{
  ℕ, All, Bool-cases, List, arith, refl, inl, inr, some, ◌∷◌, ◌≡◌, All-append, Bytes, sym, ◌∷◌, ◌≡◌,
  ◌-◌, ◌<◌, ◌∙◌, ◌∷◌, ◌≡◌, lt→ltb, ◌+◌, ◌-◌, ◌<◌, ◌∙◌, ◌∷◌, ◌≡◌,
}
use svoiptunnel.Vpn.Link.{Endpoint}

-- A report that hands over no datagram.
abbrev pub IsError : Report → Type 0
IsError (error code) = Unit
IsError _ = ⊥

abbrev pub IsIdle : UdpSocket → Type 0
IsIdle u = (u.receives ≡ 0) × (u.listens ≡ 0)

All-report : (u : UdpSocket) (code : ErrorCode) → All IsError (report u (error code))
All-report u code = elim (Bool-cases u.has_events) [ inl e ↦ rw e (tt, tt) | inr e ↦ rw e tt ]

handle_sent-IsError : (code : ErrorCode) (u : UdpSocket) → All IsError (handle_sent code u)
unfolding handle_sent
handle_sent-IsError success u = tt
handle_sent-IsError message_size u = All-report u message_size
handle_sent-IsError operation_aborted u = All-report u operation_aborted
handle_sent-IsError (failure n) u = All-report u (failure n)

module _ (sys : System) (local : Endpoint) where
  step-IsIdle :
      (c : Completion) (u t : UdpSocket) (out : List Report)
      → IsIdle u
      → Unit {0}
      → complete sys local c u ≡ some (t, out)
      → IsIdle t × All IsError out
  unfolding complete
  step-IsIdle (receive_done code buf) u t out v _ h = absurd (ground arith)
  step-IsIdle (listen_done code from buf) u t out v _ h = absurd (ground arith)
  step-IsIdle (send_done code) u t out v _ h =
      let e : u ≡ t = cc in
      let f : handle_sent code u ≡ out = cc in
      (subst IsIdle e v, subst (All IsError) f (handle_sent-IsError code u))

  first_failed :
      (n : ℕ) (buf : Bytes) (u : UdpSocket)
      → u.receives ≡ 1
      → some (handle_receive (failure n) buf u)
        ≡ complete sys local (receive_done (failure n) buf) u
  unfolding complete
  first_failed n buf u one = rw one

  failed_IsIdle :
      (n : ℕ) (buf : Bytes) (u t : UdpSocket) (out : List Report)
      → u.receives ≡ 1
      → u.listens ≡ 0
      → some (handle_receive (failure n) buf u) ≡ some (t, out)
      → IsIdle t × All IsError out
  unfolding handle_receive
  failed_IsIdle n buf u t out one none_listening h =
      let e : record u { receives = u.receives - 1 } ≡ t = cc in
      let f : report u (error (failure n)) ≡ out = cc in
      (
        subst IsIdle e (omega arith, none_listening),
        subst (All IsError) f (All-report u (failure n)),
      )

  -- A socket that does not listen, with one receive outstanding, which fails with an error other
  -- than `message_size` and `operation_aborted`: whatever completes later, in any order, no
  -- datagram is handed over, and behind it no receive is outstanding.
  pub handle_receive-IsIdle :
      (n : ℕ) (buf : Bytes) (cs : List Completion) (u t : UdpSocket) (out : List Report)
      → u.receives ≡ 1
      → u.listens ≡ 0
      → complete_all sys local (receive_done (failure n) buf ∷ cs) u ≡ some (t, out)
      → IsIdle t × All IsError out
  unfolding complete handle_receive
  handle_receive-IsIdle n buf cs u t out one none_listening h =
      let p = head_of (complete sys local) (receive_done (failure n) buf) cs u t out h in
      let failed : some (handle_receive (failure n) buf u) ≡ some (p.between, p.before) =
        first_failed n buf u one ∙ p.first in
      let (e, q) = failed_IsIdle n buf u p.between p.before one none_listening failed in
      let (v, q') =
        all-Keeps (complete sys local) IsIdle (λ _. Unit) IsError step-IsIdle cs p.between t
          p.behind e (All-any cs) p.later in
      (v, subst (All IsError) (sym p.joins) (All-append IsError p.before p.behind q q'))

  -- No `listen` is given up: the completion is none with `operation_aborted`.
  abbrev pub GoesOn : Completion → Type 0
  GoesOn (listen_done operation_aborted from buf) = ⊥
  GoesOn _ = Unit

  listening_step :
      (c : Completion) (u t : UdpSocket) (out : List Report)
      → GoesOn c
      → complete sys local c u ≡ some (t, out)
      → t.listens ≡ u.listens
  unfolding complete handle_receive handle_listen
  listening_step (receive_done success buf) u t out g h = ground arith
  listening_step (receive_done message_size buf) u t out g h = ground arith
  listening_step (receive_done operation_aborted buf) u t out g h = ground arith
  listening_step (receive_done (failure n) buf) u t out g h = ground arith
  listening_step (listen_done success from buf) u t out g h = ground arith
  listening_step (listen_done message_size from buf) u t out g h = ground arith
  listening_step (listen_done operation_aborted from buf) u t out g h = absurd g
  listening_step (listen_done (failure n) from buf) u t out g h = ground arith
  listening_step (send_done code) u t out g h = ground arith

  pub heard :
      (u : UdpSocket) (from : Endpoint) (buf : Bytes)
      → 0 < u.listens
      → complete sys local (listen_done success from buf) u
        ≡ some (record u { remote = from; listens = u.listens }, on_accept sys local from buf u)
  unfolding complete handle_listen
  heard u from buf l =
      let e : u.listens - 1 + 1 ≡ u.listens = omega arith in rw (complete, lt→ltb 0 u.listens l, e)

  -- A listening socket goes on to listen, whatever errors it meets: through all completions, of which
  -- none is an aborted one of its own, the receives from anyone stay outstanding, so a datagram
  -- that then comes in from an endpoint is handed over with a socket of its own for that endpoint.
  pub complete_all-listens :
      (cs : List Completion) (u t : UdpSocket) (out : List Report) (from : Endpoint) (buf : Bytes)
      → All GoesOn cs
      → 0 < u.listens
      → complete_all sys local cs u ≡ some (t, out)
      → (t.listens ≡ u.listens)
        × (complete sys local (listen_done success from buf) t
            ≡ some (record t { remote = from }, on_accept sys local from buf t))
  complete_all-listens cs u t out from buf g some_listening h =
      let (e, _) =
        all-Keeps (complete sys local) (λ s. s.listens ≡ u.listens) GoesOn (λ _. Unit)
          (λ c s s' sent v k f. (listening_step c s s' sent k f ∙ v, All-any sent)) cs u t out refl
          g h in
      (e, heard t from buf (omega (arith, e)))
