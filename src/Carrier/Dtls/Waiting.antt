-- ===== src/Carrier/Dtls/Waiting.antt =====
-- A client of svoiptunnel/vpndtlslink.cpp whose handshake has lost a datagram: nothing sends it again.
use svoiptunnel.Vpn.Link.{Endpoint}
use svoiptunnel.Net.Udp.{
  Completion, ErrorCode, complete, failure, message_size, operation_aborted, error, handle_sent,
  listen_done, receive_done, report, send_done, success,
}
use svoiptunnel.Base.{
  [], ◌∷◌, ◌++◌, ℕ, >>=-eq-ok, All, Bool, Bool-cases, Bytes, List, Outcome, ap, arith, inl, inr, ok,
  refl, sym, ◌∙◌, ◌≡◌,
}
use mathlib.Core.Path.{subst}
use svoiptunnel.Carrier.Dtls.{DtlsLink, deliver, deliver_all, run, socket_step, step}
use svoiptunnel.Carrier.Secured.{Library, Wired, chain, timer_step}
use svoiptunnel.Carrier.Secured.Shaking.{IsShaking, call_main-dropped}
use svoiptunnel.Carrier.Udp.{
  Event, Platform, called, guest_done, guest_timer_done, socket_done, timer_done,
}
use svoiptunnel.Ssl.Session.{Session}

-- Anything but that a datagram has come in.
abbrev pub IsUnheard : Event → Type 0
IsUnheard (socket_done (receive_done code buf)) = ⊥
IsUnheard e = Unit

both_empty : (a b : Wired) → a ≡ [] → b ≡ [] → a ++ b ≡ []
both_empty a b e f = rw (e, f) refl

module _ {E : Type 0} (ssl : Library E) (p : Platform) where
  -- A client whose handshake runs, and whose socket does not listen.
  abbrev pub IsWaiting : DtlsLink ssl → Session E → Type 0
  IsWaiting t s = IsShaking ssl.engine t s × (t.socket.socket.listens ≡ 0)

  -- A step that leaves the session, and sends nothing.
  abbrev pub Idles : DtlsLink ssl → Session E → Wired → Type 0
  Idles t s out = IsWaiting t s × (out ≡ [])

  -- Nothing happens.
  abbrev pub rest : DtlsLink ssl → Outcome (DtlsLink ssl × Wired)
  rest t = ok (t, [])

  stays_idle :
      (t t' : DtlsLink ssl) (s : Session E) (e : Event) (out : Wired)
      → IsWaiting t s
      → step ssl p t e ≡ rest t
      → step ssl p t e ≡ ok (t', out)
      → Idles t' s out
  stays_idle t t' s e out w h k =
      let same : rest t ≡ ok (t', out) = sym h ∙ k in
      let same_link : t ≡ t' = ground (arith, same) in
      (subst (λ u. IsWaiting u s) same_link w, ground (arith, same))

  pub timer_done-rest :
      (t : DtlsLink ssl) (aborted : Bool) → t.waits ≡ 0 → step ssl p t (timer_done aborted) ≡ rest t
  unfolding step timer_step
  timer_done-rest t aborted e = rw e refl

  pub listen_done-rest :
      (t : DtlsLink ssl) (code : ErrorCode) (from : Endpoint) (buf : Bytes)
      → t.socket.socket.listens ≡ 0
      → step ssl p t (socket_done (listen_done code from buf)) ≡ rest t
  unfolding step socket_step complete
  listen_done-rest t code from buf e = rw e refl

  pub error-rest :
      (t : DtlsLink ssl) (code : ErrorCode)
      → deliver_all ssl p t (report t.socket.socket (error code)) ≡ rest t
  unfolding chain deliver
  error-rest t code = elim (Bool-cases t.socket.socket.has_events) [
    | inl set ↦ rw set refl
    | inr unset ↦ rw unset refl
  ]

  pub send_done-rest :
      (t : DtlsLink ssl) (code : ErrorCode) → step ssl p t (socket_done (send_done code)) ≡ rest t
  unfolding step socket_step complete handle_sent chain
  send_done-rest t success = refl
  send_done-rest t message_size = error-rest t message_size
  send_done-rest t operation_aborted = error-rest t operation_aborted
  send_done-rest t (failure n) = error-rest t (failure n)

  pub guest_timer_done-rest :
      (t : DtlsLink ssl) (i : ℕ) (aborted : Bool)
      → t.accepted_sockets ≡ []
      → step ssl p t (guest_timer_done i aborted) ≡ rest t
  unfolding step
  guest_timer_done-rest t i aborted e = rw e refl

  pub guest_done-rest :
      (t : DtlsLink ssl) (i : ℕ) (c : Completion)
      → t.accepted_sockets ≡ []
      → step ssl p t (guest_done i c) ≡ rest t
  unfolding step
  guest_done-rest t i c e = rw e refl

  pub step-Idles :
      (t t' : DtlsLink ssl) (s : Session E) (e : Event) (out : Wired)
      → IsUnheard e
      → IsWaiting t s
      → step ssl p t e ≡ ok (t', out)
      → Idles t' s out
  unfolding step
  step-Idles t t' s (called c pub_call) out h w k =
      let (w', same_socket, silent) =
        call_main-dropped ssl.engine p.naming.less t t' s c out pub_call w.0 k in
      ((w', ap (λ u. u.listens) same_socket ∙ w.1), silent)
  step-Idles t t' s (timer_done aborted) out h w k =
      stays_idle t t' s (timer_done aborted) out w (timer_done-rest t aborted w.0.2) k
  step-Idles t t' s (socket_done (receive_done code buf)) out h w k = absurd h
  step-Idles t t' s (socket_done (listen_done code from buf)) out h w k =
      stays_idle t t' s (socket_done (listen_done code from buf)) out w
        (listen_done-rest t code from buf w.1) k
  step-Idles t t' s (socket_done (send_done code)) out h w k =
      stays_idle t t' s (socket_done (send_done code)) out w (send_done-rest t code) k
  step-Idles t t' s (guest_timer_done i aborted) out h w k =
      stays_idle t t' s (guest_timer_done i aborted) out w (guest_timer_done-rest t i aborted w.0.3)
        k
  step-Idles t t' s (guest_done i c) out h w k =
      stays_idle t t' s (guest_done i c) out w (guest_done-rest t i c w.0.3) k

  -- During the handshake of a DTLS client, whatever the program calls and whatever completes, but for a
  -- datagram that comes in: if it returns, the session is as it was, no timer runs, the link is not connected,
  -- and nothing is sent. What is lost of the handshake is not sent again.
  pub dtls_run-waits :
      (es : List Event) (t t' : DtlsLink ssl) (s : Session E) (out : Wired)
      → All IsUnheard es
      → IsWaiting t s
      → run ssl p t es ≡ ok (t', out)
      → IsWaiting t' s × (out ≡ [])
  unfolding chain
  dtls_run-waits [] t t' s out h w k =
      let same_link : t ≡ t' = ground arith in
      (subst (λ u. IsWaiting u s) same_link w, ground arith)
  dtls_run-waits (e ∷ es) t t'' s out h w k =
      let ((t', first), f, g) = >>=-eq-ok (step ssl p t e) _ k in
      let (w', silent) = step-Idles t t' s e first h.0 w f in
      let ((u, later), j, l) = >>=-eq-ok (run ssl p t' es) _ g in
      let (w'', silent_later) = dtls_run-waits es t' u s later h.1 w' j in
      let same_link : u ≡ t'' = ground arith in
      let same_out : first ++ later ≡ out = ground arith in
      (
        subst (λ x. IsWaiting x s) same_link w'',
        sym same_out ∙ both_empty first later silent silent_later,
      )
