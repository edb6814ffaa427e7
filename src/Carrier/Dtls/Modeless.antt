-- ===== src/Carrier/Dtls/Modeless.antt =====
-- A client of svoiptunnel/vpndtlslink.cpp whose `_mode`, which its constructor does not set, is that of a
-- server.
use svoiptunnel.Net.Udp.{
  ErrorCode, UdpSocket, complete, failure, handle_receive, listen_done, message_size,
  operation_aborted, receive_done, received, report, send_done, start_receive, success,
}
use svoiptunnel.Base.{
  [], ◌∷◌, ◌++◌, >>=-eq-ok, false, Bool-cases, Bytes, List, Outcome, true, if◌then◌else◌, ap, arith,
  inl, inr, ltb, ok, refl, sym, append-nil, ◌-◌, ◌+◌, ◌>>=◌, ◌∙◌, ◌≡◌,
}
use mathlib.Core.Path.{subst}
use svoiptunnel.Carrier.Dtls.{DtlsLink, deliver, deliver_all, run, socket_step, step}
use svoiptunnel.Carrier.Dtls.Waiting.{IsUnheard, IsWaiting, error-rest, rest, step-Idles}
use svoiptunnel.Carrier.Secured.{Library, Wired, chain, out_by, receive_main, waits_in}
use svoiptunnel.Carrier.Secured.Heard.{effects_in}
use svoiptunnel.Carrier.Secured.Quiet.{effects_out, effects_out-append, out_by-silent}
use svoiptunnel.Carrier.Secured.Unfinished.{IsInert, IsUnfinished, receive-IsUnfinished}
use svoiptunnel.Carrier.Udp.{
  Event, Platform, called, guest_done, guest_timer_done, socket_done, timer_done,
}
use svoiptunnel.Ssl.Session.{Out, Session, do_send, link_effect, receive, wire}
use svoiptunnel.Vpn.Link.{Endpoint}
use svoiptunnel.Vpn.Node.{self}

silent-waits : (out : List Out) → effects_in out ≡ [] → waits_in out ≡ 0
silent-waits [] h = refl
silent-waits (wire buf ∷ out) h = silent-waits out h
silent-waits (link_effect e ∷ out) h = cc

module _ {E : Type 0} (ssl : Library E) (inert : IsInert ssl.engine) (p : Platform) where
  abbrev pub IsModeless : DtlsLink ssl → Session E → Type 0
  IsModeless t s = IsWaiting ssl p t s × IsUnfinished ssl.engine inert s

  -- A step from such a client.
  abbrev pub StaysModeless : DtlsLink ssl → Wired → Type 0
  StaysModeless t out = (s : Session E) × IsModeless t s × (effects_out out ≡ [])

  abbrev ended : DtlsLink ssl → Wired → Outcome (DtlsLink ssl × Wired)
  ended t out = ok (t, out)

  moved_on :
      (t t' : DtlsLink ssl) (first out : Wired)
      → StaysModeless t first
      → ended t first ≡ ended t' out
      → StaysModeless t' out
  moved_on t t' first out m h =
      let same_link : t ≡ t' = ground arith in
      let same_out : first ≡ out = ground arith in
      subst (λ u. StaysModeless u out) same_link (subst (StaysModeless t) same_out m)

  receive_main-got :
      (t : DtlsLink ssl) (s s' : Session E) (ep : Endpoint) (buf : Bytes) (sent : List Out)
      → t.socket.session ≡ ok s
      → receive ssl.engine buf s t.node.link ep ≡ ok (s', (t.node.link, sent))
      → receive_main ssl.engine t ep buf
        ≡ ok (
          record t {
            socket = record t.socket { session = ok s' };
            waits = t.waits + waits_in sent;
          },
          out_by self sent,
        )
  unfolding receive_main
  receive_main-got t s s' ep buf sent e got = rw (e, got) refl

  receive_main-StaysModeless :
      (t t' : DtlsLink ssl) (s : Session E) (ep : Endpoint) (buf : Bytes) (out : Wired)
      → IsModeless t s
      → receive_main ssl.engine t ep buf ≡ ok (t', out)
      → StaysModeless t' out
  receive_main-StaysModeless t t' s ep buf out (((e, busy, idle, empty, up), still), u) h =
      let (s', sent) =
        do_send ssl.engine (record s { engine = ssl.engine.bio_write buf s.engine }) in
      let (got, un, silent) = receive-IsUnfinished ssl.engine inert buf s t.node.link ep u in
      let next : DtlsLink ssl = record t {
        socket = record t.socket { session = ok s' };
        waits = t.waits + waits_in sent;
      } in
      let same : StaysModeless next (out_by self sent) = (
        s',
        (((refl, un.0, omega (arith, idle, silent-waits sent silent), empty, up), still), un),
        out_by-silent self sent silent,
      ) in
      moved_on next t' (out_by self sent) out same
        (sym (receive_main-got t s s' ep buf sent e got) ∙ h)

  abbrev told : DtlsLink ssl × Wired → Outcome (DtlsLink ssl × Wired)
  told r = ok (r.0, r.1 ++ [])

  deliver-received :
      (t : DtlsLink ssl) (ep : Endpoint) (buf : Bytes)
      → deliver_all ssl p t (received ep buf ∷ []) ≡ receive_main ssl.engine t ep buf >>= told
  unfolding chain deliver
  deliver-received t ep buf = refl

  told-StaysModeless :
      (t t' : DtlsLink ssl) (s : Session E) (ep : Endpoint) (buf : Bytes) (out : Wired)
      → IsModeless t s
      → deliver_all ssl p t (report t.socket.socket (received ep buf)) ≡ ok (t', out)
      → StaysModeless t' out
  unfolding chain
  told-StaysModeless t t' s ep buf out m h = elim (Bool-cases t.socket.socket.has_events) [
    | inl set ↦
        let heard =
          subst (λ b. deliver_all ssl p t (if b then received ep buf ∷ [] else []) ≡ ok (t', out))
            set h in
        let ((u, sent), f, g) =
          >>=-eq-ok (receive_main ssl.engine t ep buf) told
            (sym (deliver-received t ep buf) ∙ heard) in
        moved_on u t' (sent ++ []) out
          (subst (StaysModeless u) (sym (append-nil sent))
            (receive_main-StaysModeless t u s ep buf sent m f))
          g
    | inr unset ↦
        let unheard =
          subst (λ b. deliver_all ssl p t (if b then received ep buf ∷ [] else []) ≡ ok (t', out))
            unset h in
        moved_on t t' [] out (s, m, refl) unheard
  ]

  -- The client behind the completion of a receive.
  abbrev behind : DtlsLink ssl → UdpSocket → DtlsLink ssl
  behind t u = record t { socket = record t.socket { socket = u } }

  receive_done-step :
      (t : DtlsLink ssl) (code : ErrorCode) (buf : Bytes)
      → ltb 0 t.socket.socket.receives ≡ true
      → step ssl p t (socket_done (receive_done code buf)) ≡ (
          let (u, reports) = handle_receive code buf t.socket.socket in
          deliver_all ssl p (behind t u) reports)
  unfolding step socket_step complete
  receive_done-step t code buf due = ground arith

  none_due :
      (t : DtlsLink ssl) (code : ErrorCode) (buf : Bytes)
      → ltb 0 t.socket.socket.receives ≡ false
      → step ssl p t (socket_done (receive_done code buf)) ≡ rest ssl p t
  unfolding step socket_step complete
  none_due t code buf e = ground arith

  handled-StaysModeless :
      (t t' : DtlsLink ssl) (s : Session E) (code : ErrorCode) (buf : Bytes) (out : Wired)
      → IsModeless t s
      → (let (u, reports) = handle_receive code buf t.socket.socket in
          deliver_all ssl p (behind t u) reports)
        ≡ ok (t', out)
      → StaysModeless t' out
  unfolding handle_receive start_receive chain
  handled-StaysModeless t t' s success buf out m h =
      let u = t.socket.socket in
      told-StaysModeless (behind t (start_receive (record u { receives = u.receives - 1 }))) t' s
        u.remote buf out m h
  handled-StaysModeless t t' s message_size buf out m h =
      let u = t.socket.socket in
      told-StaysModeless (behind t (start_receive (record u { receives = u.receives - 1 }))) t' s
        u.remote buf out m h
  handled-StaysModeless t t' s operation_aborted buf out m h =
      let u = t.socket.socket in
      moved_on (behind t (record u { receives = u.receives - 1 })) t' [] out (s, m, refl) h
  handled-StaysModeless t t' s (failure n) buf out m h =
      let u = t.socket.socket in
      let t₁ = behind t (record u { receives = u.receives - 1 }) in
      moved_on t₁ t' [] out (s, m, refl) (sym (error-rest ssl p t₁ (failure n)) ∙ h)

  receive_done-StaysModeless :
      (t t' : DtlsLink ssl) (s : Session E) (code : ErrorCode) (buf : Bytes) (out : Wired)
      → IsModeless t s
      → step ssl p t (socket_done (receive_done code buf)) ≡ ok (t', out)
      → StaysModeless t' out
  receive_done-StaysModeless t t' s code buf out m h =
      elim (Bool-cases (ltb 0 t.socket.socket.receives)) [
        | inl due ↦
            handled-StaysModeless t t' s code buf out m (sym (receive_done-step t code buf due) ∙ h)
        | inr idle ↦ moved_on t t' [] out (s, m, refl) (sym (none_due t code buf idle) ∙ h)
      ]

  quietly :
      (t t' : DtlsLink ssl) (s : Session E) (e : Event) (out : Wired)
      → IsUnheard e
      → IsModeless t s
      → step ssl p t e ≡ ok (t', out)
      → StaysModeless t' out
  quietly t t' s e out h m k =
      let (w, silent) = step-Idles ssl p t t' s e out h m.0 k in
      (s, (w, m.1), ap effects_out silent)

  step-StaysModeless :
      (t t' : DtlsLink ssl) (s : Session E) (e : Event) (out : Wired)
      → IsModeless t s
      → step ssl p t e ≡ ok (t', out)
      → StaysModeless t' out
  step-StaysModeless t t' s (called c public_call) out m k =
      quietly t t' s (called c public_call) out tt m k
  step-StaysModeless t t' s (timer_done aborted) out m k =
      quietly t t' s (timer_done aborted) out tt m k
  step-StaysModeless t t' s (socket_done (receive_done code buf)) out m k =
      receive_done-StaysModeless t t' s code buf out m k
  step-StaysModeless t t' s (socket_done (listen_done code from buf)) out m k =
      quietly t t' s (socket_done (listen_done code from buf)) out tt m k
  step-StaysModeless t t' s (socket_done (send_done code)) out m k =
      quietly t t' s (socket_done (send_done code)) out tt m k
  step-StaysModeless t t' s (guest_timer_done i aborted) out m k =
      quietly t t' s (guest_timer_done i aborted) out tt m k
  step-StaysModeless t t' s (guest_done i c) out m k = quietly t t' s (guest_done i c) out tt m k

  -- A DTLS client whose `_mode`, which its constructor does not set, is found to be that of a server never
  -- gets ready, where moving bytes into and out of the memory BIOs does not finish a handshake: whatever
  -- the program calls and whatever completes or comes in, if it returns, the handshake still runs, no
  -- timer does, the link is not connected, and nothing goes out but bytes that the engine has left.
  pub dtls_run-StaysModeless :
      (es : List Event) (t t' : DtlsLink ssl) (s : Session E) (out : Wired)
      → IsModeless t s
      → run ssl p t es ≡ ok (t', out)
      → (s' : Session E) × IsModeless t' s' × (effects_out out ≡ [])
  unfolding chain
  dtls_run-StaysModeless [] t t' s out m k = moved_on t t' [] out (s, m, refl) k
  dtls_run-StaysModeless (e ∷ es) t t'' s out m k =
      let ((t', first), f, g) = >>=-eq-ok (step ssl p t e) _ k in
      let (s', m', silent) = step-StaysModeless t t' s e first m f in
      let ((u, later), j, l) = >>=-eq-ok (run ssl p t' es) _ g in
      let (s'', m'', silent_later) = dtls_run-StaysModeless es t' u s' later m' j in
      moved_on u t'' (first ++ later) out
        (s'', m'', effects_out-append first later ∙ rw (silent, silent_later) refl) l
