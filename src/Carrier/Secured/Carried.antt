-- ===== src/Carrier/Secured/Carried.antt =====
-- Sending through the sessions of svoiptunnel/vpntlslink.cpp and vpndtlslink.cpp keeps the other effects.
use svoiptunnel.Base.{
  [], ◌∷◌, ◌++◌, >>=-eq-ok, Bool-cases, Bytes, List, Outcome, arith, ap, inl, inr, ok, sym, ◌&&◌,
  ◌∙◌, ◌≡◌,
}
use mathlib.Core.Path.{subst}
use svoiptunnel.Carrier.Guests.{Accepted, SocketLink}
use svoiptunnel.Carrier.Secured.{
  Secured, Wired, carry, carry_effect, out_by, send_from, send_through, send_to_guest,
}
use svoiptunnel.Carrier.Secured.Heard.{effects_in, quiet, send-silent}
use svoiptunnel.Carrier.Secured.Quiet.{
  effects_out, effects_out-append, out_by-silent, quiet_sent, quiet_sent-cons,
}
use svoiptunnel.Ssl.Session.{Engine, Out, link_effect, send}
use svoiptunnel.Vpn.Endpoints.{endpoint_eq}
use svoiptunnel.Vpn.Link.{
  Effect, Endpoint, on_connect, on_disconnect, on_receive_data, on_setup_data, on_signalling,
  schedule, transmit, unschedule,
}
use svoiptunnel.Vpn.Node.{Origin, Sent, at_client, self, sent_by}

module _ {E S : Type 0} (eng : Engine E) where
  send_through-silent :
      (buf : Bytes) (x x' : Secured E S) (out : List Out)
      → send_through eng buf x ≡ ok (x', out)
      → effects_in out ≡ []
  unfolding send_through
  send_through-silent buf x x' out h =
      let (s, e, f) = >>=-eq-ok x.session _ h in
      let same : (send eng buf s).1 ≡ out = ground arith in
      subst (λ o. effects_in o ≡ []) same (send-silent eng buf s)

  send_to_guest-silent :
      (ep : Endpoint) (buf : Bytes) (guests rest : List (Accepted (Secured E S))) (out : List Out)
      → send_to_guest eng ep buf guests ≡ ok (rest, out)
      → effects_in out ≡ []
  unfolding send_to_guest
  send_to_guest-silent ep buf [] rest out h = absurd (ground arith)
  send_to_guest-silent ep buf (a ∷ more) rest out h =
      elim (Bool-cases (a.is_kept && endpoint_eq.beq ep a.peer)) [
        | inl here ↦
            let ((x, sent), e, f) =
              >>=-eq-ok {T = List (Accepted (Secured E S)) × List Out} {t = (rest, out)}
                (send_through eng buf a.socket) (λ r. ok (record a { socket = r.0 } ∷ more, r.1))
                (ground arith) in
            let same : sent ≡ out = ground arith in
            subst (λ o. effects_in o ≡ []) same (send_through-silent buf a.socket x sent e)
        | inr later ↦
            let ((others, sent), e, f) =
              >>=-eq-ok {T = List (Accepted (Secured E S)) × List Out} {t = (rest, out)}
                (send_to_guest eng ep buf more) (λ r. ok (a ∷ r.0, r.1)) (ground arith) in
            let same : sent ≡ out = ground arith in
            subst (λ o. effects_in o ≡ []) same (send_to_guest-silent ep buf more others sent e)
      ]

  send_from-silent :
      (o : Origin) (buf : Bytes) (t t' : SocketLink (Secured E S)) (out : Wired)
      → send_from eng o buf t ≡ ok (t', out)
      → effects_out out ≡ []
  unfolding send_from
  send_from-silent self buf t t' out h =
      let ((x, sent), e, f) = >>=-eq-ok (send_through eng buf t.socket) _ h in
      let same : out_by self sent ≡ out = ground arith in
      subst (λ o. effects_out o ≡ []) same
        (out_by-silent self sent (send_through-silent buf t.socket x sent e))
  send_from-silent (at_client ep) buf t t' out h =
      let ((rest, sent), e, f) = >>=-eq-ok (send_to_guest eng ep buf t.accepted_sockets) _ h in
      let same : out_by (at_client ep) sent ≡ out = ground arith in
      subst (λ o. effects_out o ≡ []) same
        (out_by-silent (at_client ep) sent
          (send_to_guest-silent ep buf t.accepted_sockets rest sent e))

  -- A step that returns.
  abbrev done : SocketLink (Secured E S) → Wired → Outcome (SocketLink (Secured E S) × Wired)
  done t out = ok (t, out)

  same_effect :
      (t t' : SocketLink (Secured E S)) (first out : Wired)
      → done t first ≡ done t' out
      → effects_out first ≡ effects_out out
  same_effect t t' first out h = let same : first ≡ out = ground arith in ap effects_out same

  carry_effect-quiet :
      (o : Origin) (e : Effect) (t t' : SocketLink (Secured E S)) (out : Wired)
      → carry_effect eng o e t ≡ ok (t', out)
      → sent_by o (quiet (e ∷ [])) ≡ effects_out out
  unfolding carry_effect
  carry_effect-quiet o (transmit buf) t t' out h = sym (send_from-silent o buf t t' out h)
  carry_effect-quiet o (on_connect ep) t t' out h =
      same_effect t t' ((o, link_effect (on_connect ep)) ∷ []) out h
  carry_effect-quiet o (on_disconnect ep) t t' out h =
      same_effect t t' ((o, link_effect (on_disconnect ep)) ∷ []) out h
  carry_effect-quiet o (on_signalling ch buf) t t' out h =
      same_effect t t' ((o, link_effect (on_signalling ch buf)) ∷ []) out h
  carry_effect-quiet o (on_receive_data i buf) t t' out h =
      same_effect t t' ((o, link_effect (on_receive_data i buf)) ∷ []) out h
  carry_effect-quiet o (on_setup_data i j buf) t t' out h =
      same_effect t t' ((o, link_effect (on_setup_data i j buf)) ∷ []) out h
  carry_effect-quiet o schedule t t' out h = same_effect t t' ((o, link_effect schedule) ∷ []) out h
  carry_effect-quiet o unschedule t t' out h =
      same_effect t t' ((o, link_effect unschedule) ∷ []) out h

  pub carry-quiet :
      (sent : Sent) (t t' : SocketLink (Secured E S)) (out : Wired)
      → carry eng sent t ≡ ok (t', out)
      → quiet_sent sent ≡ effects_out out
  unfolding carry
  carry-quiet [] t t' out h = let same : [] ≡ out = ground arith in ap effects_out same
  carry-quiet ((o, e) ∷ more) t t'' out h =
      let ((t', first), f, g) = >>=-eq-ok (carry_effect eng o e t) _ h in
      let ((u, later), j, k) = >>=-eq-ok (carry eng more t') _ g in
      let same : first ++ later ≡ out = ground arith in
      rw
        (
          quiet_sent-cons o e more,
          carry_effect-quiet o e t t' first f,
          carry-quiet more t' u later j,
        )
        (sym (effects_out-append first later) ∙ ap effects_out same)
