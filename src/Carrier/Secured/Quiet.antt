-- ===== src/Carrier/Secured/Quiet.antt =====
-- What goes out of a link of svoiptunnel/vpntlslink.cpp or vpndtlslink.cpp, but for the bytes on the wire.
use svoiptunnel.Base.{[], ◌∷◌, ◌++◌, Bool, List, append_assoc, ap, refl, sym, ◌∙◌, ◌≡◌}
use svoiptunnel.Carrier.Secured.{Wired, effects_of, out_by}
use svoiptunnel.Carrier.Secured.Heard.{effects_in, do_send-silent, quiet, quiet-append}
use svoiptunnel.Carrier.Secured.Hearing.{sent_by-append}
use svoiptunnel.Ssl.Session.{
  Engine, Out, Session, accepted_session, link_effect, on_connected, ssl_accepted, wire,
}
use svoiptunnel.Base.{true}
use svoiptunnel.Vpn.Endpoints.{endpoint_eq}
use svoiptunnel.Vpn.Link.{
  Effect, Endpoint, on_connect, on_disconnect, on_receive_data, on_setup_data, on_signalling,
  schedule, transmit, unschedule,
}
use svoiptunnel.Vpn.Node.{Node, Origin, Sent, at_client, sent_by}
use svoiptunnel.Vpn.Tunnel.{Moves, Moves-append, from_guest}

-- The same for effects with their origins.
abbrev pub quiet_sent : Sent → Sent
quiet_sent [] = []
quiet_sent ((o, transmit buf) ∷ more) = quiet_sent more
quiet_sent ((o, e) ∷ more) = (o, e) ∷ quiet_sent more

abbrev pub effects_out : Wired → Sent
effects_out [] = []
effects_out ((o, wire buf) ∷ more) = effects_out more
effects_out ((o, link_effect e) ∷ more) = (o, e) ∷ effects_out more

pub effects_out-append : (a b : Wired) → effects_out (a ++ b) ≡ effects_out a ++ effects_out b
effects_out-append [] b = refl
effects_out-append ((o, wire buf) ∷ a) b = effects_out-append a b
effects_out-append ((o, link_effect e) ∷ a) b = ap (λ x. (o, e) ∷ x) (effects_out-append a b)

pub effects_out-by :
    (o : Origin) (xs : List Out) → effects_out (out_by o xs) ≡ sent_by o (effects_in xs)
effects_out-by o [] = refl
effects_out-by o (wire buf ∷ xs) = effects_out-by o xs
effects_out-by o (link_effect e ∷ xs) = ap (λ x. (o, e) ∷ x) (effects_out-by o xs)

pub quiet_sent-cons :
    (o : Origin) (e : Effect) (more : Sent)
    → quiet_sent ((o, e) ∷ more) ≡ sent_by o (quiet (e ∷ [])) ++ quiet_sent more
quiet_sent-cons o (transmit buf) more = refl
quiet_sent-cons o (on_connect ep) more = refl
quiet_sent-cons o (on_disconnect ep) more = refl
quiet_sent-cons o (on_signalling ch buf) more = refl
quiet_sent-cons o (on_receive_data port buf) more = refl
quiet_sent-cons o (on_setup_data i port buf) more = refl
quiet_sent-cons o schedule more = refl
quiet_sent-cons o unschedule more = refl

pub quiet_sent-append : (a b : Sent) → quiet_sent (a ++ b) ≡ quiet_sent a ++ quiet_sent b
quiet_sent-append [] b = refl
quiet_sent-append ((o, e) ∷ a) b =
    quiet_sent-cons o e (a ++ b)
    ∙ ap (λ x. sent_by o (quiet (e ∷ [])) ++ x) (quiet_sent-append a b)
    ∙ sym (append_assoc (sent_by o (quiet (e ∷ []))) (quiet_sent a) (quiet_sent b))
    ∙ ap (λ x. x ++ quiet_sent b) (sym (quiet_sent-cons o e a))

pub quiet_sent-by :
    (o : Origin) (es : List Effect) → quiet_sent (sent_by o es) ≡ sent_by o (quiet es)
quiet_sent-by o [] = refl
quiet_sent-by o (e ∷ es) =
    quiet_sent-cons o e (sent_by o es)
    ∙ ap (λ x. sent_by o (quiet (e ∷ [])) ++ x) (quiet_sent-by o es)
    ∙ sym (sent_by-append o (quiet (e ∷ [])) (quiet es))
    ∙ ap (sent_by o) (sym (quiet-append (e ∷ []) es))

-- What goes out is what a sequence of moves sends, but for the messages, which are bytes on the wire.
abbrev pub MovesBehind : (Endpoint → Endpoint → Bool) → Node → Node → Wired → Type 0
MovesBehind less n n' out =
    (sent : Sent) × Moves less n n' sent × (quiet_sent sent ≡ effects_out out)

pub out_by-silent :
    (o : Origin) (out : List Out) → effects_in out ≡ [] → effects_out (out_by o out) ≡ []
out_by-silent o out h = effects_out-by o out ∙ ap (sent_by o) h

pub from_guest-by :
    (ep : Endpoint) (sent : Sent) → from_guest ep sent ≡ sent_by (at_client ep) (effects_of sent)
from_guest-by ep [] = refl
from_guest-by ep ((o, e) ∷ more) = ap (λ x. (at_client ep, e) ∷ x) (from_guest-by ep more)

-- The effects of one object, sent or not.
pub one_origin :
    (o : Origin) (es : List Effect) (out : List Out)
    → quiet es ≡ effects_in out
    → quiet_sent (sent_by o es) ≡ effects_out (out_by o out)
one_origin o es out h = quiet_sent-by o es ∙ ap (sent_by o) h ∙ sym (effects_out-by o out)

-- The same effects, and the rest are bytes on the wire.
pub same_rest :
    (sent : Sent) (first out : Wired)
    → quiet_sent sent ≡ effects_out first
    → first ≡ out
    → quiet_sent sent ≡ effects_out out
same_rest sent first out h e = h ∙ ap effects_out e

pub behind_on :
    (less : Endpoint → Endpoint → Bool) (n n' n'' : Node) (first later out : Wired)
    → MovesBehind less n n' first
    → MovesBehind less n' n'' later
    → first ++ later ≡ out
    → MovesBehind less n n'' out
behind_on less n n' n'' first later out (a, m, e) (b, k, f) h = (
  a ++ b,
  Moves-append less n n' n'' a b m k,
  same_rest (a ++ b) (first ++ later) out
      (quiet_sent-append a b ∙ rw (e, f) (sym (effects_out-append first later))) h,
)

-- What has no other effect than bytes on the wire.
pub silent_by :
    (o : Origin) (first : List Out) (out : Wired)
    → effects_in first ≡ []
    → out_by o first ≡ out
    → [] ≡ effects_out out
silent_by o first out h e = sym (out_by-silent o first h) ∙ ap effects_out e

module _ {E : Type 0} (eng : Engine E) where
  pub accepted_session-silent : (e : E) → effects_in (accepted_session eng e).1 ≡ []
  unfolding accepted_session
  accepted_session-silent e =
      do_send-silent eng (record { engine = e; mode = ssl_accepted; handshaking = true })

  pub on_connected-silent : (s : Session E) → effects_in (on_connected eng s).1 ≡ []
  unfolding on_connected
  on_connected-silent s =
      do_send-silent eng (record s { engine = (eng.ssl_connect s.engine).0; handshaking = true })
