-- ===== src/Carrier/Secured/Heard.antt =====
-- What the session of svoiptunnel/vpntlslink.cpp and vpndtlslink.cpp lets through to a link: the bytes on
-- the wire aside, the link gets ready and receives.
use svoiptunnel.Ssl.Session.{
  Engine, Out, Session, do_send, link_effect, send, send_effects, send_rounds, sent, wire,
}
use svoiptunnel.Vpn.Link.{
  Effect, Endpoint, Link, on_connect, on_disconnect, on_link_ready, on_receive, on_receive_data,
  on_setup_data, on_signalling, schedule, transmit, unschedule,
}
use svoiptunnel.Base.{
  [], false, ◌∷◌, ◌++◌, ℕ, zero, suc, Bool-cases, Bytes, List, inl, inr, is_empty, ok, refl, ◌==◌,
  ◌∙◌, ◌≡◌, ap, not, ◌&&◌,
}

-- The effects of a link but for what it sends.
abbrev pub quiet : List Effect → List Effect
quiet [] = []
quiet (transmit buf ∷ more) = quiet more
quiet (e ∷ more) = e ∷ quiet more

abbrev pub effects_in : List Out → List Effect
effects_in [] = []
effects_in (wire buf ∷ more) = effects_in more
effects_in (link_effect e ∷ more) = e ∷ effects_in more

pub quiet-append : (a b : List Effect) → quiet (a ++ b) ≡ quiet a ++ quiet b
quiet-append [] b = refl
quiet-append (transmit buf ∷ a) b = quiet-append a b
quiet-append (on_connect ep ∷ a) b = ap (λ x. on_connect ep ∷ x) (quiet-append a b)
quiet-append (on_disconnect ep ∷ a) b = ap (λ x. on_disconnect ep ∷ x) (quiet-append a b)
quiet-append (on_signalling ch buf ∷ a) b = ap (λ x. on_signalling ch buf ∷ x) (quiet-append a b)
quiet-append (on_receive_data port buf ∷ a) b =
    ap (λ x. on_receive_data port buf ∷ x) (quiet-append a b)
quiet-append (on_setup_data i port buf ∷ a) b =
    ap (λ x. on_setup_data i port buf ∷ x) (quiet-append a b)
quiet-append (schedule ∷ a) b = ap (λ x. schedule ∷ x) (quiet-append a b)
quiet-append (unschedule ∷ a) b = ap (λ x. unschedule ∷ x) (quiet-append a b)

pub effects_in-append : (a b : List Out) → effects_in (a ++ b) ≡ effects_in a ++ effects_in b
effects_in-append [] b = refl
effects_in-append (wire buf ∷ a) b = effects_in-append a b
effects_in-append (link_effect e ∷ a) b = ap (λ x. e ∷ x) (effects_in-append a b)

-- A link gets ready and receives, in any order.
pub data Hears (ep : Endpoint) : Link → Link → List Effect → Type 0 where
  rests : {l l' : Link} {es : List Effect} → l ≡ l' → es ≡ [] → Hears ep l l' es
  readies :
      {l l' : Link} {es : List Effect} (later : List Effect)
      → Hears ep (on_link_ready l).0 l' later
      → es ≡ (on_link_ready l).1 ++ later
      → Hears ep l l' es
  reads :
      {l l'' : Link} {es : List Effect} (buf : Bytes) (l' : Link) (first later : List Effect)
      → on_receive l ep buf ≡ ok (l', first)
      → Hears ep l' l'' later
      → es ≡ first ++ later
      → Hears ep l l'' es

module _ {E : Type 0} (eng : Engine E) where
  sent-silent :
      (count : ℕ) (got : Bytes) (more : List Out)
      → effects_in more ≡ []
      → effects_in (sent count got more) ≡ []
  sent-silent count got more h = elim (Bool-cases (is_empty got)) [
    | inl e ↦ rw e h
    | inr e ↦ rw e h
  ]

  rounds-silent : (n : ℕ) (s : Session E) → effects_in (send_rounds eng n s).1 ≡ []
  unfolding send_rounds
  rounds-silent zero s = refl
  rounds-silent (suc n) s =
      let e = (eng.bio_read (eng.bio_pending s.engine) s.engine).0 in
      let next : Session E = record s {
        engine = e;
        handshaking = s.handshaking && not (eng.is_init_finished e);
      } in
      elim (Bool-cases (eng.bio_pending s.engine == 0)) [
        | inl none_left ↦ rw none_left refl
        | inr some_left ↦ rw some_left (
            sent-silent (eng.bio_pending s.engine)
              (eng.bio_read (eng.bio_pending s.engine) s.engine).1 (send_rounds eng n next).1
              (rounds-silent n next))
      ]

  pub do_send-silent : (s : Session E) → effects_in (do_send eng s).1 ≡ []
  unfolding do_send
  do_send-silent s = rounds-silent (eng.bio_pending s.engine) s

  pub send-silent : (buf : Bytes) (s : Session E) → effects_in (send eng buf s).1 ≡ []
  unfolding send
  send-silent buf s = elim (Bool-cases s.handshaking) [
    | inl busy ↦ rw busy refl
    | inr free ↦ elim (Bool-cases (eng.ssl_write buf s.engine).1) [
      | inl fatal ↦ rw (free, fatal) refl
      | inr fine ↦
          rw (free, fine)
            (do_send-silent
              (record s { engine = (eng.ssl_write buf s.engine).0; handshaking = false }))
    ]
  ]

  -- Sending does not change the other effects.
  pub send_effects-quiet :
      (es : List Effect) (s : Session E) → effects_in (send_effects eng es s).1 ≡ quiet es
  unfolding send_effects
  send_effects-quiet [] s = refl
  send_effects-quiet (transmit buf ∷ es) s =
      effects_in-append (send eng buf s).1 (send_effects eng es (send eng buf s).0).1
      ∙ rw (send-silent buf s) (send_effects-quiet es (send eng buf s).0)
  send_effects-quiet (on_connect ep ∷ es) s = ap (λ x. on_connect ep ∷ x) (send_effects-quiet es s)
  send_effects-quiet (on_disconnect ep ∷ es) s =
      ap (λ x. on_disconnect ep ∷ x) (send_effects-quiet es s)
  send_effects-quiet (on_signalling ch buf ∷ es) s =
      ap (λ x. on_signalling ch buf ∷ x) (send_effects-quiet es s)
  send_effects-quiet (on_receive_data port buf ∷ es) s =
      ap (λ x. on_receive_data port buf ∷ x) (send_effects-quiet es s)
  send_effects-quiet (on_setup_data i port buf ∷ es) s =
      ap (λ x. on_setup_data i port buf ∷ x) (send_effects-quiet es s)
  send_effects-quiet (schedule ∷ es) s = ap (λ x. schedule ∷ x) (send_effects-quiet es s)
  send_effects-quiet (unschedule ∷ es) s = ap (λ x. unschedule ∷ x) (send_effects-quiet es s)
