-- ===== src/Carrier/Secured/Unfinished.antt =====
-- A session of svoiptunnel/vpndtlslink.cpp that takes itself for a server's: `onReceive` goes on with no
-- handshake.
use svoiptunnel.Base.{
  [], ℕ, zero, suc, Bool-cases, Bytes, List, arith, false, inl, inr, not, ok, refl, true, ◌==◌, ◌∙◌,
  ◌≡◌, ◌&&◌, ap, if◌then◌else◌,
}
use svoiptunnel.Carrier.Secured.Heard.{do_send-silent, effects_in}
use svoiptunnel.Carrier.Secured.Received.{receive-shaken, shaken}
use svoiptunnel.Ssl.Session.{
  Engine, Out, Session, do_handshake, do_send, receive, send_rounds, shake, ssl_server,
}
use svoiptunnel.Vpn.Link.{Endpoint, Link}

-- Moving bytes into and out of the memory BIOs does not finish a handshake.
pub record IsInert {E : Type 0} (eng : Engine E) : Type 0 where
  pub written :
      (buf : Bytes) (e : E) → eng.is_init_finished (eng.bio_write buf e) ≡ eng.is_init_finished e
  pub taken : (n : ℕ) (e : E) → eng.is_init_finished (eng.bio_read n e).0 ≡ eng.is_init_finished e

module _ {E : Type 0} (eng : Engine E) (inert : IsInert eng) where
  abbrev pub IsUnfinished : Session E → Type 0
  IsUnfinished s =
      (s.handshaking ≡ true) × (s.mode ≡ ssl_server) × (eng.is_init_finished s.engine ≡ false)

  rounds-IsUnfinished :
      (n : ℕ) (s : Session E) → IsUnfinished s → IsUnfinished (send_rounds eng n s).0
  unfolding send_rounds
  rounds-IsUnfinished zero s h = h
  rounds-IsUnfinished (suc n) s (busy, mode, more) =
      let e = (eng.bio_read (eng.bio_pending s.engine) s.engine).0 in
      let next : Session E = record s {
        engine = e;
        handshaking = s.handshaking && not (eng.is_init_finished e);
      } in
      let still : eng.is_init_finished e ≡ false =
        inert.taken (eng.bio_pending s.engine) s.engine ∙ more in
      let busy_still : next.handshaking ≡ true = ground (arith, busy, still) in
      elim (Bool-cases (eng.bio_pending s.engine == 0)) [
        | inl none_left ↦ rw none_left (busy, mode, more)
        | inr some_left ↦ rw some_left (rounds-IsUnfinished n next (busy_still, mode, still))
      ]

  do_send-IsUnfinished : (s : Session E) → IsUnfinished s → IsUnfinished (do_send eng s).0
  unfolding do_send
  do_send-IsUnfinished s h = rounds-IsUnfinished (eng.bio_pending s.engine) s h

  no_handshake :
      (s : Session E) (l : Link)
      → s.mode ≡ ssl_server
      → do_handshake eng s l ≡ ((do_send eng s).0, (l, (do_send eng s).1))
  unfolding do_handshake shake
  no_handshake s l mode = rw mode refl

  still_shaking :
      (r : Session E × (Link × List Out)) (ep : Endpoint)
      → r.0.handshaking ≡ true
      → shaken eng r ep ≡ ok r
  still_shaking r ep h = rw h refl

  -- `onReceive` only sends what the memory BIO holds.
  pub receive-IsUnfinished :
      (buf : Bytes) (s : Session E) (l : Link) (ep : Endpoint)
      → IsUnfinished s
      → let s₁ = do_send eng (record s { engine = eng.bio_write buf s.engine }) in
        (receive eng buf s l ep ≡ ok (s₁.0, (l, s₁.1))) × IsUnfinished s₁.0 × (effects_in s₁.1 ≡ [])
  receive-IsUnfinished buf s l ep (busy, mode, more) =
      let s₀ : Session E = record s { engine = eng.bio_write buf s.engine } in
      let h₀ : IsUnfinished s₀ = (busy, mode, inert.written buf s.engine ∙ more) in
      let h₁ = do_send-IsUnfinished s₀ h₀ in
      let r : Session E × (Link × List Out) = ((do_send eng s₀).0, (l, (do_send eng s₀).1)) in
      (
        receive-shaken eng buf s l ep
            ∙ ap (λ b. shaken eng (if b then do_handshake eng s₀ l else (s₀, (l, []))) ep) busy
            ∙ ap (λ x. shaken eng x ep) (no_handshake s₀ l mode)
            ∙ still_shaking r ep h₁.0,
        h₁,
        do_send-silent eng s₀,
      )
