-- ===== src/Carrier/Secured/Received.antt =====
-- What `onReceive` of svoiptunnel/vpntlslink.cpp and vpndtlslink.cpp does to the link.
use svoiptunnel.Ssl.Session.{
  Engine, Out, Session, do_handshake, do_send, read_once, receive, send_effects, shake,
}
use svoiptunnel.Vpn.Link.{Effect, Endpoint, Link, on_link_ready, on_receive}
use mathlib.Core.Path.{subst}
use svoiptunnel.Base.{
  [], false, ◌++◌, >>=-eq-ok, Bool-cases, Bytes, List, Option-cases, Outcome, if◌then◌else◌, arith,
  append-nil, inl, inr, ok, refl, ◌>>=◌, ◌∙◌, ◌≡◌, sym, ap,
}
use svoiptunnel.Carrier.Secured.Heard.{
  Hears, do_send-silent, effects_in, effects_in-append, quiet, quiet-append, reads, readies, rests,
  send_effects-quiet,
}

module _ {E : Type 0} (eng : Engine E) where
  do_handshake-Hears :
      (s : Session E) (l : Link) (ep : Endpoint) (later : List Effect) (l' : Link)
      → Hears ep (do_handshake eng s l).1.0 l' later
      → (es : List Effect) × Hears ep l l' es
        × (quiet es ≡ effects_in (do_handshake eng s l).1.1 ++ quiet later)
  unfolding do_handshake
  do_handshake-Hears s l ep later l' h =
      let e = (shake eng s).0 in
      let (l₁, es) = on_link_ready l in
      let next : Session E = record s { engine = e; handshaking = false } in
      let (s₁, out) = send_effects eng es next in
      elim (Bool-cases (shake eng s).1) [
        | inl done ↦ (
          es ++ later,
          readies later (subst (λ x. Hears ep x l' later) (rw done refl) h) refl,
          rw done (
              quiet-append es later
              ∙ rw
                  (
                    effects_in-append out (do_send eng s₁).1,
                    do_send-silent eng s₁,
                    append-nil (effects_in out),
                    send_effects-quiet eng es next,
                  )
                  refl),
        )
        | inr more ↦ (
          later,
          subst (λ x. Hears ep x l' later) (rw more refl) h,
          rw more (rw (do_send-silent eng (record s { engine = e })) refl),
        )
      ]

  read_once-Hears :
      (s s' : Session E) (l l' : Link) (ep : Endpoint) (out : List Out)
      → read_once eng s l ep ≡ ok (s', (l', out))
      → (es : List Effect) × Hears ep l l' es × (quiet es ≡ effects_in out)
  unfolding read_once
  read_once-Hears s s' l l' ep out h =
      let read = eng.ssl_read 1024 s.engine in
      let s₁ : Session E = record s { engine = read.0 } in
      elim (Option-cases read.1) [
        | inl none_read ↦ ([], rests (ground arith) refl, ground arith)
        | inr (buf, e) ↦
            let finish : Link × List Effect → Outcome (Session E × (Link × List Out)) =
              λ r. ok (let (s'', more) = send_effects eng r.1 s₁ in (s'', (r.0, more))) in
            let ((l₁, es), f, g) =
              >>=-eq-ok {t = (s', (l', out))} (on_receive l ep buf) finish (ground arith) in
            let same_link : l₁ ≡ l' = ground arith in
            let same_out : (send_effects eng es s₁).1 ≡ out = ground arith in
            (
              es,
              reads buf l₁ es [] f (rests same_link refl) (sym (append-nil es)),
              sym (send_effects-quiet eng es s₁) ∙ ap effects_in same_out,
            )
      ]

  -- What `onReceive` returns, behind the handshake and what it sent.
  abbrev behind : List Out → Session E × (Link × List Out) → Outcome (Session E × (Link × List Out))
  behind before r = ok (r.0, (r.1.0, before ++ r.1.1))

  abbrev pub shaken :
      Session E × (Link × List Out) → Endpoint → Outcome (Session E × (Link × List Out))
  shaken r ep = if r.0.handshaking then ok r else (read_once eng r.0 r.1.0 ep >>= behind r.1.1)

  pub receive-shaken :
      (buf : Bytes) (s : Session E) (l : Link) (ep : Endpoint)
      → receive eng buf s l ep
        ≡ shaken
            (let s₀ = record s { engine = eng.bio_write buf s.engine } in
              if s.handshaking then do_handshake eng s₀ l else (s₀, (l, [])))
            ep
  unfolding receive
  receive-shaken buf s l ep = refl

  read_after-Hears :
      (before : List Out) (s s' : Session E) (l l' : Link) (ep : Endpoint) (out : List Out)
      → read_once eng s l ep >>= behind before ≡ ok (s', (l', out))
      → (es : List Effect) × Hears ep l l' es × (effects_in before ++ quiet es ≡ effects_in out)
  read_after-Hears before s s' l l' ep out h =
      let ((s₁, (l₁, more)), e, g) = >>=-eq-ok (read_once eng s l ep) (behind before) h in
      let (es, heard, f) = read_once-Hears s s₁ l l₁ ep more e in
      let same_link : l₁ ≡ l' = ground arith in
      let same_out : before ++ more ≡ out = ground arith in
      (
        es,
        subst (λ x. Hears ep l x es) same_link heard,
        ap (λ x. effects_in before ++ x) f
            ∙ sym (effects_in-append before more)
            ∙ ap effects_in same_out,
      )

  shaken-Hears :
      (r : Session E × (Link × List Out)) (s' : Session E) (l' : Link) (ep : Endpoint)
      (out : List Out)
      → shaken r ep ≡ ok (s', (l', out))
      → (es : List Effect) × Hears ep r.1.0 l' es × (effects_in r.1.1 ++ quiet es ≡ effects_in out)
  shaken-Hears r s' l' ep out h = elim (Bool-cases r.0.handshaking) [
    | inl still ↦
        let same_link : r.1.0 ≡ l' = ground arith in
        let same_out : r.1.1 ≡ out = ground arith in
        ([], rests same_link refl, append-nil (effects_in r.1.1) ∙ ap effects_in same_out)
    | inr done ↦ read_after-Hears r.1.1 r.0 s' r.1.0 l' ep out (ground arith)
  ]

  -- What `onReceive` of the program does to the link.
  pub receive-Hears :
      (buf : Bytes) (s s' : Session E) (l l' : Link) (ep : Endpoint) (out : List Out)
      → receive eng buf s l ep ≡ ok (s', (l', out))
      → (es : List Effect) × Hears ep l l' es × (quiet es ≡ effects_in out)
  receive-Hears buf s s' l l' ep out h =
      let s₀ : Session E = record s { engine = eng.bio_write buf s.engine } in
      let first = sym (receive-shaken buf s l ep) ∙ h in
      elim (Bool-cases s.handshaking) [
        | inr free ↦
            shaken-Hears (s₀, (l, [])) s' l' ep out
              (subst
                (λ b.
                  shaken (if b then do_handshake eng s₀ l else (s₀, (l, []))) ep
                  ≡ ok (s', (l', out)))
                free first)
        | inl busy ↦
            let (more, heard, f) = shaken-Hears (do_handshake eng s₀ l) s' l' ep out (
              subst
                (λ b.
                  shaken (if b then do_handshake eng s₀ l else (s₀, (l, []))) ep
                  ≡ ok (s', (l', out)))
                busy first) in
            let (es, all, e) = do_handshake-Hears s₀ l ep more l' heard in (es, all, e ∙ f)
      ]
