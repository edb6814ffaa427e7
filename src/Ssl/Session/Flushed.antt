-- ===== src/Ssl/Session/Flushed.antt =====
-- The loop of `doSend` in svoiptunnel/vpntlslink.cpp ends, with nothing left to send.
use svoiptunnel.Ssl.Session.{Engine, Session, do_send, send_rounds}
use svoiptunnel.Base.{
  [], true, ==_iff, ℕ, zero, suc, Bool-cases, arith, inl, inr, not, refl, sym, ◌&&◌, ◌<◌, ◌==◌, ◌≡◌,
  ◌≢◌, ◌≤◌,
}

-- Reading what is pending leaves less: `BIO_read` of a memory BIO takes what it returns out of it.
abbrev pub Drains : {E : Type 0} → Engine E → Type 0
Drains {E} eng =
    (e : E)
    → eng.bio_pending e ≢ 0
    → eng.bio_pending (eng.bio_read (eng.bio_pending e) e).0 < eng.bio_pending e

module _ {E : Type 0} (eng : Engine E) (drains : Drains eng) where
  -- The session behind one round.
  abbrev next : Session E → Session E
  next s =
      let e = (eng.bio_read (eng.bio_pending s.engine) s.engine).0 in
      record s { engine = e; handshaking = s.handshaking && not (eng.is_init_finished e) }

  empties :
      (rounds : ℕ) (s : Session E)
      → eng.bio_pending s.engine ≤ rounds
      → eng.bio_pending (send_rounds eng rounds s).0.engine ≡ 0
  unfolding send_rounds
  empties zero s h = omega arith
  empties (suc rounds) s h = elim (Bool-cases (eng.bio_pending s.engine == 0)) [
    | inl none_left ↦ rw none_left ((==_iff (eng.bio_pending s.engine) 0).0 none_left)
    | inr some_left ↦ rw some_left (
        empties rounds (next s)
          (let less = drains s.engine (ground (arith, some_left)) in omega (arith, less)))
  ]

  nothing_left :
      (rounds : ℕ) (s : Session E)
      → (eng.bio_pending s.engine == 0) ≡ true
      → send_rounds eng rounds s ≡ (s, [])
  unfolding send_rounds
  nothing_left zero s h = refl
  nothing_left (suc rounds) s h = rw h refl

  -- With as many rounds as there are bytes pending, any further ones change nothing.
  same_rounds :
      (rounds more : ℕ) (s : Session E)
      → eng.bio_pending s.engine ≤ rounds
      → eng.bio_pending s.engine ≤ more
      → send_rounds eng rounds s ≡ send_rounds eng more s
  unfolding send_rounds
  same_rounds zero more s h k = sym (nothing_left more s ((==_iff _ 0).1 (omega arith)))
  same_rounds (suc rounds) zero s h k = nothing_left (suc rounds) s ((==_iff _ 0).1 (omega arith))
  same_rounds (suc rounds) (suc more) s h k = elim (Bool-cases (eng.bio_pending s.engine == 0)) [
    | inl none_left ↦ rw none_left refl
    | inr some_left ↦
        let less = drains s.engine (ground (arith, some_left)) in
        let e = same_rounds rounds more (next s) (omega (arith, less)) (omega (arith, less)) in
        rw (some_left, e) refl
  ]

  -- Where reading from the memory BIO takes bytes out of it, the loop of `doSend` ends with nothing left
  -- to send: no more rounds are needed than there are bytes at first, and with any larger number of
  -- rounds it does and sends the same.
  pub do_send-empties :
      (s : Session E) (rounds : ℕ)
      → eng.bio_pending s.engine ≤ rounds
      → (eng.bio_pending (do_send eng s).0.engine ≡ 0) × (send_rounds eng rounds s ≡ do_send eng s)
  unfolding do_send
  do_send-empties s rounds h =
      let count = eng.bio_pending s.engine in
      (empties count s (omega arith), same_rounds rounds count s h (omega arith))
