-- ===== src/Sip/Proxy/Descriptions.antt =====
-- The rewriting of session descriptions in svoiptunnel/sipcall.cpp, and the endpoints and the table of
-- calls.
use svoiptunnel.Sip.Proxy.{last_outgoing}
use svoiptunnel.Sip.Lines.{Leaves, Round, next, stop, walk, walk-Ensures}
use svoiptunnel.Sip.Media.Steady.{Steady, Steady-trans, add_data_port-Steady}
use svoiptunnel.Sip.Media.{Server, SipCall, World, add_data_port}
use svoiptunnel.Base.{
  ok, fails, ℕ, Bytes, Ensures, Ensures->>=, Ensures-elim, Ensures-if, Option-cases, Outcome, [],
  any, codes, has_prefix, inl, inr, is_empty, not, refl, true, ◌&&◌,
}
use svoiptunnel.Sip.Sdp.{
  Incoming, Outgoing, add_medium, default_c_line, flush_medium, incoming_sdp_line, last_medium,
  never, next_m_line, outgoing_m_line, outgoing_sdp_line, process_c_line, process_incoming_sdp,
  process_m_line, process_outgoing_sdp, start_incoming, start_outgoing,
}

module _ (w : World) (s : Server) where
  abbrev InSteady : Incoming → Type 0
  InSteady x = Steady s x.server

  add_medium-Steady :
      (addr : Bytes) (port : ℕ) (x : Incoming)
      → InSteady x
      → Ensures InSteady (add_medium w addr port x)
  unfolding add_medium
  add_medium-Steady addr port x h =
      Ensures->>= (λ r. Steady x.server r.0) InSteady
        (add_data_port w x.server x.call addr port x.media_idx) _
        (add_data_port-Steady w x.server x.call addr port x.media_idx)
        (λ r u. Steady-trans s x.server r.0 h u)

  flush_medium-Steady : (x : Incoming) → InSteady x → Ensures InSteady (flush_medium w x)
  unfolding flush_medium
  flush_medium-Steady x h =
      Ensures->>= (λ _. Unit) InSteady (process_m_line w.boost x.m_line) _
        (any (process_m_line w.boost x.m_line))
        (λ m u. Ensures-elim InSteady m _ _ h (λ port e.
          Ensures-if InSteady (is_empty x.c_line) _ _ (add_medium-Steady x.default_addr port x h) (
            Ensures-elim InSteady (process_c_line w.boost x.c_line) _ _ h
              (λ addr e'. add_medium-Steady addr port x h))))

  default_c_line-Steady :
      (x : Incoming) (line : Bytes) → InSteady x → InSteady (default_c_line w x line)
  unfolding default_c_line
  default_c_line-Steady x line h = elim (Option-cases (process_c_line w.boost line)) [
    | inl miss ↦ rw (miss, default_c_line) h
    | inr (addr, hit) ↦ rw (hit, default_c_line) h
  ]

  next_m_line-Steady :
      (x : Incoming) (line : Bytes) → InSteady x → Ensures InSteady (next_m_line w x line)
  unfolding next_m_line
  next_m_line-Steady x line h =
      Ensures-if InSteady (is_empty x.m_line) _ _ h
        (Ensures->>= InSteady InSteady (flush_medium w x) _ (flush_medium-Steady x h) (λ y k. k))

  abbrev InRound : Round Incoming Incoming → Type 0
  InRound = Leaves InSteady InSteady

  incoming_sdp_line-Steady :
      (x : Incoming) (line : Bytes) → InSteady x → Ensures InRound (incoming_sdp_line w x line)
  unfolding incoming_sdp_line
  incoming_sdp_line-Steady x line h =
      let y : Incoming = record x { have_version = true } in
      Ensures-if InRound (not x.have_version && not (has_prefix (codes "v=0") line)) _ _ h (
        Ensures-if InRound (has_prefix (codes "c=") line) _ _
          (Ensures-if InRound x.check_default _ _ (default_c_line-Steady y line h) h)
          (Ensures-if InRound (has_prefix (codes "m=") line) _ _
            (Ensures->>= InSteady InRound (next_m_line w y line) _ (next_m_line-Steady y line h)
              (λ z k. k))
            h))

  pub process_incoming_sdp-Steady :
      (c : SipCall) (body : Bytes) → Ensures InSteady (process_incoming_sdp w s c body)
  unfolding process_incoming_sdp
  process_incoming_sdp-Steady c body =
      Ensures->>= (Leaves (λ x. InSteady x.0) InSteady) InSteady
        (walk never (incoming_sdp_line w) (start_incoming w s c) [] body) _
        (walk-Ensures InSteady InSteady never (incoming_sdp_line w) incoming_sdp_line-Steady
          (start_incoming w s c) [] body (refl, refl))
        (λ r k.
          Ensures-if InSteady (is_empty (last_medium w r).m_line) _ _ (last r k)
            (flush_medium-Steady (last_medium w r) (last r k)))
    where
      last :
          (r : Round (Incoming × Bytes) Incoming)
          → Leaves (λ x. InSteady x.0) InSteady r
          → InSteady (last_medium w r)
      last (next x) k = k
      last (stop x) k = k

  abbrev OutSteady : Outgoing → Type 0
  OutSteady x = Steady s x.server

  outgoing_sdp_line-Steady :
      (x : Outgoing) (line : Bytes)
      → OutSteady x
      → Ensures (Leaves OutSteady (λ _. Unit)) (outgoing_sdp_line w x line)
  unfolding outgoing_sdp_line outgoing_m_line
  outgoing_sdp_line-Steady x line h =
      Ensures-if (Leaves OutSteady (λ _. Unit)) (has_prefix (codes "c=") line) _ _ h (
        Ensures-if (Leaves OutSteady (λ _. Unit)) (has_prefix (codes "m=") line) _ _
          (Ensures->>= OutSteady (Leaves OutSteady (λ _. Unit)) (outgoing_m_line w x line) _
            (Ensures->>= (λ r. Steady x.server r.0) OutSteady
              (add_data_port w x.server x.call [] 0 x.media_idx) _
              (add_data_port-Steady w x.server x.call [] 0 x.media_idx)
              (λ r u. Steady-trans s x.server r.0 h u))
            (λ z k. k))
          h)

  pub process_outgoing_sdp-Steady :
      (c : SipCall) (body : Bytes)
      → Ensures (λ r. OutSteady (last_outgoing r)) (process_outgoing_sdp w s c body)
  unfolding process_outgoing_sdp
  process_outgoing_sdp-Steady c body =
      ended (walk never (outgoing_sdp_line w) (start_outgoing w s c) [] body) (
        walk-Ensures OutSteady (λ _. Unit) never (outgoing_sdp_line w) outgoing_sdp_line-Steady
          (start_outgoing w s c) [] body (refl, refl))
    where
      ended :
          (o : Outcome (Round (Outgoing × Bytes) ⊥))
          → Ensures (Leaves (λ x. OutSteady x.0) (λ _. Unit)) o
          → Ensures (λ r. OutSteady (last_outgoing r)) o
      ended (ok (next x)) k = k
      ended (ok (stop never_there)) k = absurd never_there
      ended (fails why) k = tt
