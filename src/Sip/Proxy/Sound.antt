-- ===== src/Sip/Proxy/Sound.antt =====
-- An invariant of the server of svoiptunnel/sipserver.cpp: the endpoints are consistent, and every call
-- stands under its own identifier.
use svoiptunnel.Vpn.Endpoints.{endpoint_eq}
use svoiptunnel.Sip.Registry.Consistent.{IsConsistent}
use svoiptunnel.Sip.Message.{Message}
use svoiptunnel.Sip.Headers.{Headers}
use svoiptunnel.Sip.Media.Steady.{Steady}
use svoiptunnel.Sip.Registry.{Registry, send_to, slot}
use svoiptunnel.Sip.Media.Kept.{del_data_ports-IsKept}
use svoiptunnel.Sip.Media.Arrivals.{HasIds}
use svoiptunnel.Vpn.Node.{Origin}
use svoiptunnel.Sip.Sdp.{process_incoming_sdp, process_outgoing_sdp}
use svoiptunnel.Sip.Proxy.Descriptions.{process_incoming_sdp-Steady, process_outgoing_sdp-Steady}
use mathlib.Core.Path.{subst}
use svoiptunnel.Sip.Registry.Calls.{touch-IsConsistent}
use svoiptunnel.Base.Dict.{bytes_eq, erase, find, find-assign, find-erase}
use svoiptunnel.Sip.Proxy.{
  ends_call, incoming_content, is_failure, is_invite, is_sdp, last_outgoing, outgoing_content,
  phone_text, pick_call,
}
use svoiptunnel.Base.{
  fails, ℕ, Bytes, Ensures, Ensures->>=, Ensures-elim, Ensures-if, Option, Outcome, [], ap, arith,
  is_empty, length, none, refl, same_iff, some, suc, sym, ◌||◌, ◌∙◌, ◌≡◌, ok,
}
use svoiptunnel.Sip.Media.{World, Server, SipCall, destroy_call, erase_call, put_call}

pub record IsSound (w : World) (s : Server) : Type 0 where
  pub registry : IsConsistent w.boost.show s.registry
  pub named : HasIds s

put-HasIds : (c : SipCall) (s : Server) → HasIds s → HasIds (put_call c s)
put-HasIds c s h id d e =
    let found = sym (find-assign c.call_id id c s.calls) ∙ e in
    ground (arith, same_iff c.call_id id, h id d)

erase-HasIds :
    (key : Bytes) (s : Server) → HasIds s → HasIds (record s { calls = erase key s.calls })
erase-HasIds key s h id d e =
    let found = sym (find-erase key id s.calls) ∙ e in ground (arith, same_iff key id, h id d)

module _ (w : World) where
  abbrev pub Sound : Server → Type 0
  Sound s = IsSound w s

  -- For a call that returns a server and something else.
  abbrev pub Leads {ℓ} : {A : Type ℓ} → Server × A → Type 0
  Leads r = IsSound w r.0

  pub Steady-IsSound : (s t : Server) → IsSound w s → Steady s t → IsSound w t
  Steady-IsSound s t v k = record {
    registry = subst (IsConsistent w.boost.show) (sym k.0) v.registry;
    named = λ id c e. v.named id c (ap (find id) (sym k.1) ∙ e);
  }

  pub put_call-IsSound : (c : SipCall) (s : Server) → IsSound w s → IsSound w (put_call c s)
  put_call-IsSound c s v = record { registry = v.registry; named = put-HasIds c s v.named }

  if_ok : (P : Server → Type 0) (o : Outcome Server) → ((t : Server) → o ≡ ok t → P t) → Ensures P o
  if_ok P (ok t) h = h t refl
  if_ok P (fails why) h = tt

  erase_call-IsSound :
      (id : Bytes) (c : SipCall) (s : Server) → IsSound w s → Ensures Sound (erase_call id c s)
  unfolding erase_call destroy_call
  erase_call-IsSound id c s v =
      let erased : Server = record s { calls = erase id s.calls } in
      let sound : IsSound w erased = record {
        registry = v.registry;
        named = erase-HasIds id s v.named;
      } in
      if_ok Sound (destroy_call erased c) (λ t e.
        let k = del_data_ports-IsKept (suc (length c.slots)) 0 erased c t e in
        Steady-IsSound erased t sound (k.registry, k.calls))

  pub pick_call-IsSound :
      (link : Origin) (m : Message) (h : Headers) (s : Server)
      → IsSound w s
      → Ensures Leads (pick_call link m h s)
  unfolding pick_call
  pick_call-IsSound link m h s v =
      let fresh : SipCall = record { link = link; call_id = h.call_id; slots = [] } in
      Ensures-if Leads (is_empty h.call_id) _ _ v (
        Ensures-if Leads (ends_call m.method || is_failure m h) _ _
          (Ensures-elim Leads (find h.call_id s.calls) _ _ v (λ c e.
            Ensures->>= Sound Leads (erase_call h.call_id c s) _
              (erase_call-IsSound h.call_id c s v) (λ t u. u)))
          (Ensures-elim Leads (find h.call_id s.calls) _ _
            (Ensures-if Leads (is_invite m.method) _ _ (put_call-IsSound fresh s v) v) (λ c e. v)))

  pub incoming_content-IsSound :
      (c : Option SipCall) (h : Headers) (content : Bytes) (s : Server)
      → IsSound w s
      → Ensures Leads (incoming_content w c h content s)
  unfolding incoming_content
  incoming_content-IsSound none h content s v = v
  incoming_content-IsSound (some c) h content s v =
      Ensures-if Leads (is_sdp h) _ _
        (Ensures->>= (λ x. Steady s x.server) Leads (process_incoming_sdp w s c content) _
          (process_incoming_sdp-Steady w s c content)
          (λ x k. put_call-IsSound x.call x.server (Steady-IsSound s x.server v k)))
        v

  pub outgoing_content-IsSound :
      (c : Option SipCall) (h : Headers) (content : Bytes) (s : Server)
      → IsSound w s
      → Ensures (λ r. IsSound w r.0) (outgoing_content w c h content s)
  unfolding outgoing_content
  outgoing_content-IsSound none h content s v = v
  outgoing_content-IsSound (some c) h content s v =
      Ensures-if (λ r. IsSound w r.0) (is_sdp h) _ _
        (Ensures->>= (λ r. Steady s (last_outgoing r).server) (λ r. IsSound w r.0)
          (process_outgoing_sdp w s c content) _ (process_outgoing_sdp-Steady w s c content)
          (λ r k.
            put_call-IsSound (last_outgoing r).call (last_outgoing r).server
              (Steady-IsSound s (last_outgoing r).server v k)))
        v

  pub with_registry :
      (s : Server) (r : Registry)
      → IsSound w s
      → IsConsistent w.boost.show r
      → IsSound w (record s { registry = r })
  with_registry s r v k = record { registry = k; named = v.named }

  pub send_to-IsConsistent :
      (r : Registry) (ch : Option ℕ) (text : Bytes) (now : ℕ)
      → IsConsistent w.boost.show r
      → Ensures (λ x. IsConsistent w.boost.show x.0) (send_to w.boost.show r ch text now)
  unfolding send_to
  send_to-IsConsistent r none text now v = tt
  send_to-IsConsistent r (some ch) text now v =
      Ensures-elim (λ x. IsConsistent w.boost.show x.0) (slot r.clients ch) _ _ tt
        (λ e q. touch-IsConsistent w.boost.show r v ch now)

  pub phone_text-IsSound :
      (ch : ℕ) (text : Bytes) (now : ℕ) (s : Server)
      → IsSound w s
      → Ensures Leads (phone_text w ch text now s)
  unfolding phone_text
  phone_text-IsSound ch text now s v =
      Ensures->>= (λ x. IsConsistent w.boost.show x.0) Leads
        (send_to w.boost.show s.registry (some ch) text now) _
        (send_to-IsConsistent s.registry (some ch) text now v.registry)
        (λ r k. with_registry s r.0 v k)
