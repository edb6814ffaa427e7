-- ===== src/Sip/Proxy/Messages.antt =====
-- `processIncoming` and `processOutgoing` of svoiptunnel/sipserver.cpp, and an invariant of the server.
use svoiptunnel.Sip.Media.{Server, World}
use svoiptunnel.Sip.Message.{Message, parse}
use svoiptunnel.Sip.Lines.{Round, next, stop}
use svoiptunnel.Sip.Registry.Calls.{request_client-IsConsistent}
use svoiptunnel.Sip.Registry.{Registry, deliver, request_client, slot}
use svoiptunnel.Sip.Registry.Consistent.{IsConsistent}
use svoiptunnel.Vpn.Node.{Origin, self, send_signalling}
use svoiptunnel.Sip.Headers.{Headers, scan_incoming, scan_outgoing}
use svoiptunnel.Sip.Proxy.{
  Action, after_incoming, after_outgoing, branch_parts, id_at, incoming_content, incoming_text,
  is_trying, outgoing_content, pass_incoming, pass_outgoing, phone_text, pick_call,
  process_incoming, process_outgoing, send_request, send_response, sip_port_of, trying, tunnelled,
  with_content,
}
use svoiptunnel.Sip.Proxy.Sound.{
  IsSound, Leads, incoming_content-IsSound, outgoing_content-IsSound, phone_text-IsSound,
  pick_call-IsSound, send_to-IsConsistent, with_registry,
}
use svoiptunnel.Base.{
  ℕ, Bool, Bytes, Ensures, Ensures->>=, Ensures-elim, Ensures-if, List, Outcome, [], any, false,
  length, some, true, ◌++◌, ◌==◌, ◌>>=◌, ok,
}

module _ (w : World) where
  answered-IsSound :
      (f : Server → Outcome (Server × List Action)) (sent : List Action) (s : Server)
      → Ensures (Leads w) (f s)
      → Ensures (Leads w) (f s >>= λ p. ok (p.0, sent ++ p.1))
  answered-IsSound f sent s h = Ensures->>= (Leads w) (Leads w) (f s) _ h (λ p k. k)

  send_request-IsSound :
      (ch : ℕ) (body : Bytes) (now : ℕ) (text : Bytes) (s : Server)
      → IsSound w s
      → Ensures (Leads w) (send_request w ch body now text s)
  unfolding send_request
  send_request-IsSound ch body now text s v =
      Ensures->>= (λ _. Unit) (Leads w) (send_signalling s.node ch text []) _
        (any (send_signalling s.node ch text []))
        (λ r u.
          Ensures-if (Leads w) r.1 _ _
            (answered-IsSound (λ t. phone_text w ch (trying body) now t) (tunnelled r.0) s
              (phone_text-IsSound w ch (trying body) now s v))
            v)

  send_response-IsSound :
      (branch text : Bytes) (s : Server)
      → IsSound w s
      → Ensures (Leads w) (send_response w branch text s)
  unfolding send_response
  send_response-IsSound branch text s v =
      Ensures-elim (Leads w) (branch_parts (w.boost.split b'-' branch)) _ _ v (λ p e.
        Ensures-elim (Leads w) (w.boost.to_int p.1) _ _ tt (λ n e'.
          Ensures->>= (λ _. Unit) (Leads w) (send_signalling s.node n text p.0) _
            (any (send_signalling s.node n text p.0)) (λ r u. v)))

  pass_incoming-IsSound :
      (ch now : ℕ) (m : Message) (h : Headers) (content : Bytes) (s : Server)
      → IsSound w s
      → Ensures (Leads w) (pass_incoming w ch now m h content s)
  unfolding pass_incoming
  pass_incoming-IsSound ch now m h content s v =
      Ensures->>= (Leads w) (Leads w) (pick_call self m h s) _ (pick_call-IsSound w self m h s v)
        (λ p v₁.
          Ensures->>= (Leads w) (Leads w) (incoming_content w p.1 h content p.0) _
            (incoming_content-IsSound w p.1 h content p.0 v₁)
            (λ x v₂.
              Ensures->>= (Leads w) (Leads w) _ _
                (Ensures-if (Leads w) m.is_request _ _
                  (send_request-IsSound ch m.body now (incoming_text w h content) x.0 v₂)
                  (send_response-IsSound h.branch (incoming_text w h content) x.0 v₂))
                (λ r k. k)))

  after_incoming-IsSound :
      (ch now : ℕ) (m : Message) (s : Server) (r : Round (Headers × Bytes) Bytes)
      → IsSound w s
      → Ensures (Leads w) (after_incoming w ch now m s r)
  unfolding after_incoming
  after_incoming-IsSound ch now m s (stop reply) v = phone_text-IsSound w ch reply now s v
  after_incoming-IsSound ch now m s (next (h, content)) v =
      Ensures-if (Leads w) (h.content_length == length content) _ _
        (pass_incoming-IsSound ch now m h content s v) v

  pub process_incoming-IsSound :
      (past ch now : ℕ) (buf : Bytes) (s : Server)
      → IsSound w s
      → Ensures (Leads w) (process_incoming w past ch now buf s)
  unfolding process_incoming
  process_incoming-IsSound past ch now buf s v =
      Ensures-elim (Leads w) (parse past buf) _ _ v (λ m e.
        Ensures-if (Leads w) (is_trying m) _ _ v (
          Ensures->>= (λ _. Unit) (Leads w) (scan_incoming w m) _ (any (scan_incoming w m))
            (λ r u. after_incoming-IsSound ch now m s r v)))

  deliver-IsConsistent :
      (request : Bool) (ch : ℕ) (addr : Bytes) (port : ℕ) (text : Bytes) (now : ℕ) (r : Registry)
      → IsConsistent w.boost.show r
      → Ensures
          (λ x. IsConsistent w.boost.show x.0)
          (deliver w.boost.show w.reachable r request ch addr port text now)
  unfolding deliver
  deliver-IsConsistent true ch addr port text now r v =
      let c = request_client w.boost.show w.reachable r addr port now in
      send_to-IsConsistent w c.0 c.1 text now
        (request_client-IsConsistent w.boost.show r v w.reachable addr port now)
  deliver-IsConsistent false ch addr port text now r v =
      Ensures-elim (λ x. IsConsistent w.boost.show x.0) (slot r.clients ch) _ _ v
        (λ e q. send_to-IsConsistent w r (some ch) text now v)

  pass_outgoing-IsSound :
      (link : Origin) (ch now : ℕ) (m : Message) (h : Headers) (content : Bytes) (s : Server)
      → IsSound w s
      → Ensures (Leads w) (pass_outgoing w link ch now m h content s)
  unfolding pass_outgoing
  pass_outgoing-IsSound link ch now m h content s v =
      Ensures->>= (Leads w) (Leads w) (pick_call link m h s) _ (pick_call-IsSound w link m h s v)
        (λ p v₁.
          Ensures->>= (λ r. IsSound w r.0) (Leads w) (outgoing_content w p.1 h content p.0) _
            (outgoing_content-IsSound w p.1 h content p.0 v₁)
            (λ x v₂.
              Ensures->>= (λ _. Unit) (Leads w) (sip_port_of w m) _ (any (sip_port_of w m))
                (λ port u.
                  let text = with_content w h (length x.2) x.2 in
                  Ensures->>= (λ r. IsConsistent w.boost.show r.0) (Leads w)
                    (deliver w.boost.show w.reachable x.0.registry m.is_request ch h.to_addr port
                      text now)
                    _
                    (deliver-IsConsistent m.is_request ch h.to_addr port text now x.0.registry
                      v₂.registry)
                    (λ r k. with_registry w x.0 r.0 v₂ k))))

  after_outgoing-IsSound :
      (link : Origin) (ch now : ℕ) (m : Message) (s : Server) (r : Round (Headers × Bytes) ⊥)
      → IsSound w s
      → Ensures (Leads w) (after_outgoing w link ch now m s r)
  unfolding after_outgoing
  after_outgoing-IsSound link ch now m s (stop never) v = absurd never
  after_outgoing-IsSound link ch now m s (next (h, content)) v =
      Ensures-if (Leads w) (h.content_length == length content) _ _
        (pass_outgoing-IsSound link ch now m h content s v) v

  pub process_outgoing-IsSound :
      (link : Origin) (past ch now : ℕ) (buf : Bytes) (s : Server)
      → IsSound w s
      → Ensures (Leads w) (process_outgoing w link past ch now buf s)
  unfolding process_outgoing
  process_outgoing-IsSound link past ch now buf s v =
      Ensures-elim (Leads w) (parse past buf) _ _ v (λ m e.
        Ensures->>= (λ _. Unit) (Leads w) (id_at link s) _ (any (id_at link s))
          (λ vpn_id u.
            Ensures->>= (λ _. Unit) (Leads w) (scan_outgoing w vpn_id ch m) _
              (any (scan_outgoing w vpn_id ch m))
              (λ r u'. after_outgoing-IsSound link ch now m s r v)))
