-- ===== src/Sip/Proxy/Histories.antt =====
-- Sequences of inputs of the server, and its invariant.
use svoiptunnel.Sip.Registry.Consistent.{IsConsistent, empty-IsConsistent}
use svoiptunnel.Sip.Registry.{Registry, on_accept, slot}
use svoiptunnel.Base.Dict.{find}
use svoiptunnel.Sip.Registry.Timeout.{timer_tick-kept}
use svoiptunnel.Sip.Proxy.Sound.{IsSound, Leads, with_registry, Steady-IsSound, put_call-IsSound}
use svoiptunnel.Vpn.Node.{Node, Origin, Sent}
use svoiptunnel.Sip.Proxy.Messages.{process_incoming-IsSound, process_outgoing-IsSound}
use svoiptunnel.Sip.Registry.Calls.{on_accept-finds, touch-IsConsistent}
use svoiptunnel.Sip.Proxy.{Action, on_event, on_phone}
use svoiptunnel.Sip.Media.Steady.{Steady, ensure_slot-Steady, on_link-Steady, with_conn-Ensures}
use svoiptunnel.Sip.Proxy.Inputs.{
  Input, from_endpoint, from_link, from_media, from_phone, handle, handle_all, on_endpoint,
  starting, tick,
}
use svoiptunnel.Sip.Media.{
  Server, World, call_for, ensure_slot, link_vpn_port, on_media, put_call, put_conn,
  register_data_port, slot_at,
}
use svoiptunnel.Vpn.Link.{
  on_receive_data, Effect, on_connect, on_disconnect, on_setup_data, on_signalling, schedule,
  send_data, transmit, unschedule,
}
use svoiptunnel.Base.{
  fails, ℕ, Bool, Bytes, Ensures, Ensures->>=, Ensures-elim, Ensures-ok, List, Outcome, [], arith,
  false, refl, some, true, ◌∷◌, ◌≡◌, ok,
}
use svoiptunnel.Sip.Media
use svoiptunnel.Sip.Registry

module _ (w : World) where
  on_phone-IsSound :
      (past : ℕ) (addr : Bytes) (port now : ℕ) (buf : Bytes) (s : Server)
      → IsSound w s
      → Ensures (Leads w) (on_phone w past addr port now buf s)
  unfolding on_phone
  on_phone-IsSound past addr port now buf s v =
      let a = on_accept w.boost.show s.registry addr port now in
      let known = (on_accept-finds w.boost.show s.registry v.registry addr port now).0 in
      process_incoming-IsSound w past a.1 now buf _
        (with_registry w s _ v (touch-IsConsistent w.boost.show a.0 known a.1 now))

  on_endpoint-IsSound :
      (past ch now : ℕ) (buf : Bytes) (s : Server)
      → IsSound w s
      → Ensures (Leads w) (on_endpoint w past ch now buf s)
  unfolding on_endpoint
  on_endpoint-IsSound past ch now buf s v =
      Ensures-elim (Leads w) (slot s.registry.clients ch) _ _ v (λ e q.
        process_incoming-IsSound w past ch now buf _
          (with_registry w s _ v (touch-IsConsistent w.boost.show s.registry v.registry ch now)))

  on_setup_data-IsSound :
      (s : Server) (link : Origin) (idx port : ℕ) (id : Bytes)
      → IsSound w s
      → Ensures (IsSound w) (Media.on_setup_data w s link idx port id)
  unfolding Media.on_setup_data register_data_port
  on_setup_data-IsSound s link idx port id v =
      let c = call_for link id s in
      let e = ensure_slot w s c idx in
      with_conn-Ensures (IsSound w) e.0 (slot_at e.1.slots idx) _ (λ ref d.
        let t : Server = put_conn ref (link_vpn_port port d) e.0 in
        let k = ensure_slot-Steady w s c idx in
        Steady-IsSound w (put_call e.1 t) _
          (put_call-IsSound w e.1 t (Steady-IsSound w s t v (k.0, k.1))) (refl, refl))

  on_event-IsSound :
      (link : Origin) (past now : ℕ) (e : Effect) (s : Server)
      → IsSound w s
      → Ensures (Leads w) (on_event w link past now e s)
  unfolding on_event
  on_event-IsSound link past now (on_signalling ch buf) s v =
      process_outgoing-IsSound w link past ch now buf s v
  on_event-IsSound link past now (on_receive_data port buf) s v = v
  on_event-IsSound link past now (on_setup_data idx port id) s v =
      Ensures->>= (IsSound w) (Leads w) (Media.on_setup_data w s link idx port id) _
        (on_setup_data-IsSound s link idx port id v) (λ s' k. k)
  on_event-IsSound link past now (on_connect ep) s v = v
  on_event-IsSound link past now (on_disconnect ep) s v = v
  on_event-IsSound link past now (transmit buf) s v = v
  on_event-IsSound link past now schedule s v = v
  on_event-IsSound link past now unschedule s v = v

  on_media-IsSound :
      (s : Server) (ref : ℕ) (buf : Bytes) → IsSound w s → Ensures (Leads w) (on_media s ref buf)
  unfolding on_media
  on_media-IsSound s ref buf v = with_conn-Ensures (Leads w) s (some ref) _ (λ _ d.
      steady (Media.on_link d.link (λ l. send_data l d.vpn_port buf) s)
        (on_link-Steady d.link (λ l. send_data l d.vpn_port buf) s))
    where
      steady : (o : Outcome (Server × Sent)) → Ensures (λ r. Steady s r.0) o → Ensures (Leads w) o
      steady (ok r) k = Steady-IsSound w s r.0 v k
      steady (fails why) k = tt

  tick-IsConsistent :
      (aborted : Bool) (now : ℕ) (r : Registry)
      → IsConsistent w.boost.show r
      → IsConsistent w.boost.show (Registry.timer_tick w.boost.show aborted now r)
  unfolding Registry.timer_tick
  tick-IsConsistent true now r v = v
  tick-IsConsistent false now r v = (timer_tick-kept w.boost.show now r v).0

  handle-IsSound :
      (now : ℕ) (i : Input) (s : Server) → IsSound w s → Ensures (Leads w) (handle w now i s)
  unfolding handle
  handle-IsSound now (from_phone past addr port buf) s v =
      on_phone-IsSound past addr port now buf s v
  handle-IsSound now (from_endpoint past ch buf) s v = on_endpoint-IsSound past ch now buf s v
  handle-IsSound now (from_link link past effect) s v = on_event-IsSound link past now effect s v
  handle-IsSound now (from_media ref buf) s v =
      Ensures->>= (Leads w) (Leads w) (on_media s ref buf) _ (on_media-IsSound s ref buf v)
        (λ r k. k)
  handle-IsSound now (tick aborted) s v =
      with_registry w s _ v (tick-IsConsistent aborted now s.registry v.registry)

  handle_all-Ensures :
      (inputs : List (ℕ × Input)) (s : Server)
      → IsSound w s
      → Ensures (Leads w) (handle_all w inputs s)
  unfolding handle_all
  handle_all-Ensures [] s v = v
  handle_all-Ensures ((now, i) ∷ more) s v =
      Ensures->>= (Leads w) (Leads w) (handle w now i s) _ (handle-IsSound now i s v) (λ r k.
        Ensures->>= (Leads w) (Leads w) (handle_all w more r.0) _ (handle_all-Ensures more r.0 k)
          (λ t k'. k'))

  -- From the start, through every history of datagrams of phones and of media, of what the links
  -- report, and of ticks, in any order and at any times, that ends without an error: the registry is
  -- consistent, and every call stands under its own identifier.
  pub handle_all-IsSound :
      (node : Node) (inputs : List (ℕ × Input)) (s : Server) (done : List Action)
      → handle_all w inputs (starting node) ≡ ok (s, done)
      → IsSound w s
  unfolding find
  handle_all-IsSound node inputs s done h =
      Ensures-ok (Leads w) (handle_all w inputs (starting node)) (s, done)
        (handle_all-Ensures inputs (starting node) (record {
          registry = empty-IsConsistent w.boost.show;
          named = λ id c e. absurd (ground arith);
        }))
        h
