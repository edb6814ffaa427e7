-- ===== src/Sip/Proxy/Tracking.antt =====
-- The table of calls in `processIncoming` and `processOutgoing` of svoiptunnel/sipserver.cpp.
use svoiptunnel.Base.{
  suc, ◌^◌, ◌<◌, ◌≡◌, ◌≢◌, refl, ◌∙◌, ap, true, false, ◌||◌, [], Bytes, All, length, same, same_iff,
  same_refl, Option, none, some, ok, if◌then◌else◌, arith, ◌⊎◌,
}
use svoiptunnel.Base.Dict.{bytes_eq, find, find-assign, erase, find-erase}
use svoiptunnel.Vpn.Node.{Origin}
use svoiptunnel.Sip.Media.{Server, SipCall, put_call, erase_call, destroy_call}
use svoiptunnel.Sip.Media.Live.{IsLive}
use svoiptunnel.Sip.Media.Kept.{del_data_ports-IsKept}
use svoiptunnel.Sip.Media.Closing.{destroy_call-IsClosed}
use svoiptunnel.Sip.Message.{Message}
use svoiptunnel.Sip.Headers.{Headers}
use svoiptunnel.Sip.Proxy.{is_invite, ends_call, is_failure, pick_call}

-- What a message is to do with its call, if it names one.
pub data Intent : Type 0 where
  begins keeps finishes : Intent

abbrev pub intent : Message → Headers → Intent
intent m h =
    if ends_call m.method || is_failure m h
    then finishes
    else if is_invite m.method
    then begins
    else keeps

-- The call of an identifier behind a message on a link, from the one before it.
abbrev pub call_behind : Intent → Origin → Bytes → Option SipCall → Option SipCall
call_behind finishes link id found = none
call_behind keeps link id found = found
call_behind begins link id none = some (record { link = link; call_id = id; slots = [] })
call_behind begins link id (some c) = some c

-- The call has data connections that are there, and fewer than 2^16.
abbrev pub CanEnd : Server → Option SipCall → Type 0
CanEnd s none = Unit
CanEnd s (some c) = All (IsLive s.conns) c.slots × (length c.slots < 2 ^ 16)

-- The table of calls has changed at one identifier only.
pub record IsTracked (s s' : Server) (id : Bytes) (c : Option SipCall) : Type 0 where
  pub at_id : find id s'.calls ≡ c
  pub elsewhere : (other : Bytes) → other ≢ id → find other s'.calls ≡ find other s.calls
  pub node : s'.node ≡ s.node
  pub registry : s'.registry ≡ s.registry

same_ne : (x y : Bytes) → x ≢ y → same y x ≡ false
same_ne x y h = ground (arith, same_iff y x)

erased :
    (s s' : Server) (id : Bytes) (c : SipCall) → erase_call id c s ≡ ok s' → IsTracked s s' id none
unfolding erase_call destroy_call
erased s s' id c h =
    let k =
      del_data_ports-IsKept (suc (length c.slots)) 0 (record s { calls = erase id s.calls }) c s'
        h in
    record {
      at_id = ap (find id) k.calls ∙ find-erase id id s.calls ∙ rw (same_refl id);
      elsewhere = λ other away.
          ap (find other) k.calls ∙ find-erase id other s.calls ∙ rw (same_ne other id away);
      node = k.node;
      registry = k.registry;
    }

unchanged :
    (s : Server) (id : Bytes) (c : Option SipCall) → find id s.calls ≡ c → IsTracked s s id c
unchanged s id c e = record {
  at_id = e;
  elsewhere = λ other away. refl;
  node = refl;
  registry = refl;
}

put :
    (s : Server) (id : Bytes) (c : SipCall)
    → c.call_id ≡ id
    → IsTracked s (put_call c s) id (some c)
put s id c e = record {
  at_id = find-assign c.call_id id c s.calls ∙ rw (e, same_refl id);
  elsewhere = λ other away. find-assign c.call_id other c s.calls ∙ rw (e, same_ne other id away);
  node = refl;
  registry = refl;
}

module _ (link : Origin) (m : Message) (h : Headers) (s : Server) where
  -- A message that names no call, or one that is not in the table and that it does not begin, leaves the table
  -- as it is and has no call.
  pub pick_call-untracked :
      (h.call_id ≡ []) ⊎ ((find h.call_id s.calls ≡ none) × (is_invite m.method ≡ false))
      → pick_call link m h s ≡ ok (s, none)
  unfolding pick_call
  pick_call-untracked u = ground arith

  abbrev Picked : Server → Option SipCall → Type 0
  Picked s' c = (pick_call link m h s ≡ ok (s', c)) × IsTracked s s' h.call_id c

  pick_ends :
      (known : Option SipCall)
      → h.call_id ≢ []
      → find h.call_id s.calls ≡ known
      → CanEnd s known
      → (ends_call m.method || is_failure m h) ≡ true
      → (s' : Server) × Picked s' none
  unfolding pick_call
  pick_ends none named e v over = (s, (ground arith, unchanged s h.call_id none e))
  pick_ends (some c) named e v over =
      let closed = destroy_call-IsClosed (record s { calls = erase h.call_id s.calls }) c v.0 v.1 in
      let gone : erase_call h.call_id c s ≡ ok closed.after = closed.returned in
      (closed.after, (ground (arith, gone), erased s closed.after h.call_id c gone))

  pick_begins :
      (known : Option SipCall)
      → h.call_id ≢ []
      → find h.call_id s.calls ≡ known
      → (ends_call m.method || is_failure m h) ≡ false
      → is_invite m.method ≡ true
      → (s' : Server) × Picked s' (call_behind begins link h.call_id known)
  unfolding pick_call
  pick_begins none named e over first =
      let c : SipCall = record { link = link; call_id = h.call_id; slots = [] } in
      (put_call c s, (ground arith, put s h.call_id c refl))
  pick_begins (some c) named e over first = (s, (ground arith, unchanged s h.call_id (some c) e))

  pick_keeps :
      (known : Option SipCall)
      → h.call_id ≢ []
      → find h.call_id s.calls ≡ known
      → (ends_call m.method || is_failure m h) ≡ false
      → is_invite m.method ≡ false
      → (s' : Server) × Picked s' known
  unfolding pick_call
  pick_keeps none named e over later = (s, (ground arith, unchanged s h.call_id none e))
  pick_keeps (some c) named e over later = (s, (ground arith, unchanged s h.call_id (some c) e))

  by_intent :
      (i : Intent)
      → intent m h ≡ i
      → (known : Option SipCall) → find h.call_id s.calls ≡ known
      → h.call_id ≢ []
      → CanEnd s known
      → (s' : Server) × Picked s' (call_behind i link h.call_id known)
  by_intent finishes e known at named v = pick_ends known named at v (ground arith)
  by_intent begins e known at named v = pick_begins known named at (ground arith) (ground arith)
  by_intent keeps e known at named v = pick_keeps known named at (ground arith) (ground arith)

  -- For a message that names a call, whose data connections are there and fewer than 2^16 if it is
  -- known: the block returns, and its call is the one that the table then has for the identifier. A CANCEL,
  -- a BYE or a failure of another request than INVITE takes the call out, an INVITE makes one with this link
  -- if there is none, and any other message leaves what there is. No other call, no link and no phone
  -- changes.
  pub pick_call-IsTracked :
      h.call_id ≢ []
      → CanEnd s (find h.call_id s.calls)
      → (s' : Server) × (pick_call link m h s
          ≡ ok (s', call_behind (intent m h) link h.call_id (find h.call_id s.calls)))
        × IsTracked s s' h.call_id
            (call_behind (intent m h) link h.call_id (find h.call_id s.calls))
  pick_call-IsTracked named v =
      let (s', p) = by_intent (intent m h) refl (find h.call_id s.calls) refl named v in
      (s', p.0, p.1)
