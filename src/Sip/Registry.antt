-- ===== src/Sip/Registry.antt =====
-- The SIP endpoints of `sipserver`: `_addrMap` and `_clientVec` of svoiptunnel/sipserver.h, the calls
-- of svoiptunnel/sipserver.cpp that keep them, and `sipendpoint` of svoiptunnel/sipendpoint.cpp.
-- Seconds of the local clock are a number that each call is given. `show` is
-- `boost::lexical_cast<string>` of a number.
use svoiptunnel.Base.{
  ℕ, zero, suc, ◌+◌, ◌-◌, Bool, true, false, not, ◌&&◌, ◌||◌, List, [], ◌∷◌, ◌++◌, Bytes, codes,
  length, set, get_elem?, Option, none, some, if◌then◌else◌, leb, ltb, ◌==◌, Outcome, ok, fails,
  null_pointer,
}
use svoiptunnel.Base.Dict.{Dict, bytes_eq, find, insert, erase}
pub mod Slots
pub mod Consistent
pub mod Calls
pub mod Deliver
pub mod Timeout

pub record SipEndpoint : Type 0 where
  pub ch : ℕ
  pub addr : Bytes
  pub port : ℕ
  pub last_active : ℕ

pub record Registry : Type 0 where
  pub addr_map : Dict Bytes ℕ
  -- a slot is `none` where the shared pointer is null
  pub clients : List (Option SipEndpoint)

abbrev pub empty_registry : Registry
empty_registry = record { addr_map = []; clients = [] }

-- The first null slot, or the end of the vector.
unfoldable pub first_free : List (Option SipEndpoint) → ℕ
first_free [] = 0
first_free (none ∷ slots) = 0
first_free (some e ∷ slots) = suc (first_free slots)

-- `if( ch < size ) _clientVec[ch] = ep; else _clientVec.push_back( ep );`
unfoldable pub put_slot : ℕ → SipEndpoint → List (Option SipEndpoint) → List (Option SipEndpoint)
put_slot ch e slots = if ltb ch (length slots) then set slots ch (some e) else slots ++ some e ∷ []

-- `_clientVec[ch]`, null where it is out of range.
abbrev pub slot : List (Option SipEndpoint) → ℕ → Option SipEndpoint
slot slots ch = elim (get_elem? slots ch) as (λ _. Option SipEndpoint) [ none ↦ none | some s ↦ s ]

-- `check_if_valid`: after more than a minute without activity the socket is closed, and its
-- `onClose` closes the endpoint.
abbrev pub is_expired : ℕ → SipEndpoint → Bool
is_expired now e = ltb 60 (now - e.last_active)

module _ (show : ℕ → Bytes) where
  -- `sipendpoint::getId`
  unfoldable pub get_id : Bytes → ℕ → Bytes
  get_id addr port = addr ++ codes ":" ++ show port

  abbrev pub id_of : SipEndpoint → Bytes
  id_of e = get_id e.addr e.port

  -- Both places that make an endpoint.
  unfoldable pub add_endpoint : Registry → ℕ → Bytes → ℕ → ℕ → Registry
  add_endpoint r ch addr port now = record {
    addr_map = insert (get_id addr port) ch r.addr_map;
    clients =
        put_slot ch (record { ch = ch; addr = addr; port = port; last_active = now }) r.clients;
  }

  -- `onAccept` up to the call of `onReceive`: the registry, and the channel of the sender.
  unfoldable pub on_accept : Registry → Bytes → ℕ → ℕ → Registry × ℕ
  unfolding add_endpoint first_free
  on_accept r addr port now = elim (find (get_id addr port) r.addr_map) [
    | none ↦ (add_endpoint r (first_free r.clients) addr port now, first_free r.clients)
    | some ch ↦ (r, ch)
  ]

  -- The endpoint for an outgoing request. `reachable` says whether `udpsocket::connect` succeeds.
  unfoldable pub request_client :
      (Bytes → ℕ → Bool) → Registry → Bytes → ℕ → ℕ → Registry × Option ℕ
  unfolding add_endpoint first_free
  request_client reachable r addr port now = elim (find (get_id addr port) r.addr_map) [
    | none ↦
        (let ch =
            if ltb (length r.clients) (length r.addr_map)
            then first_free r.clients
            else length r.clients in
          if reachable addr port then (add_endpoint r ch addr port now, some ch) else (r, none))
    | some ch ↦ (r, some ch)
  ]

  -- `sipendpoint::onReceive` and `send` note the time.
  unfoldable pub touch : Registry → ℕ → ℕ → Registry
  touch r ch now = elim (slot r.clients ch) [
    | none ↦ r
    | some e ↦ record r { clients = set r.clients ch (some (record e { last_active = now })) }
  ]

  -- `pClient->send( sTransMsg )`: what goes out, and on which channel.
  unfoldable pub send_to : Registry → Option ℕ → Bytes → ℕ → Outcome (Registry × List (ℕ × Bytes))
  unfolding touch
  send_to r none text now = fails null_pointer
  send_to r (some ch) text now = elim (slot r.clients ch) [
    | none ↦ fails null_pointer
    | some e ↦ ok (touch r ch now, (ch, text) ∷ [])
  ]

  -- The end of `processOutgoing`: a request goes to `addr`, a response to the channel `ch`.
  unfoldable pub deliver :
      (Bytes → ℕ → Bool)
      → Registry
      → Bool
      → ℕ
      → Bytes
      → ℕ
      → Bytes
      → ℕ
      → Outcome (Registry × List (ℕ × Bytes))
  unfolding request_client send_to
  deliver reachable r request ch addr port text now =
      if request
      then (let (r', client) = request_client reachable r addr port now in
          send_to r' client text now)
      else elim (slot r.clients ch) as (λ _. Outcome (Registry × List (ℕ × Bytes))) [
        | none ↦ ok (r, [])
        | some e ↦ send_to r (some ch) text now
      ]

  unfoldable pub close_endpoint : Registry → Bytes → Registry
  close_endpoint r id = elim (find id r.addr_map) [
    | none ↦ r
    | some ch ↦ record { addr_map = erase id r.addr_map; clients = set r.clients ch none }
  ]

  unfoldable pub check_slot : ℕ → ℕ → Registry → Registry
  unfolding close_endpoint
  check_slot now idx r = elim (slot r.clients idx) [
    | none ↦ r
    | some e ↦ if is_expired now e then close_endpoint r (id_of e) else r
  ]

  -- The loop of `timer_tick`, with the rounds left.
  unfoldable pub sweep : ℕ → ℕ → ℕ → Registry → Registry
  unfolding check_slot
  sweep now zero idx r = r
  sweep now (suc n) idx r = sweep now n (idx + 1) (check_slot now idx r)

  unfoldable pub timer_tick : Bool → ℕ → Registry → Registry
  unfolding sweep
  timer_tick aborted now r = if aborted then r else sweep now (length r.clients) 0 r
