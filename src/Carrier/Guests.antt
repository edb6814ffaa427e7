-- ===== src/Carrier/Guests.antt =====
-- The links that a link has accepted, as svoiptunnel/vpnudplink.cpp and vpntcplink.cpp make and call them.
pub mod Moved
pub mod Outlived
use svoiptunnel.Base.{
  ◌+◌, ◌-◌, ◌&&◌, if◌then◌else◌, ltb, set, ℕ, suc, Bool, true, false, List, [], ◌∷◌, ◌++◌, Bytes,
  codes, Option, none, some, Outcome, ok, fails, ◌>>=◌, system_error, dangling_pointer,
}
use svoiptunnel.Base.Dict.{Dict, find, assign}
use svoiptunnel.Vpn.Endpoints.{endpoint_eq}
use svoiptunnel.Vpn.Link.{
  Endpoint, Effect, Link, accepted, schedule, new_link, generate_id, on_link_ready,
}
use svoiptunnel.Vpn.Node.{Node, Call, Sent, perform, accept, expire, link_down, link_ready, receive}
use svoiptunnel.Vpn.Tunnel.{alone, from_guest}

-- What the links use to keep and name others: the order of endpoints, the hash of a text in decimal, and
-- `lexical_cast<string>` of a port.
pub record Naming : Type 0 where
  pub less : Endpoint → Endpoint → Bool
  pub hash_text : Bytes → Bytes
  pub show : ℕ → Bytes

-- How many waits the effects start.
abbrev pub waits_of : Sent → ℕ
waits_of [] = 0
waits_of ((o, schedule) ∷ more) = suc (waits_of more)
waits_of ((o, e) ∷ more) = waits_of more

abbrev pub is_some : {A : Type 0} → Option A → Bool
is_some none = false
is_some (some a) = true

-- A method of an accepted link that the map keeps.
unfoldable pub call_guest :
    (Endpoint → Endpoint → Bool) → Node → Endpoint → Call → Outcome (Node × Sent)
unfolding perform find assign
call_guest less n ep c = elim (find ep n.clients) as (λ _. Outcome (Node × Sent)) [
  | none ↦ fails dangling_pointer
  | some l ↦ perform less (alone l) c >>= λ r.
      ok (record n { clients = assign ep r.0.link n.clients }, from_guest ep r.1)
]

-- The constructor of an accepted link: `remote_endpoint` throws if the socket is not connected.
unfoldable pub accepted_link : Naming → Option Endpoint → Outcome (Endpoint × (Link × List Effect))
unfolding generate_id on_link_ready
accepted_link p peer = elim peer as (λ _. Outcome (Endpoint × (Link × List Effect))) [
  | none ↦ fails system_error
  | some ep ↦
      let s = ep.address ++ codes ":" ++ p.show ep.port in
      ok (ep, on_link_ready (generate_id p.hash_text s (new_link accepted)))
]

-- The public methods that the rest of the program calls.
abbrev pub IsPublic : Call → Type 0
IsPublic link_ready = ⊥
IsPublic link_down = ⊥
IsPublic (receive ep buf) = ⊥
IsPublic (expire aborted) = ⊥
IsPublic (accept ep l) = ⊥
IsPublic _ = Unit

-- A socket that has been accepted, and the link that its `_pEvents` points to.
pub record Accepted (S : Type 0) : Type 0 where
  -- the key of the link
  pub peer : Endpoint
  pub socket : S
  -- whether the map keeps the link; if not, it has been deleted
  pub is_kept : Bool
  -- the waits of the timer that are outstanding
  pub waits : ℕ

pub record SocketLink (S : Type 0) : Type 0 where
  pub node : Node
  pub socket : S
  pub waits : ℕ
  pub accepted_sockets : List (Accepted S)

-- A link whose entry of the map is erased is deleted.
unfoldable pub release : {S : Type 0} → Dict Endpoint Link → List (Accepted S) → List (Accepted S)
unfolding find
release m [] = []
release m (a ∷ more) = record a { is_kept = a.is_kept && is_some (find a.peer m) } ∷ release m more

-- A method of the link itself.
unfoldable pub call_main :
    {S : Type 0}
    → (Endpoint → Endpoint → Bool)
    → SocketLink S
    → Call
    → Outcome (SocketLink S × Sent)
unfolding perform release
call_main less t c = do
  (n, sent) ← perform less t.node c
  ok (
    record t {
      node = n;
      waits = t.waits + waits_of sent;
      accepted_sockets = release n.clients t.accepted_sockets;
    },
    sent,
  )

-- The new socket, with the link that its events go to.
unfoldable pub joined :
    {S : Type 0}
    → SocketLink S
    → S
    → Endpoint
    → Bool
    → Outcome (Node × Sent)
    → Outcome (SocketLink S × Sent)
joined t s ep is_kept done = do
  (n, sent) ← done
  ok (
    record t {
      node = n;
      accepted_sockets =
          t.accepted_sockets ++ record { peer = ep; socket = s; is_kept = is_kept; waits = 1 } ∷ [];
    },
    sent,
  )

-- A method of the link of the accepted socket at a position.
unfoldable pub call_at :
    {S : Type 0}
    → (Endpoint → Endpoint → Bool)
    → SocketLink S
    → ℕ
    → Accepted S
    → Call
    → Outcome (SocketLink S × Sent)
unfolding call_guest
call_at less t i a c = do
  (n, sent) ← call_guest less t.node a.peer c
  ok (
    record t {
      node = n;
      accepted_sockets = set t.accepted_sockets i (record a { waits = a.waits + waits_of sent });
    },
    sent,
  )

-- The wait that completes is no longer outstanding.
unfoldable pub timer_step :
    {S : Type 0}
    → (Endpoint → Endpoint → Bool)
    → SocketLink S
    → Bool
    → Outcome (SocketLink S × Sent)
unfolding call_main
timer_step less t aborted =
    if ltb 0 t.waits
    then call_main less (record t { waits = t.waits - 1 }) (expire aborted)
    else ok (t, [])

-- The timer of a deleted link is gone with it.
unfoldable pub guest_timer_step :
    {S : Type 0}
    → (Endpoint → Endpoint → Bool)
    → SocketLink S
    → ℕ
    → Bool
    → Accepted S
    → Outcome (SocketLink S × Sent)
unfolding call_at
guest_timer_step less t i aborted a =
    if a.is_kept && ltb 0 a.waits
    then call_at less t i (record a { waits = a.waits - 1 }) (expire aborted)
    else ok (t, [])

-- Steps of a link one after the other, with all that they send.
module _ {S E : Type 0} (step : SocketLink S → E → Outcome (SocketLink S × Sent)) where
  unfoldable pub chain : SocketLink S → List E → Outcome (SocketLink S × Sent)
  chain t [] = ok (t, [])
  chain t (e ∷ es) = do (t', sent) ← step t e; (t'', later) ← chain t' es; ok (t'', sent ++ later)
