-- ===== src/Vpn/Node/Routing.antt =====
-- `sendSignalling`: which link a message goes to; and the sweep of the map by `timer_tick`.
use mathlib.Core.List.{Mem, filter, mem-filter}
use svoiptunnel.Base.{
  ℕ, ◌^◌, ◌≤◌, ◌<◌, ◌≡◌, ◌≢◌, ◌↔◌, refl, ap, true, false, [], ◌∷◌, ◌++◌, arith, Bytes, length,
  le→leb, Option-cases, same, same_iff, none, some, ok, Bool-cases, inl, inr, ◌⊎◌, if◌then◌else◌,
  All, Outcome, Bool, le→leb,
}
use svoiptunnel.Base.Dict.{Dict}
use svoiptunnel.Vpn.Wire.{buffer_size, signalling, frame}
use svoiptunnel.Vpn.Link.{
  Endpoint, Mode, client, accepted, server, transmit, on_signalling, Link, refreshed, on_receive,
}
use svoiptunnel.Vpn.Link.Delivery.{signalling_received}
use svoiptunnel.Vpn.Node.{
  Node, Sent, self, at_client, find_by_id, send_via, send_signalling, timer_tick, drop_inactive,
}
use native.Mathlib.Decide.{dec_lt}

abbrev pub Lacks : Bytes → Dict Endpoint Link → Type 0
Lacks vpn_id m = All (λ (x : Endpoint × Link). x.1.id ≢ vpn_id) m

-- The link at `ep` is the first of the map that has the id.
pub record IsFirst (vpn_id : Bytes) (m : Dict Endpoint Link) (ep : Endpoint) : Type 0 where
  pub before : Dict Endpoint Link
  pub found : Link
  pub behind : Dict Endpoint Link
  pub splits : m ≡ before ++ (ep, found) ∷ behind
  pub has_id : found.id ≡ vpn_id
  pub none_before : Lacks vpn_id before

find_by_id-IsFirst :
    (vpn_id : Bytes) (m : Dict Endpoint Link) {ep : Endpoint}
    → find_by_id vpn_id m ≡ some ep
    → IsFirst vpn_id m ep
unfolding find_by_id
find_by_id-IsFirst vpn_id [] e = cc
find_by_id-IsFirst vpn_id ((j, w) ∷ m) {ep} e = elim (Bool-cases (same w.id vpn_id)) [
  | inl hit ↦ record {
    before = [];
    found = w;
    behind = m;
    splits = ground arith;
    has_id = (same_iff w.id vpn_id).0 hit;
    none_before = tt;
  }
  | inr miss ↦
      let f = find_by_id-IsFirst vpn_id m {ep = ep} (ground arith) in
      record {
        before = (j, w) ∷ f.before;
        found = f.found;
        behind = f.behind;
        splits = ap (◌∷◌ (j, w)) f.splits;
        has_id = f.has_id;
        none_before = (λ e. ground (arith, same_iff w.id vpn_id), f.none_before);
      }
]

find_by_id-Lacks :
    (vpn_id : Bytes) (m : Dict Endpoint Link) → find_by_id vpn_id m ≡ none → Lacks vpn_id m
unfolding find_by_id
find_by_id-Lacks vpn_id [] e = tt
find_by_id-Lacks vpn_id ((j, w) ∷ m) e = (
  λ h. ground (arith, same_iff w.id vpn_id),
  find_by_id-Lacks vpn_id m (ground (arith, same_iff w.id vpn_id)),
)

-- Where a message goes, by the mode and the state of the link and the id that is given.
pub data IsRouted (n : Node) (vpn_id msg : Bytes) : Outcome (Sent × Bool) → Type 0 where
  to_accepted :
      (ep : Endpoint)
      → n.link.mode ≡ server
      → vpn_id ≢ []
      → IsFirst vpn_id n.clients ep
      → IsRouted n vpn_id msg (ok ((at_client ep, transmit msg) ∷ [], true))
  to_unknown :
      n.link.mode ≡ server
      → vpn_id ≢ []
      → Lacks vpn_id n.clients
      → IsRouted n vpn_id msg (ok ([], false))
  to_peer :
      (n.link.mode ≢ server) ⊎ (vpn_id ≡ [])
      → n.link.connected ≡ true
      → IsRouted n vpn_id msg (ok ((self, transmit msg) ∷ [], true))
  to_nobody :
      (n.link.mode ≢ server) ⊎ (vpn_id ≡ [])
      → n.link.connected ≡ false
      → IsRouted n vpn_id msg (ok ([], false))

pub server_sends :
    (n : Node) (ch : ℕ) (buf vpn_id : Bytes)
    → n.link.mode ≡ server
    → vpn_id ≢ []
    → length buf ≤ buffer_size
    → send_signalling n ch buf vpn_id
      ≡ ok (send_via (frame signalling ch buf) (find_by_id vpn_id n.clients))
unfolding send_signalling
server_sends n ch buf [] m ne h = absurd (ne refl)
server_sends n ch buf (x ∷ xs) m ne h = rw (m, le→leb (length buf) buffer_size h)

link_sends :
    (n : Node) (ch : ℕ) (buf vpn_id : Bytes)
    → (n.link.mode ≢ server) ⊎ (vpn_id ≡ [])
    → length buf ≤ buffer_size
    → send_signalling n ch buf vpn_id
      ≡ ok (
          if n.link.connected
          then ((self, transmit (frame signalling ch buf)) ∷ [], true)
          else ([], false))
unfolding send_signalling
link_sends n ch buf vpn_id own h = ground arith

over_map :
    (n : Node) (ch : ℕ) (buf vpn_id : Bytes)
    → n.link.mode ≡ server
    → vpn_id ≢ []
    → length buf ≤ buffer_size
    → IsRouted n vpn_id (frame signalling ch buf) (send_signalling n ch buf vpn_id)
over_map n ch buf vpn_id m ne h =
    rw (server_sends n ch buf vpn_id m ne h) (elim (Option-cases (find_by_id vpn_id n.clients)) [
      | inl e ↦ rw e (to_unknown m ne (find_by_id-Lacks vpn_id n.clients e))
      | inr (ep, e) ↦ rw e (to_accepted ep m ne (find_by_id-IsFirst vpn_id n.clients e))
    ])

own-IsRouted :
    (n : Node) (vpn_id msg : Bytes) (up : Bool)
    → (n.link.mode ≢ server) ⊎ (vpn_id ≡ [])
    → n.link.connected ≡ up
    → IsRouted n vpn_id msg (ok (if up then ((self, transmit msg) ∷ [], true) else ([], false)))
own-IsRouted n vpn_id msg true own e = to_peer own e
own-IsRouted n vpn_id msg false own e = to_nobody own e

over_self :
    (n : Node) (ch : ℕ) (buf vpn_id : Bytes)
    → (n.link.mode ≢ server) ⊎ (vpn_id ≡ [])
    → length buf ≤ buffer_size
    → IsRouted n vpn_id (frame signalling ch buf) (send_signalling n ch buf vpn_id)
over_self n ch buf vpn_id own h =
    rw (link_sends n ch buf vpn_id own h)
      (own-IsRouted n vpn_id (frame signalling ch buf) n.link.connected own refl)

serves-cases : (m : Mode) → (m ≡ server) ⊎ (m ≢ server)
serves-cases client = inr (λ e. cc)
serves-cases server = inl refl
serves-cases accepted = inr (λ e. cc)

is_addressed :
    (n : Node) (vpn_id : Bytes)
    → ((n.link.mode ≡ server) × (vpn_id ≢ [])) ⊎ ((n.link.mode ≢ server) ⊎ (vpn_id ≡ []))
is_addressed n [] = inr (inr refl)
is_addressed n (x ∷ xs) = elim (serves-cases n.link.mode) [
  | inl serves ↦ inl (serves, λ e. cc)
  | inr other_mode ↦ inr (inl other_mode)
]

-- A message of at most 1500 bytes with a 32-bit channel goes to at most one link, as one message:
-- on a listening link with an id to the first accepted link of the map that has this id, and
-- nowhere if none has it; else to the link itself if this is connected, and nowhere if not. The
-- call returns whether it was sent. A link that receives the message, with a handler and not
-- listening, gives the handler the same channel and the same text.
pub send_signalling-IsRouted :
    (n : Node) (r : Link) (ep : Endpoint) (ch : ℕ) (buf vpn_id : Bytes)
    → r.has_events ≡ true
    → r.mode ≢ server
    → length buf ≤ 1500
    → ch < 2 ^ 32
    → (msg : Bytes) × IsRouted n vpn_id msg (send_signalling n ch buf vpn_id)
      × (on_receive r ep msg ≡ ok (refreshed r, on_signalling ch buf ∷ []))
send_signalling-IsRouted n r ep ch buf vpn_id listening m h hch = (
  frame signalling ch buf,
  elim (is_addressed n vpn_id) [
    | inl (serves, some_id) ↦ over_map n ch buf vpn_id serves some_id h
    | inr own ↦ over_self n ch buf vpn_id own h
  ],
  ground (arith, signalling_received r ep listening m ch buf h),
)

-- The sweep as a filter.
drop_inactive-filter :
    (m : Dict Endpoint Link) → drop_inactive m ≡ filter (λ x. dec_lt 0 x.1.activity_timer) m
unfolding drop_inactive
drop_inactive-filter [] = refl
drop_inactive-filter ((j, w) ∷ m) = ground (arith, drop_inactive-filter m)

-- A tick of a listening link keeps exactly the accepted links whose activity timer has not run out.
timer_tick-clients :
    (n : Node) (x : Endpoint × Link)
    → n.link.mode ≡ server
    → Mem x (timer_tick false n).0.clients ↔ (Mem x n.clients × (0 < x.1.activity_timer))
unfolding timer_tick
timer_tick-clients n x m = rw (m, drop_inactive-filter n.clients) (mem-filter _)
