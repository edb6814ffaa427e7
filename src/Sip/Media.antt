-- ===== src/Sip/Media.antt =====
-- The media side of `sipserver`: `sipdataconn` of svoiptunnel/sipdataconn.cpp, the vector of data
-- connections of `sipcall` in svoiptunnel/sipcall.cpp, and `_callMap` and `_dataPortMap` of
-- svoiptunnel/sipserver.cpp. A shared data connection is a number, its place in `conns`. A link is
-- named by its place in the tunnel: one that `_VpnLinkMap` no longer holds has been deleted.
pub mod Live
pub mod Steady
pub mod Streams
pub mod Announced
pub mod Gaps
pub mod Arrivals
pub mod Kept
pub mod Closing
use svoiptunnel.Vpn.Endpoints.{endpoint_eq}
use svoiptunnel.Base.{
  ℕ, zero, suc, ◌+◌, ◌-◌, ◌%◌, ◌^◌, Bool, true, false, ◌&&◌, List, [], ◌∷◌, ◌++◌, Bytes, length,
  set, get_elem?, replicate, Option, none, some, Outcome, ok, fails, null_pointer, dangling_pointer,
  ◌>>=◌, if◌then◌else◌, ltb, leb, ◌==◌, same, ◌≡◌, ◌↔◌, same_iff, arith,
}
use svoiptunnel.Base.Dict.{Dict, Eq, bytes_eq, nat_eq, find, assign, erase}
use svoiptunnel.Vpn.Link.{Endpoint, Effect, Link, setup_data_conn, send_data}
use svoiptunnel.Vpn.Node.{Node, Origin, self, at_client, Sent, sent_by}
use svoiptunnel.Sip.Boost.{Boost}
use svoiptunnel.Sip.Registry.{Registry}

pub record DataConn : Type 0 where
  -- `_vpnPtr` and `_vpnPort`
  pub link : Origin
  pub vpn_port : ℕ
  -- of its `udpsocket`: the bound port, what it is connected to, and whether it is open
  pub local_port : ℕ
  pub peer : Option (Bytes × ℕ)
  pub is_open : Bool

pub record SipCall : Type 0 where
  pub link : Origin
  pub call_id : Bytes
  -- `_dataConnVec`; a slot is `none` where the shared pointer is null
  pub slots : List (Option ℕ)

pub record Server : Type 0 where
  pub registry : Registry
  -- `_vpnPtr`
  pub node : Node
  -- `_callMap`
  pub calls : Dict Bytes SipCall
  -- every data connection made so far
  pub conns : List DataConn
  -- `_dataPortMap`
  pub data_ports : Dict ℕ ℕ

-- What surrounds the server: boost, whether `udpsocket::connect` to an address and port succeeds, the
-- port that the n-th data connection is bound to, the configuration, and the port of `_socket`.
pub record World : Type 0 where
  pub boost : Boost
  pub reachable : Bytes → ℕ → Bool
  pub bound_port : ℕ → ℕ
  pub items : Dict Bytes Bytes
  pub local_ip : Bytes
  pub public_ip : Bytes
  pub sip_port : ℕ

-- A call on the link behind a `VPNLinkBase*`.
unfoldable pub on_link :
    Origin → (Link → Outcome (Link × List Effect)) → Server → Outcome (Server × Sent)
on_link self call s = call s.node.link >>= λ r.
    ok (record s { node = record s.node { link = r.0 } }, sent_by self r.1)
on_link (at_client ep) call s = elim (find ep s.node.clients) [
  | none ↦ fails dangling_pointer
  | some l ↦ call l >>= λ r. ok (
    record s { node = record s.node { clients = assign ep r.0 s.node.clients } },
    sent_by (at_client ep) r.1,
  )
]

-- `sipdataconn( io_service, vpnPtr )`
unfoldable pub new_conn : World → Origin → Server → Server
new_conn w link s = record s {
  conns =
      s.conns
      ++ record {
        link = link;
        vpn_port = 0;
        local_port = w.bound_port (length s.conns);
        peer = none;
        is_open = true;
      }
        ∷ [];
}

-- `_dataConnVec[idx]`
abbrev pub slot_at : List (Option ℕ) → ℕ → Option ℕ
slot_at slots idx = elim (get_elem? slots idx) as (λ _. Option ℕ) [ none ↦ none | some ref ↦ ref ]

-- `resize( idx + 1 )` of a shorter vector, and the new connection in the last slot.
abbrev pub grow : List (Option ℕ) → ℕ → ℕ → List (Option ℕ)
grow slots idx ref = set (slots ++ replicate (idx + 1 - length slots) none) idx (some ref)

-- The first block of `getDataLink`, `addDataPort` and `linkDataPort`.
unfoldable pub ensure_slot : World → Server → SipCall → ℕ → Server × SipCall
unfolding new_conn
ensure_slot w s c idx =
    if leb (length c.slots) idx
    then (new_conn w c.link s, record c { slots = grow c.slots idx (length s.conns) })
    else (s, c)

-- `sipdataconn::linkVpnPort` and `udpsocket::connect`, on a connection that is there.
abbrev pub link_vpn_port : ℕ → DataConn → DataConn
link_vpn_port port d = record d { vpn_port = port }

abbrev pub connect_conn : World → Bytes → ℕ → DataConn → DataConn
connect_conn w addr port d =
    if w.reachable addr port then record d { peer = some (addr, port) } else d

-- A method called on a shared pointer to a data connection.
abbrev pub with_conn {ℓ} : {A : Type ℓ} → Server → Option ℕ → (ℕ → DataConn → Outcome A) → Outcome A
with_conn s none use_it = fails null_pointer
with_conn s (some ref) use_it = elim (get_elem? s.conns ref) [
  | none ↦ fails dangling_pointer
  | some d ↦ use_it ref d
]

abbrev pub put_conn : ℕ → DataConn → Server → Server
put_conn ref d s = record s { conns = set s.conns ref d }

unfoldable pub register_data_port : ℕ → ℕ → Server → Server
register_data_port port ref s = record s { data_ports = assign port ref s.data_ports }

unfoldable pub unregister_data_port : ℕ → Server → Server
unregister_data_port port s = record s { data_ports = erase port s.data_ports }

-- The end of `addDataPort`: the announcement to the other end, and the entry for the port.
unfoldable pub announce : SipCall → ℕ → ℕ → ℕ → Server → Outcome (Server × Sent)
unfolding on_link register_data_port
announce c idx ref port s = on_link c.link (λ l. setup_data_conn l c.call_id idx port) s >>= λ r.
    ok (register_data_port port ref r.0, r.1)

-- The result has the port that `addDataPort` returns. The index is an `unsigned short`.
unfoldable pub add_data_port :
    World → Server → SipCall → Bytes → ℕ → ℕ → Outcome (Server × SipCall × Sent × ℕ)
unfolding ensure_slot announce
add_data_port w s c addr port idx =
    let (s', c') = ensure_slot w s c (idx % 2 ^ 16) in
    with_conn s' (slot_at c'.slots (idx % 2 ^ 16)) λ ref d.
      announce c' (idx % 2 ^ 16) ref d.local_port
        (if port == 0 then s' else put_conn ref (connect_conn w addr port d) s')
      >>= λ r. ok (r.0, c', r.1, d.local_port)

unfoldable pub link_data_port : World → Server → SipCall → ℕ → ℕ → Outcome (Server × SipCall)
unfolding ensure_slot
link_data_port w s c vpn_port idx =
    let (s', c') = ensure_slot w s c idx in
    with_conn s' (slot_at c'.slots idx) λ ref d. ok (put_conn ref (link_vpn_port vpn_port d) s', c')

unfoldable pub del_data_port : Server → SipCall → ℕ → Outcome (Server × SipCall)
unfolding unregister_data_port
del_data_port s c idx =
    if leb (length c.slots) idx
    then ok (s, c)
    else with_conn s (slot_at c.slots idx) λ ref d. ok (
      put_conn ref (record d { is_open = false }) (unregister_data_port d.local_port s),
      record c { slots = set c.slots idx none },
    )

-- The loop of the destructor, from `idx` on, which is an `unsigned short`.
unfoldable pub del_data_ports : ℕ → ℕ → Server → SipCall → Outcome Server
unfolding del_data_port
del_data_ports zero idx s c = ok s
del_data_ports (suc rounds) idx s c =
    if ltb idx (length c.slots)
    then (del_data_port s c idx >>= λ r. del_data_ports rounds ((idx + 1) % 2 ^ 16) r.0 r.1)
    else ok s

-- `~sipcall`
unfoldable pub destroy_call : Server → SipCall → Outcome Server
unfolding del_data_ports
destroy_call s c = del_data_ports (suc (length c.slots)) 0 s c

-- `_callMap.erase( it )` of a call that is there, whose last owner the map is.
unfoldable pub erase_call : Bytes → SipCall → Server → Outcome Server
unfolding destroy_call
erase_call id c s = destroy_call (record s { calls = erase id s.calls }) c

-- The call of an identifier, made if there is none. The link is the one given.
unfoldable pub call_for : Origin → Bytes → Server → SipCall
call_for link id s = elim (find id s.calls) [
  | none ↦ record { link = link; call_id = id; slots = [] }
  | some c ↦ c
]

abbrev pub put_call : SipCall → Server → Server
put_call c s = record s { calls = assign c.call_id c s.calls }

-- `onSetupData`, received on the link `link`.
unfoldable pub on_setup_data : World → Server → Origin → ℕ → ℕ → Bytes → Outcome Server
unfolding call_for ensure_slot register_data_port
on_setup_data w s link idx port id =
    let (s', c') = ensure_slot w s (call_for link id s) idx in
    with_conn s' (slot_at c'.slots idx) λ ref d.
      ok
        (register_data_port d.local_port ref (put_call c' (put_conn ref (link_vpn_port port d) s')))

-- `onReceiveData`: which data connection sends the bytes on, if any.
unfoldable pub on_receive_data : Server → ℕ → Bytes → List (ℕ × Bytes)
on_receive_data s port buf = elim (find port s.data_ports) [
  | none ↦ []
  | some ref ↦ (ref, buf) ∷ []
]

-- `sipdataconn::onReceive`
unfoldable pub on_media : Server → ℕ → Bytes → Outcome (Server × Sent)
unfolding on_link
on_media s ref buf =
    with_conn s (some ref) λ _ d. on_link d.link (λ l. send_data l d.vpn_port buf) s
