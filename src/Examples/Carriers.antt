-- ===== src/Examples/Carriers.antt =====
-- UDP and TCP links of svoiptunnel/vpnudplink.cpp and svoiptunnel/vpntcplink.cpp on a system that answers
-- every call.
use svoiptunnel.Examples.Links.{phone, office}
use svoiptunnel.Examples.Sockets.{udp_system}
use svoiptunnel.Carrier.Guests.{Accepted, Naming, chain}
use svoiptunnel.Carrier.Udp as Udp
use svoiptunnel.Carrier.Udp.{Platform, UdpLink}
use svoiptunnel.Carrier.Udp.Refined.{run-IsSound, run-Moves}
use svoiptunnel.Carrier.Udp.Lost.{step-dangling}
use svoiptunnel.Carrier.Udp.Grows.{server_link-Grows}
use svoiptunnel.Carrier.Guests.Outlived.{Grows}
use svoiptunnel.Carrier.Tcp as Tcp
use svoiptunnel.Carrier.Tcp.{TcpLink}
use svoiptunnel.Carrier.Tcp.Refined.{tcp_run-Moves}
use svoiptunnel.Net.Udp.{failure, listen_done, receive_done, success}
use svoiptunnel.Net.Udp as UdpSocket
use svoiptunnel.Net.Tcp as TcpSocket
use svoiptunnel.Vpn.Wire.{connect_msg, ping_msg, frame, read_header}
use svoiptunnel.Vpn.Link.{server, Endpoint, new_link, no_channel, schedule, bare, on_receive}
use svoiptunnel.Vpn.Node.{Sent, self, place}
use svoiptunnel.Vpn.Tunnel.{Moves}
use svoiptunnel.Vpn.Tunnel.Timely.{IsSound}
use svoiptunnel.Base.{
  Bool, false, Outcome, Bytes, codes, List, [], arith, dangling_pointer, fails, ltb, ok, refl, same,
  some, true, ◌∷◌, ◌≡◌,
}

abbrev pub naming : Naming
naming = record { less = λ j k. ltb j.port k.port; hash_text = λ text. text; show = λ n. n ∷ [] }

abbrev pub platform : Platform
platform = record { naming = naming; system = udp_system; local = office }

-- A server that has just been made, and what it is behind one and two datagrams of the phone.
abbrev fresh : UdpLink
fresh = Udp.server_link platform 5000

abbrev pub hello : Bytes
hello = frame connect_msg no_channel []

abbrev pub heard : Udp.Event
heard = Udp.socket_done (listen_done success phone hello)

-- What a step that returns leaves, and what it sends.
abbrev pub value : {A : Type 0} → A → Outcome A → A
value a (ok b) = b
value a (fails why) = a

abbrev once : UdpLink × Sent
once = value (fresh, []) (Udp.step platform fresh heard)

abbrev twice : UdpLink × Sent
twice = value (fresh, []) (Udp.step platform once.0 heard)

abbrev guests_of : List (Accepted UdpSocket.UdpSocket) → List (Endpoint × Bool)
guests_of [] = []
guests_of (a ∷ more) = (a.peer, a.is_kept) ∷ guests_of more

peers_test : guests_of once.0.accepted_sockets ≡ (phone, true) ∷ []
unfolding Udp.step Udp.server_link chain place same new_link frame read_header
peers_test = refl

turned_away_test : guests_of twice.0.accepted_sockets ≡ (phone, true) ∷ (phone, false) ∷ []
unfolding Udp.step Udp.server_link chain place same new_link frame read_header
turned_away_test = refl

step-dangling_example :
    Udp.step platform twice.0 (Udp.guest_done 1 (receive_done success hello))
    ≡ fails dangling_pointer
unfolding Udp.step Udp.server_link chain place same new_link frame read_header
step-dangling_example =
    step-dangling platform fresh once.0 twice.0 phone hello hello hello once.1 twice.1 refl
      (omega arith) refl refl

run-Moves_example : Moves naming.less fresh.node once.0.node once.1
unfolding Udp.step Udp.server_link chain place same new_link frame read_header
run-Moves_example = run-Moves platform (heard ∷ []) fresh once.0 once.1 refl

fresh-IsSound : IsSound server fresh.node
unfolding Udp.server_link new_link
fresh-IsSound = record { main = (refl, omega arith); guests = tt }

run-IsSound_example : IsSound server twice.0.node
unfolding Udp.step Udp.server_link chain place same new_link frame read_header
run-IsSound_example =
    run-IsSound platform server (heard ∷ heard ∷ []) fresh twice.0
      (value (fresh, []) (Udp.run platform fresh (heard ∷ heard ∷ []))).1 fresh-IsSound refl

-- The accepted link hears nothing more, and its timer expires.
abbrev silent : UdpLink × Sent
silent = value (fresh, []) (Udp.run platform once.0 (Udp.guest_timer_done 0 false ∷ []))

server_link-Grows_example : Grows once.0.node.clients silent.0.node.clients × (silent.0.waits ≡ 0)
unfolding Udp.step Udp.server_link chain place same new_link frame read_header
server_link-Grows_example =
    server_link-Grows platform 5000 (heard ∷ []) (Udp.guest_timer_done 0 false ∷ []) once.0 silent.0
      once.1 silent.1 refl refl

abbrev pub tcp_system : TcpSocket.System
tcp_system = record {
  open_port = some 40000;
  resolve = λ name port. some (office ∷ []);
  can_listen = λ port. true;
}

abbrev dialling : TcpLink
dialling = Tcp.client_link tcp_system (codes "office") 5000

abbrev pub connection : List Tcp.Event
connection =
    Tcp.socket_done (TcpSocket.connect_done success)
    ∷ Tcp.socket_done (TcpSocket.receive_done success (frame ping_msg no_channel []))
    ∷ []

abbrev talked : TcpLink × Sent
talked = value (dialling, []) (Tcp.run naming dialling connection)

talked_test : talked.1 ≡ (self, bare connect_msg) ∷ (self, schedule) ∷ []
unfolding Tcp.step Tcp.client_link chain new_link frame read_header on_receive
talked_test = refl

tcp_run-Moves_example : Moves naming.less dialling.node talked.0.node talked.1
unfolding Tcp.step Tcp.client_link chain new_link frame read_header on_receive
tcp_run-Moves_example = tcp_run-Moves naming connection dialling talked.0 talked.1 refl
