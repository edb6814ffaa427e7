-- ===== src/Examples/Sockets.antt =====
-- Sockets of svoiptunnel/udpsocket.cpp and svoiptunnel/tcpsocket.cpp on a system that answers every call.
use svoiptunnel.Examples.Links.{phone, office}
use svoiptunnel.Net.Steps.{all}
use svoiptunnel.Net.Udp as Udp
use svoiptunnel.Net.Udp.{ErrorCode, UdpSocket, failure, success}
use svoiptunnel.Net.Udp.Deaf.{IsError, IsIdle, handle_receive-IsIdle}
use svoiptunnel.Net.Tcp as Tcp
use svoiptunnel.Net.Tcp.{TcpSocket}
use svoiptunnel.Net.Tcp.Lively.{IsBusy, complete_all-IsBusy}
use svoiptunnel.Base.{All, [], codes, false, none, refl, some, true, ◌∷◌, ◌≡◌}

abbrev pub udp_system : Udp.System
udp_system = record {
  resolve = λ name port. some (office ∷ []);
  connect_to = λ ep. some 40000;
  bind_port = λ port. some port;
  can_bind = λ ep. true;
}

abbrev tcp_system : Tcp.System
tcp_system = record {
  open_port = some 40000;
  resolve = λ name port. some (office ∷ []);
  can_listen = λ port. true;
}

abbrev dialled : UdpSocket
dialled = record {
  has_events = true;
  listening = false;
  remote = office;
  local_port = 40000;
  peer = some office;
  receives = 1;
  listens = 0;
}

connect_test :
    Udp.connect udp_system (codes "office") 5000 (Udp.set_events true Udp.new_socket)
    ≡ (dialled, true)
unfolding Udp.connect Udp.set_events Udp.new_socket
connect_test = refl

handle_receive-IsIdle_example :
    IsIdle (record dialled { receives = 0 })
    × All IsError (Udp.error (failure 111) ∷ Udp.error (failure 111) ∷ [])
unfolding all Udp.complete
handle_receive-IsIdle_example =
    handle_receive-IsIdle udp_system phone 111 [] (Udp.send_done (failure 111) ∷ []) dialled
      (record dialled { receives = 0 }) (Udp.error (failure 111) ∷ Udp.error (failure 111) ∷ [])
      refl refl refl

abbrev pub hearing : UdpSocket
hearing = record {
  has_events = true;
  listening = true;
  remote = Udp.unspecified;
  local_port = 5000;
  peer = none;
  receives = 0;
  listens = 1;
}

abbrev tcp_client : TcpSocket
tcp_client = record {
  has_events = true;
  reconnect = true;
  remote = office;
  local_port = 40000;
  peer = none;
  connects = 1;
  waits = 0;
  receives = 0;
  accepts = 0;
}

-- A connection, its end, and the wait for the next one.
complete_all-IsBusy_example : IsBusy (record tcp_client { connects = 0; waits = 1 })
unfolding all Tcp.complete Tcp.connect Tcp.set_events Tcp.new_socket
complete_all-IsBusy_example =
    complete_all-IsBusy tcp_system (codes "office") 5000 40000 office []
      (Tcp.connect_done success
        ∷ Tcp.receive_done success (codes "hi")
        ∷ Tcp.receive_done (failure 104) []
        ∷ [])
      (record tcp_client { connects = 0; waits = 1 })
      (Tcp.connected ∷ Tcp.received (codes "hi") ∷ Tcp.error (failure 104) ∷ []) refl refl
      (tt, (tt, (tt, tt))) refl

abbrev tcp_server : TcpSocket
tcp_server = record tcp_client { reconnect = false; connects = 0; accepts = 1 }
