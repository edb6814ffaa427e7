-- ===== src/Lib.antt =====
-- The verification library of svoiptunnel, a tunnel for SIP telephony.
--
-- The program runs on both ends of a tunnel. The client end is a SIP proxy for local phones
-- (`sipserver`): it reads a SIP message, rewrites it and hands it to a VPN link, which carries it
-- with a twelve-byte header over UDP, TCP, TLS or DTLS to the server end, where it is sent on to
-- the phone system; answers take the way back. A channel number travels with each message and
-- names the SIP endpoint that an answer is for. A call (`sipcall`) has a data connection for each
-- medium of its session description; what comes in there goes over the link as well, with the
-- port of the data connection at the other end. A link keeps an activity timer that ticks every
-- five seconds once the link is ready.
--
-- Base holds shared helpers: Boolean tests on the native numbers (Tests), lists indexed by them
-- (Lists), bytes (Text), results with the ways in which the code fails (Failures), and maps as
-- association lists (Dict).
--
-- Vpn models svoiptunnel/vpnlinkbase.h and svoiptunnel/vpnlinkbase.cpp.
--   Vpn/Wire    the message header: `SMessage`, what goes out of the send buffer (`frame`) and the
--               reading of what comes in (`read_header`); the fields are 32-bit little-endian
--               integers, and a larger value wraps around. `memcpy` into the data of a message fails
--               where the code, which does not test the length, would write past their end.
--   Vpn/Link    the state of one link and its calls: `onReceive` is on_receive with one function per
--               case of its switch, `connect`, `disconnect`, `ping`, `sendData`, `SetupDataConn`,
--               `onLinkReady`, `onLinkDown`. A call returns the new state and the list of its effects:
--               datagrams, calls of the handler, and the start and stop of the timer.
--   Vpn/Node    a link with its map of accepted links: `onAccept`, `timer_tick`, `sendSignalling`, and
--               histories, lists of calls with all their effects (`run`).
--   Vpn/Tunnel  what a transport may do to the links: a call of the link itself, a call of a link in its
--               map, and a new accepted link that is put into the map or turned away (Move, Moves).
--
-- Net models the sockets, as they are built where _WIN32 is not defined:
-- svoiptunnel/udpsocket.cpp (Udp) and svoiptunnel/tcpsocket.cpp (Tcp). A socket counts its
-- asynchronous operations that are outstanding; a Completion ends one of them with an error code,
-- and its handler (`handle_receive`, `handle_listen`, `handle_connect`, `handle_accept` and the
-- like) returns the socket and what it reports to `_pEvents`. Steps puts completions in a
-- sequence.
--
-- Carrier models the links over them: svoiptunnel/vpnudplink.cpp (Udp) and
-- svoiptunnel/vpntcplink.cpp (Tcp). Guests has what they share: a link with its socket, the
-- sockets that it has accepted, and whether the link of each is still in the map; where it is
-- not, it has been deleted, and `_pEvents` of its socket dangles. An Event is a call of the
-- program, the wait of a timer or a completion; `step` is one event and `run` a history.
-- Vpn/Tunnel is what they are shown to implement (Refined). svoiptunnel/vpntlslink.cpp (Tls) and
-- svoiptunnel/vpndtlslink.cpp (Dtls) are such links with a session of OpenSSL each, over the
-- record Library; Secured has what they share: what a method sends goes through the session of
-- its link, in order, and comes out as bytes on the wire. A server has no session.
--
-- Ssl models svoiptunnel/sslbase.cpp: the cookies (Cookie), over the record Crypto, and the
-- mutexes (Locks), over the record Mutexes; and what svoiptunnel/vpntlslink.cpp does with the
-- bytes of a link (Session): `onReceive` is receive, with the handshake and one read, `doSend` is
-- do_send, over the record Engine, which is OpenSSL with its two memory BIOs.
--
-- Sip models the SIP side.
--   Sip/Message   `sipmessage::parse` and `compareCode` of svoiptunnel/sipmessage.cpp.
--   Sip/Registry  the endpoints of svoiptunnel/sipserver.cpp, `_addrMap` and `_clientVec`, with
--                 `onAccept`, the choice of an endpoint and the sending at the end of
--                 `processOutgoing`, `closeEndpoint` and `timer_tick`, and svoiptunnel/sipendpoint.cpp.
--   Sip/Boost     what is used of boost, and `reg_grep` and `reg_replace` of svoiptunnel/util.cpp.
--   Sip/Lines     the loop over the lines of a text that four functions share.
--   Sip/Headers   the header lines in `processIncoming` and `processOutgoing`: one function for each
--                 header, one for a round (incoming_line, outgoing_line), one for the loop
--                 (scan_incoming, scan_outgoing). Fields describes header fields on their own.
--   Sip/Media     the rest of `sipserver`'s state (Server), svoiptunnel/sipcall.cpp without the
--                 session descriptions, svoiptunnel/sipdataconn.cpp, `onSetupData` and `onReceiveData`.
--                 A shared data connection is a number, its place among all that were made; a slot of a
--                 call's vector may be null.
--   Sip/Sdp       `processIncomingSDP` and `processOutgoingSDP` of svoiptunnel/sipcall.cpp.
--   Sip/Proxy     `processIncoming` and `processOutgoing` as a whole: the start line, the headers, the
--                 test of the length, the table of calls (pick_call), the description, and what is sent
--                 (Action); and the methods that the sockets and the links call (on_phone, on_event).
--                 Inputs puts these calls, the media and the timer in a sequence (handle_all).
--
-- Setup models svoiptunnel/config.cpp, the reading of the items and the look-ups (Config), the
-- one object (Config/Singleton), `Encode` and `Decode` (Codec); the log of svoiptunnel/log.cpp, whose
-- one object may be null or deleted (Log); `getLocalIP` of svoiptunnel/util.cpp (Addresses); and
-- `main` of svoiptunnel/voiptunnel.cpp: the arguments (Arguments, read_arguments), the choice of
-- the link, the addresses and the port (Startup, start), and the whole of it, with the event loop
-- in the record Computer (Main). What the other parts of the program log is left out.
--
-- Failures are values: a C++ exception, a null or dangling pointer dereference, and a read or
-- write outside a buffer end a call with the failure's name. Reads beyond the received bytes are
-- failures, except in Sip/Message, where the one byte behind the buffer is a parameter.
--
-- Fuel: the search for a method (`seek`) has the fuel 6, one round for each method, which is
-- enough from any method by seek_settles of Sip/Message/Requests. The loop of the destructor of a
-- call has one round more than the call has slots; its index is 16 bits wide, and with fewer
-- slots than 2^16 it ends by its own test (destroy_call-IsClosed). The loop of `doSend` has one
-- round for each byte that is pending, and each round that goes on takes some out
-- (Ssl/Session/Flushed). All other loops recurse on their list or on the number of rounds left.
--
-- Parameters stand for code outside the repository: the record Boost (regular expressions, split
-- and lexical_cast), `show` (boost::lexical_cast of a number to a text), `less` (the order of
-- boost endpoints), `hash_text` (boost::hash), the systems of the sockets (System), `reachable`
-- (whether a socket can be connected), `bound_port` (the port that the system gives a data
-- connection) and the clock, seconds that each call is given.
--
-- Examples holds concrete runs, which show that the theorems apply.
--
-- Not modelled: the event loop of boost::asio, certificates, and what the build for _WIN32 adds.
-- What files hold is given.
pub mod Base
pub mod Vpn
pub mod Sip
pub mod Net
pub mod Carrier
pub mod Ssl
pub mod Setup
pub mod Examples
