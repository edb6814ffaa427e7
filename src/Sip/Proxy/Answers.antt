-- ===== src/Sip/Proxy/Answers.antt =====
-- The way of a response in `processIncoming` of svoiptunnel/sipserver.cpp, and the Via line that
-- `processOutgoing` puts before those of its request.
use svoiptunnel.Base.{
  ℕ, ◌≡◌, ◌≢◌, ◌≤◌, refl, false, List, [], ◌∷◌, ◌++◌, Bytes, All, codes, length, none, some, ok,
  ◌>>=◌, same, ==_refl, inr,
}
use svoiptunnel.Base.Dict.{bytes_eq, find}
use svoiptunnel.Vpn.Wire.{buffer_size, signalling, frame}
use svoiptunnel.Vpn.Link.{Endpoint, server, transmit}
use svoiptunnel.Vpn.Node.{self, at_client, find_by_id}
use svoiptunnel.Vpn.Node.Routing.{server_sends}
use svoiptunnel.Sip.Lines.{print_lines, IsLine, next}
use svoiptunnel.Sip.Media.{World, Server}
use svoiptunnel.Sip.Message.{Message, parse}
use svoiptunnel.Sip.Headers.{Headers, via_line, branch_of, scan_incoming}
use svoiptunnel.Sip.Headers.Fields.{
  Field, via, print_field, print_fields, IsField, Finds, response_fields,
}
use svoiptunnel.Sip.Headers.Returning.{behind_via, branch-response_fields, scan_incoming-response}
use svoiptunnel.Sip.Proxy.{
  tunnel, is_invite, is_trying, pick_call, send_response, pass_incoming, after_incoming,
  process_incoming, incoming_text, incoming_content,
}
use svoiptunnel.Sip.Proxy.Tracking.{pick_call-untracked}

-- What stands behind the name of that Via line.
abbrev via_rest : World → Bytes → ℕ → Bytes
via_rest w vpn_id ch =
    codes " SIP/2.0/UDP "
    ++ (w.public_ip ++ codes ":" ++ w.boost.show w.sip_port)
    ++ codes ";rport;branch="
    ++ branch_of w vpn_id ch

print-via_line :
    (w : World) (vpn_id : Bytes) (ch : ℕ)
    → print_field (via (via_rest w vpn_id ch)) ≡ via_line w vpn_id ch
unfolding via_line
print-via_line w vpn_id ch = refl

module _ (w : World) (s : Server) (vpn_id : Bytes) (ch : ℕ) (ep : Endpoint) where
  sent_back :
      (text : Bytes)
      → w.boost.split b'-' (branch_of w vpn_id ch) ≡ codes "z9hG4bK" ∷ vpn_id ∷ w.boost.show ch ∷ []
      → w.boost.to_int (w.boost.show ch) ≡ some ch
      → s.node.link.mode ≡ server
      → vpn_id ≢ []
      → find_by_id vpn_id s.node.clients ≡ some ep
      → length text ≤ buffer_size
      → send_response w (branch_of w vpn_id ch) text s
        ≡ ok (s, tunnel (at_client ep) (transmit (frame signalling ch text)) ∷ [])
  unfolding send_response same
  sent_back text parts number listens some_id known fits =
      rw (
        send_response,
        parts,
        number,
        server_sends s.node ch text vpn_id listens some_id fits,
        known,
      )

  passed :
      (m : Message) (h : Headers) (here now : ℕ) (content : Bytes)
      → m.is_request ≡ false
      → pick_call self m h s ≡ ok (s, none)
      → pass_incoming w here now m h content s
        ≡ (send_response w h.branch (incoming_text w h content) s >>= λ r. ok (r.0, r.1))
  unfolding pass_incoming incoming_content
  passed m h here now content response untracked = rw (pass_incoming, untracked, response)

  -- What is known at the end of the headers.
  abbrev pub at_end : Message → List Field → Headers
  at_end m fs = response_fields (behind_via m (branch_of w vpn_id ch)) fs

  scanned :
      (m : Message) (fs : List Field) (content : Bytes)
      → m.is_request ≡ false
      → IsLine (via_rest w vpn_id ch)
      → Finds w.boost
          (codes "^Via:.*;branch=([^; ]+).*$")
          (via_line w vpn_id ch)
          (branch_of w vpn_id ch ∷ [])
      → All (IsField w.boost) fs
      → m.body ≡ print_lines (via_line w vpn_id ch ∷ print_fields fs) (b'\r' ∷ b'\n' ∷ content)
      → scan_incoming w m ≡ ok (next (at_end m fs, content))
  unfolding via_line
  scanned m fs content response line found r e =
      scan_incoming-response w m response (via_rest w vpn_id ch) (branch_of w vpn_id ch) fs content
        line found r e

  -- At a listening end, a response whose first header is the Via line that `processOutgoing` wrote for
  -- a link id and a channel, with further fields that are read as they say, a right content length, and
  -- a call identifier that is not known: it goes once to the accepted link with that id, on that
  -- channel, without that Via line, and the server is as it was. Boost is assumed to find the branch
  -- in the line, to split it at the dashes, and to read back the channel; the text has at most 1500 bytes.
  pub response_returns :
      (m : Message) (fs : List Field) (past here now : ℕ) (buf content : Bytes)
      → parse past buf ≡ some m
      → m.is_request ≡ false
      → is_trying m ≡ false
      → is_invite m.method ≡ false
      → m.body ≡ print_lines (via_line w vpn_id ch ∷ print_fields fs) (b'\r' ∷ b'\n' ∷ content)
      → IsLine (via_rest w vpn_id ch)
      → All (IsField w.boost) fs
      → Finds w.boost
          (codes "^Via:.*;branch=([^; ]+).*$")
          (via_line w vpn_id ch)
          (branch_of w vpn_id ch ∷ [])
      → w.boost.split b'-' (branch_of w vpn_id ch) ≡ codes "z9hG4bK" ∷ vpn_id ∷ w.boost.show ch ∷ []
      → w.boost.to_int (w.boost.show ch) ≡ some ch
      → (at_end m fs).content_length ≡ length content
      → find (at_end m fs).call_id s.calls ≡ none
      → s.node.link.mode ≡ server
      → vpn_id ≢ []
      → find_by_id vpn_id s.node.clients ≡ some ep
      → length (incoming_text w (at_end m fs) content) ≤ buffer_size
      → process_incoming w past here now buf s
        ≡ ok (
          s,
          tunnel
                (at_client ep)
                (transmit (frame signalling ch (incoming_text w (at_end m fs) content)))
              ∷ [],
        )
  unfolding process_incoming after_incoming
  response_returns m fs past here now buf content parsed response final no_invite e line r found
        parts number sized untracked listens some_id known fits =
      rw (
        process_incoming,
        parsed,
        final,
        scanned m fs content response line found r e,
        after_incoming,
        sized,
        ==_refl (length content),
        passed m (at_end m fs) here now content response
            (pick_call-untracked self m (at_end m fs) s (inr (untracked, no_invite))),
        branch-response_fields (behind_via m (branch_of w vpn_id ch)) fs,
        sent_back (incoming_text w (at_end m fs) content) parts number listens some_id known fits,
      )
