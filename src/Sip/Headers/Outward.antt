-- ===== src/Sip/Headers/Outward.antt =====
-- The loop over the headers of `processOutgoing`, and the description of the fields.
use svoiptunnel.Base.{
  ℕ, ◌≡◌, refl, ap, ◌∙◌, true, List, [], ◌∷◌, Bytes, All, is_empty, has_prefix, ok, arith,
}
use svoiptunnel.Sip.Lines.{print_lines, next, walk, run_lines, walk-print_lines, walk_ended}
use svoiptunnel.Sip.Media.{World}
use svoiptunnel.Sip.Message.{Message}
use svoiptunnel.Sip.Headers.{
  Headers, no_headers, append_text, host_or_default, via_line, outgoing_to, outgoing_line,
  scan_outgoing,
}
use svoiptunnel.Sip.Headers.Fields.{
  Field, plain, via, content_type, call_id, to, content_length, max_forwards, cseq, print_field,
  print_fields, IsRead, IsField, grep_one-Finds, outgoing_field, outgoing_fields,
}
use svoiptunnel.Sip.Headers.Reading.{
  keep_two, to_text, standing, passes_none, read_content_type_lem, read_content_length_lem,
  read_call_id_lem,
}

module _ (w : World) (vpn_id : Bytes) (ch : ℕ) where
  outgoing_to_lem :
      (h : Headers) (user host : Bytes)
      → IsRead w.boost (to user host)
      → outgoing_to w h (print_field (to user host)) ≡ outgoing_field w vpn_id ch h (to user host)
  unfolding outgoing_to
  outgoing_to_lem h user host r =
      rw (outgoing_to, grep_one-Finds w.boost _ _ _ r.0, r.1)
        (ap (λ t. append_text t (record h { to_addr = host_or_default w host }))
          (to_text user (host_or_default w host)))

module _ (w : World) (vpn_id : Bytes) (ch : ℕ) (m : Message) (request : m.is_request ≡ true) where
  line_out :
      (h : Headers) (f : Field)
      → IsRead w.boost f
      → outgoing_line w vpn_id ch m h (print_field f) ≡ ok (next (outgoing_field w vpn_id ch h f))
  unfolding outgoing_line has_prefix
  line_out h (plain line) r = ground arith
  line_out h (via rest) r =
      rw (outgoing_line, request)
        (ap (λ x. ok (next x)) (keep_two (via_line w vpn_id ch) (print_field (via rest)) h))
  line_out h (content_type v) r =
      rw (outgoing_line, request, read_content_type_lem w.boost h v r)
        (ap (λ x. ok (next x)) (passes_none (record h { content_type = v })))
  line_out h (call_id v) r = rw (outgoing_line, request, read_call_id_lem w.boost h v r)
  line_out h (to user host) r =
      rw (outgoing_line, request)
        (ap (λ x. ok (next x)) (outgoing_to_lem w vpn_id ch h user host r))
  line_out h (content_length text n) r =
      rw (outgoing_line, request, read_content_length_lem w.boost h text n r)
        (ap (λ x. ok (next x)) (passes_none (record h { content_length = n })))
  line_out h (max_forwards text n) r = rw (outgoing_line, request)
  line_out h (cseq text n ref) r = rw (outgoing_line, request)

  lines_out :
      (h : Headers) (fs : List Field)
      → All (IsField w.boost) fs
      → run_lines (outgoing_line w vpn_id ch m) h (print_fields fs)
        ≡ ok (next (outgoing_fields w vpn_id ch h fs))
  lines_out h [] r = refl
  lines_out h (f ∷ fs) r =
      rw (run_lines, line_out h f r.0.2) (lines_out (outgoing_field w vpn_id ch h f) fs r.1)

  -- A request out of the tunnel, of fields that are read as they say: the loop passes on every field as
  -- the description has it, and leaves the content.
  pub scan_outgoing-fields :
      (fs : List Field) (content : Bytes)
      → All (IsField w.boost) fs
      → m.body ≡ print_lines (print_fields fs) (b'\r' ∷ b'\n' ∷ content)
      → scan_outgoing w vpn_id ch m
        ≡ ok (next (outgoing_fields w vpn_id ch (no_headers m.start_line) fs, content))
  unfolding scan_outgoing
  scan_outgoing-fields fs content r e =
      ap (walk is_empty (outgoing_line w vpn_id ch m) (no_headers m.start_line) []) e
      ∙ walk-print_lines is_empty (outgoing_line w vpn_id ch m) (no_headers m.start_line)
          (print_fields fs) (b'\r' ∷ b'\n' ∷ content) (standing w.boost fs r)
      ∙ rw (lines_out (no_headers m.start_line) fs r) (
          walk_ended is_empty (outgoing_line w vpn_id ch m)
            (outgoing_fields w vpn_id ch (no_headers m.start_line) fs) content refl)
