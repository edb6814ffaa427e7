-- ===== src/Sip/Headers/Inward.antt =====
-- The loop over the headers of `processIncoming`, for a request, and the description of the fields.
use svoiptunnel.Base.{
  ℕ, ◌≡◌, ◌≢◌, refl, ap, ◌∙◌, true, false, List, [], ◌∷◌, ◌++◌, append_assoc, Bytes, All, is_empty,
  has_prefix, same, ok, Bool-cases, inl, inr, arith, ◌==◌,
}
use svoiptunnel.Sip.Lines.{print_lines, next, stop, walk, run_lines, walk-print_lines, walk_ended}
use svoiptunnel.Sip.Media.{World}
use svoiptunnel.Sip.Message.{Message}
use svoiptunnel.Sip.Headers.{
  Headers, no_headers, append_text, incoming_to, incoming_max_forwards, too_many_hops,
  incoming_line, scan_incoming,
}
use svoiptunnel.Sip.Headers.Fields.{
  Field, plain, via, content_type, call_id, to, content_length, max_forwards, cseq, print_field,
  print_fields, IsRead, IsField, grep_one-Finds, incoming_field, incoming_fields,
}
use svoiptunnel.Sip.Headers.Reading.{
  standing, passes_none, read_content_type_lem, read_content_length_lem, read_call_id_lem,
}

module _ (w : World) where
  incoming_to_lem :
      (h : Headers) (user host : Bytes)
      → IsRead w.boost (to user host)
      → incoming_to w h (print_field (to user host)) ≡ incoming_field w h (to user host)
  unfolding incoming_to
  incoming_to_lem h user host r =
      rw (incoming_to, grep_one-Finds w.boost _ _ _ r.0, r.1)
        (elim (Bool-cases (same host w.local_ip)) [
          | inl here ↦ rw here (ap (λ t. append_text t h) (simp append_assoc))
          | inr away ↦ rw away
        ])

  incoming_max_forwards_lem :
      (body : Bytes) (h : Headers) (text : Bytes) (n : ℕ)
      → IsRead w.boost (max_forwards text n)
      → n ≢ 0
      → incoming_max_forwards w body h (print_field (max_forwards text n))
        ≡ ok (next (incoming_field w h (max_forwards text n)))
  unfolding incoming_max_forwards
  incoming_max_forwards_lem body h text n r some_left =
      let more : (n == 0) ≡ false = ground arith in
      rw (incoming_max_forwards, grep_one-Finds w.boost _ _ _ r.0, r.1, more)
        (ap (λ t. ok (next (append_text t h))) (simp append_assoc))

  no_hops :
      (body : Bytes) (h : Headers) (text : Bytes)
      → IsRead w.boost (max_forwards text 0)
      → incoming_max_forwards w body h (print_field (max_forwards text 0))
        ≡ ok (stop (too_many_hops body))
  unfolding incoming_max_forwards
  no_hops body h text r = rw (incoming_max_forwards, grep_one-Finds w.boost _ _ _ r.0, r.1)

-- A field that does not end the loop.
abbrev pub HasHops : Field → Type 0
HasHops (max_forwards text n) = n ≢ 0
HasHops _ = Unit

module _ (w : World) (m : Message) (request : m.is_request ≡ true) where
  line_in :
      (h : Headers) (f : Field)
      → IsRead w.boost f
      → HasHops f
      → incoming_line w m h (print_field f) ≡ ok (next (incoming_field w h f))
  unfolding incoming_line has_prefix
  line_in h (plain line) r u = ground arith
  line_in h (via rest) r u = rw (incoming_line, request)
  line_in h (content_type v) r u =
      rw (incoming_line, request, read_content_type_lem w.boost h v r)
        (ap (λ x. ok (next x)) (passes_none (record h { content_type = v })))
  line_in h (call_id v) r u = rw (incoming_line, request, read_call_id_lem w.boost h v r)
  line_in h (to user host) r u =
      rw (incoming_line, request) (ap (λ x. ok (next x)) (incoming_to_lem w h user host r))
  line_in h (content_length text n) r u =
      rw (incoming_line, request, read_content_length_lem w.boost h text n r)
        (ap (λ x. ok (next x)) (passes_none (record h { content_length = n })))
  line_in h (max_forwards text n) r u =
      rw (incoming_line, request) (incoming_max_forwards_lem w m.body h text n r u)
  line_in h (cseq text n ref) r u = rw (incoming_line, request)

  lines_in :
      (h : Headers) (fs : List Field)
      → All (IsField w.boost) fs
      → All HasHops fs
      → run_lines (incoming_line w m) h (print_fields fs) ≡ ok (next (incoming_fields w h fs))
  lines_in h [] r u = refl
  lines_in h (f ∷ fs) r u =
      rw (run_lines, line_in h f r.0.2 u.0) (lines_in (incoming_field w h f) fs r.1 u.1)

  -- A request from a phone, of fields that are read as they say, and with hops left: the loop passes
  -- on every field as the description has it, and leaves the content.
  pub scan_incoming-fields :
      (fs : List Field) (content : Bytes)
      → All (IsField w.boost) fs
      → All HasHops fs
      → m.body ≡ print_lines (print_fields fs) (b'\r' ∷ b'\n' ∷ content)
      → scan_incoming w m ≡ ok (next (incoming_fields w (no_headers m.start_line) fs, content))
  unfolding scan_incoming
  scan_incoming-fields fs content r u e =
      ap (walk is_empty (incoming_line w m) (no_headers m.start_line) []) e
      ∙ walk-print_lines is_empty (incoming_line w m) (no_headers m.start_line) (print_fields fs)
          (b'\r' ∷ b'\n' ∷ content) (standing w.boost fs r)
      ∙ rw (lines_in (no_headers m.start_line) fs r u) (
          walk_ended is_empty (incoming_line w m) (incoming_fields w (no_headers m.start_line) fs)
            content refl)

  out_of_hops :
      (h : Headers) (fs : List Field) (text : Bytes)
      → All (IsField w.boost) fs
      → All HasHops fs
      → IsRead w.boost (max_forwards text 0)
      → run_lines (incoming_line w m) h (print_fields (fs ++ max_forwards text 0 ∷ []))
        ≡ ok (stop (too_many_hops m.body))
  unfolding incoming_line has_prefix
  out_of_hops h [] text r u z = rw (incoming_line, request, no_hops w m.body h text z)
  out_of_hops h (f ∷ fs) text r u z =
      rw (run_lines, line_in h f r.0.2 u.0) (out_of_hops (incoming_field w h f) fs text r.1 u.1 z)

  -- A request from a phone with no hops left, in a field behind others that are read as they say: the
  -- loop ends with the error reply, whatever follows.
  pub scan_incoming-no_hops :
      (fs : List Field) (text rest : Bytes)
      → All (IsField w.boost) (fs ++ max_forwards text 0 ∷ [])
      → All (IsField w.boost) fs
      → All HasHops fs
      → IsRead w.boost (max_forwards text 0)
      → m.body ≡ print_lines (print_fields (fs ++ max_forwards text 0 ∷ [])) rest
      → scan_incoming w m ≡ ok (stop (too_many_hops m.body))
  unfolding scan_incoming
  scan_incoming-no_hops fs text rest all r u z e =
      ap (walk is_empty (incoming_line w m) (no_headers m.start_line) []) e
      ∙ walk-print_lines is_empty (incoming_line w m) (no_headers m.start_line)
          (print_fields (fs ++ max_forwards text 0 ∷ [])) rest (standing w.boost _ all)
      ∙ rw (out_of_hops (no_headers m.start_line) fs text r u z)
