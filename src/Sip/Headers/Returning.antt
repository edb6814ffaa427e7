-- ===== src/Sip/Headers/Returning.antt =====
-- The loop over the headers of `processIncoming`, for a response.
use svoiptunnel.Base.{
  ◌&&◌, ℕ, ◌≡◌, refl, ap, ◌∙◌, true, false, List, [], ◌∷◌, Bytes, All, is_empty, has_prefix, ok,
  arith, codes, not, Bool,
}
use svoiptunnel.Sip.Lines.{print_lines, next, walk, run_lines, walk-print_lines, walk_ended, IsLine}
use svoiptunnel.Sip.Media.{World}
use svoiptunnel.Sip.Message.{Message}
use svoiptunnel.Sip.Headers.{Headers, no_headers, incoming_line, scan_incoming, read_cseq, read_via}
use svoiptunnel.Sip.Headers.Fields.{
  Field, plain, via, content_type, call_id, to, content_length, max_forwards, cseq, print_field,
  print_fields, IsRead, IsField, grep_one-Finds, response_field, response_fields, grep_two-Finds,
  Finds,
}
use svoiptunnel.Sip.Headers.Reading.{
  standing, passes_none, read_content_type_lem, read_content_length_lem, read_call_id_lem,
}

and_false : (b : Bool) → (b && false) ≡ false
and_false b = ground arith

-- What is known behind the first Via line.
abbrev pub behind_via : Message → Bytes → Headers
behind_via m branch = record (no_headers m.start_line) { via_found = true; branch = branch }

module _ (w : World) (m : Message) (response : m.is_request ≡ false) where
  read_cseq_lem :
      (h : Headers) (text : Bytes) (n : ℕ) (ref : Bytes)
      → IsRead w.boost (cseq text n ref)
      → read_cseq w.boost h (print_field (cseq text n ref))
        ≡ ok (response_field h (cseq text n ref))
  unfolding read_cseq
  read_cseq_lem h text n ref r = rw (read_cseq, grep_two-Finds w.boost _ _ _ _ r.0, r.1)

  line_back :
      (h : Headers) (f : Field)
      → IsRead w.boost f
      → h.via_found ≡ true
      → incoming_line w m h (print_field f) ≡ ok (next (response_field h f))
  unfolding incoming_line has_prefix
  line_back h (plain line) r u = ground arith
  line_back h (via rest) r u = ground arith
  line_back h (content_type v) r u =
      rw (incoming_line, response, read_content_type_lem w.boost h v r)
        (ap (λ x. ok (next x)) (passes_none (record h { content_type = v })))
  line_back h (call_id v) r u = rw (incoming_line, response, read_call_id_lem w.boost h v r)
  line_back h (to user host) r u = ground arith
  line_back h (content_length text n) r u =
      rw (incoming_line, response, read_content_length_lem w.boost h text n r)
        (ap (λ x. ok (next x)) (passes_none (record h { content_length = n })))
  line_back h (max_forwards text n) r u = ground arith
  line_back h (cseq text n ref) r u =
      rw (incoming_line, response, and_false (not h.via_found), read_cseq_lem h text n ref r)

  still_found :
      (h : Headers) (f : Field) → h.via_found ≡ true → (response_field h f).via_found ≡ true
  still_found h (plain line) u = u
  still_found h _ u = u

  lines_back :
      (h : Headers) (fs : List Field)
      → All (IsField w.boost) fs
      → h.via_found ≡ true
      → run_lines (incoming_line w m) h (print_fields fs) ≡ ok (next (response_fields h fs))
  lines_back h [] r u = refl
  lines_back h (f ∷ fs) r u =
      rw (run_lines, line_back h f r.0.2 u)
        (lines_back (response_field h f) fs r.1 (still_found h f u))

  first_via :
      (rest branch : Bytes)
      → Finds w.boost (codes "^Via:.*;branch=([^; ]+).*$") (print_field (via rest)) (branch ∷ [])
      → incoming_line w m (no_headers m.start_line) (print_field (via rest))
        ≡ ok (next (behind_via m branch))
  unfolding incoming_line has_prefix read_via
  first_via rest branch r = rw (incoming_line, response, read_via, grep_one-Finds w.boost _ _ _ r)

  -- A response from a phone whose first line is a Via line with a branch, with fields behind it that
  -- are read as they say: the Via line is taken out and its branch remembered, and every other field
  -- is passed on as the description has it.
  pub scan_incoming-response :
      (rest branch : Bytes) (fs : List Field) (content : Bytes)
      → IsLine rest
      → Finds w.boost (codes "^Via:.*;branch=([^; ]+).*$") (print_field (via rest)) (branch ∷ [])
      → All (IsField w.boost) fs
      → m.body ≡ print_lines (print_fields (via rest ∷ fs)) (b'\r' ∷ b'\n' ∷ content)
      → scan_incoming w m ≡ ok (next (response_fields (behind_via m branch) fs, content))
  unfolding scan_incoming
  scan_incoming-response rest branch fs content line found r e =
      ap (walk is_empty (incoming_line w m) (no_headers m.start_line) []) e
      ∙ walk-print_lines is_empty (incoming_line w m) (no_headers m.start_line)
          (print_fields (via rest ∷ fs)) (b'\r' ∷ b'\n' ∷ content)
          (standing w.boost (via rest ∷ fs) ((ground arith, refl, tt), r))
      ∙ rw (run_lines, first_via rest branch found, lines_back (behind_via m branch) fs r refl)
          (walk_ended is_empty (incoming_line w m) (response_fields (behind_via m branch) fs)
            content refl)

branch-response_field : (h : Headers) (f : Field) → (response_field h f).branch ≡ h.branch
branch-response_field h (plain line) = refl
branch-response_field h _ = refl

pub branch-response_fields :
    (h : Headers) (fs : List Field) → (response_fields h fs).branch ≡ h.branch
branch-response_fields h [] = refl
branch-response_fields h (f ∷ fs) =
    branch-response_fields (response_field h f) fs ∙ branch-response_field h f
