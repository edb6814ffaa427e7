-- ===== src/Examples/Messages.antt =====
-- SIP messages as svoiptunnel/sipmessage.cpp reads them.
use svoiptunnel.Base.{
  ◌≡◌, refl, true, false, [], ◌∷◌, ◌++◌, arith, Bytes, codes, Option, none, some, ◌==◌,
}
use svoiptunnel.Sip.Message.{
  Method, invite, unknown, method_name, head_or_nul, Message, parse, no_code,
}
use svoiptunnel.Sip.Message.Requests.{parse-request, IsLine}
use svoiptunnel.Sip.Message.Responses.{parse-response, padded}
use svoiptunnel.Sip.Message.Parts.{IsParsed, parse-IsParsed}

abbrev uri : Bytes
uri = codes " sip:a@b SIP/2.0\r"

abbrev headers : Bytes
headers = codes "Via: x\r\n\r\n"

uri-IsLine : IsLine uri
uri-IsLine = omega arith

parse-request_example :
    parse 0 (method_name invite ++ uri ++ b'\n' ∷ headers)
    ≡ some (record {
      is_request = true;
      is_success = false;
      resp_code = no_code;
      start_line = (method_name invite ++ uri) ++ b'\n' ∷ [];
      body = headers;
      method = invite;
    })
parse-request_example = parse-request 0 invite uri headers (ground arith) uri-IsLine

abbrev ringing : Message
ringing = record {
  is_request = false;
  is_success = head_or_nul (padded (codes "180")) == b'2';
  resp_code = padded (codes "180");
  start_line = (codes "SIP/2.0 " ++ (codes "180" ++ b' ' ∷ codes "Ringing\r")) ++ b'\n' ∷ [];
  body = headers;
  method = unknown;
}

parse-response_example :
    parse 0 ((codes "SIP/2.0 " ++ (codes "180" ++ b' ' ∷ codes "Ringing\r")) ++ b'\n' ∷ headers)
    ≡ some ringing
parse-response_example =
    parse-response 0 (codes "180") (codes "Ringing\r") headers (refl, (refl, (refl, tt)))
      (omega arith) (omega arith)

parse-IsParsed_example :
    IsParsed
      ((codes "SIP/2.0 " ++ (codes "180" ++ b' ' ∷ codes "Ringing\r")) ++ b'\n' ∷ headers)
      ringing
parse-IsParsed_example =
    parse-IsParsed 0
      ((codes "SIP/2.0 " ++ (codes "180" ++ b' ' ∷ codes "Ringing\r")) ++ b'\n' ∷ headers)
      parse-response_example

-- Tests.
abbrev method_of : Option Message → Method
method_of none = unknown
method_of (some m) = m.method

-- The letters of a method may stand behind the first letters of another.
reinvite_test : method_of (parse 0 (codes "REINVITE sip:a\r\n")) ≡ invite
unfolding parse
reinvite_test = refl

notify_test : parse 0 (codes "NOTIFY sip:a\r\n") ≡ none
unfolding parse
notify_test = refl
