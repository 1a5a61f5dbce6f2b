-- ===== src/Tests/Parsing.antt =====
-- The parsers on concrete texts.
use sipbridge.Prelude.{◌≡◌, refl, pos, [], ◌∷◌, ◌++◌, Bool}
use sipbridge.Sip.Address.{extract_user_from_uri, header_user, extract_tag, ensure_to_tag}
use sipbridge.Sip.Message.{parse_message, ok}
use sipbridge.Text.{Text, codes}

abbrev crlf : Text
crlf = 13 ∷ 10 ∷ []

user_of_uri : extract_user_from_uri (codes " SIPS:alice@host;x ") ≡ codes "alice"
unfolding extract_user_from_uri
user_of_uri = refl

user_of_header : header_user (codes "Bob <sip:1001@x.org>;tag=abc") ≡ codes "1001"
unfolding header_user
user_of_header = refl

tag_of_header : extract_tag (codes "<sip:1@x>;Tag=a1;y=2") ≡ codes "a1"
unfolding extract_tag
tag_of_header = refl

tag_added : ensure_to_tag 4021 (codes "<sip:1@x>") ≡ codes "<sip:1@x>;tag=4021"
unfolding ensure_to_tag
tag_added = refl

abbrev ringing : Text
ringing =
    codes "SIP/2.0 180 Ringing"
    ++ crlf
    ++ codes "i: abc"
    ++ crlf
    ++ codes "l: 2"
    ++ crlf
    ++ crlf
    ++ codes "okay"

parse-ringing :
    parse_message 100 ringing
    ≡ ok (record {
      is_request = Bool.false;
      method = [];
      request_uri = [];
      status_code = pos 180;
      reason = codes "Ringing";
      version = codes "SIP/2.0";
      headers = (codes "call-id", codes "abc" ∷ []) ∷ (codes "content-length", codes "2" ∷ []) ∷ [];
      body = codes "ok";
    })
unfolding parse_message
parse-ringing = refl
