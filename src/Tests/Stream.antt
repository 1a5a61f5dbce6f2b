-- ===== src/Tests/Stream.antt =====
-- Two messages on one stream.
use sipbridge.Prelude.{◌≡◌, refl, [], ◌∷◌, ◌++◌, arith}
use sipbridge.Sip.Framing.Laws.{read_header-in_fuel, read_next_sip_message-append}
use sipbridge.Sip.Framing.{message, read_header, read_next_sip_message}
use sipbridge.Text.{Text, codes}

abbrev first : Text
first = codes "X" ++ 13 ∷ 10 ∷ codes "content-length: 2" ++ 13 ∷ 10 ∷ 13 ∷ 10 ∷ codes "hi"

abbrev second : Text
second = codes "Y" ++ 10 ∷ 10 ∷ []

read_next_sip_message-append_example :
    read_next_sip_message 100 (first ++ second) ≡ message first ([] ++ second)
unfolding read_next_sip_message
read_next_sip_message-append_example = read_next_sip_message-append 100 first second first [] refl

-- The line ends of the second message are written as CRLF.
second_message : read_next_sip_message 100 second ≡ message (codes "Y" ++ 13 ∷ 10 ∷ 13 ∷ 10 ∷ []) []
unfolding read_next_sip_message
second_message = refl

read_header-in_fuel_example : read_header 4 [] second ≡ read_header 10 [] second
read_header-in_fuel_example = read_header-in_fuel 4 10 [] second (omega arith) (omega arith)
