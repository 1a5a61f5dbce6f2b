-- ===== src/Sip/Server/Keys.antt =====
-- The keys under which the server files its dialogs: `callID + "|" + fromTag` for an inbound
-- dialog,
-- and the logical keys of recordings, `"bridge:" + bridgeID + ":" + key` and `"ivr:" + key`.
pub mod Laws
use mathlib.Core.Option
use sipbridge.Prelude.{Option, none, some, [], ◌∷◌, ◌++◌, ◌||◌, drop, length, if◌then◌else◌}
use sipbridge.Sip.Address.{extract_tag}
use sipbridge.Sip.Message.{Message, header}
use sipbridge.Text.{Text, codes, trim_space, has_prefix, cut, is_empty}

unfoldable pub call_id_of : Message → Text
unfolding header trim_space
call_id_of m = trim_space (header m (codes "call-id"))

unfoldable pub from_tag_of : Message → Text
unfolding header extract_tag
from_tag_of m = extract_tag (header m (codes "from"))

abbrev pub dialog_key : Text → Text → Text
dialog_key call_id from_tag = call_id ++ (b'|' ∷ from_tag)

-- `none` where a handler returns at once: the Call-ID or the From tag is missing.
unfoldable pub key_of : Message → Option Text
unfolding call_id_of from_tag_of
key_of m =
    if is_empty (call_id_of m) || is_empty (from_tag_of m)
    then none
    else some (dialog_key (call_id_of m) (from_tag_of m))

abbrev pub ivrconf_prefix : Text
ivrconf_prefix = codes "ivrconf|"

abbrev pub siprec_prefix : Text
siprec_prefix = codes "siprec|"

abbrev pub bridge_logical_key : Text → Text → Text
bridge_logical_key bridge_id key = codes "bridge:" ++ (bridge_id ++ (b':' ∷ key))

abbrev pub ivr_logical_key : Text → Text
ivr_logical_key key = codes "ivr:" ++ key

-- Where a logical key points: a bridge call, an IVR session, or nowhere.
pub data Logical : Type 0 where
  bridge_call : Text → Text → Logical
  ivr_session : Text → Logical
  nowhere : Logical

abbrev bridge_part : Option (Text × Text) → Logical
bridge_part none = nowhere
bridge_part (some (bridge_id, key)) = bridge_call bridge_id key

-- The `switch` of `clearSIPRECMediaForwardingByKey` and `attachSIPRECMediaFromAnswer`.
unfoldable pub resolve_logical : Text → Logical
unfolding has_prefix cut
resolve_logical k =
    if has_prefix (codes "bridge:") k
    then bridge_part (cut b':' (drop 7 k))
    else if has_prefix (codes "ivr:") k
    then ivr_session (drop 4 k)
    else nowhere
