-- ===== src/Sip/Server/Bridges.antt =====
-- The rooms: `bridgeCalls`, with the operations of server.go that add and remove a call.
use sipbridge.Maps.{Map, lookup, insert, delete}
use sipbridge.Prelude.{ℕ, ◌+◌, Option, none, some, List, [], ◌∷◌, ◌++◌, length}
use sipbridge.Sip.Server.{BridgeCall, Server, Effect, close_rtp, close_forwarding, effect_of}
use sipbridge.Text.{Text}

abbrev pub room : Option (Map BridgeCall) → Map BridgeCall
room none = []
room (some m) = m

-- `s.bridgeCalls[bridgeID][key]`
unfoldable pub find_call : Text → Text → Server → Option BridgeCall
unfolding lookup
find_call bridge_id key s = lookup key (room (lookup bridge_id s.bridge_calls))

-- `m[key] = bc`, making the room if there is none.
unfoldable pub put_call : Text → Text → BridgeCall → Server → Server
unfolding lookup insert
put_call bridge_id key bc s = record s {
  bridge_calls =
      insert bridge_id (insert key bc (room (lookup bridge_id s.bridge_calls))) s.bridge_calls;
}

abbrev drop_room : Text → Map BridgeCall → Map (Map BridgeCall) → Map (Map BridgeCall)
drop_room bridge_id [] rooms = delete bridge_id rooms
drop_room bridge_id (c ∷ cs) rooms = insert bridge_id (c ∷ cs) rooms

-- `delete(m, key)`, and the room with its last call.
unfoldable pub remove_call : Text → Text → Server → Server
unfolding lookup insert delete
remove_call bridge_id key s = record s {
  bridge_calls =
      drop_room bridge_id (delete key (room (lookup bridge_id s.bridge_calls))) s.bridge_calls;
}

-- What is closed with a call: its media, the far end's, and the forwarding to the recorder.
unfoldable pub close_media : BridgeCall → List Effect
close_media bc =
    effect_of close_rtp bc.rtp
    ++ effect_of close_rtp bc.peer_rtp
    ++ effect_of close_forwarding bc.siprec_fwd

-- The first room that holds the key, in the order in which the map is met.
unfoldable pub room_with : Text → Map (Map BridgeCall) → Option (Text × BridgeCall)
unfolding lookup
room_with key [] = none
room_with key ((bridge_id, m) ∷ rooms) =
    let rest = room_with key rooms in
    elim (lookup key m) [ none ↦ rest | some c ↦ some (bridge_id, c) ]

-- The sum of the lengths of all rooms.
unfoldable pub count_calls : Map (Map BridgeCall) → ℕ
count_calls [] = 0
count_calls ((bridge_id, m) ∷ rooms) = length m + count_calls rooms
