-- ===== src/Gateway/Handlers.antt =====
-- The handlers of core/socket/socket.gateway.ts.
use mathplat.Common.{
  ℕ, String, Bool, true, false, if◌then◌else◌, Option, none, some, List, [], ◌∷◌, keep, map,
}
use mathplat.Common.Text.{◌⧺◌}
use mathplat.Common.Dict
use mathplat.Rooms.{
  add_to_room, remove_from_room, remove_from_all_rooms, is_in_room, is_default_room,
  get_room_member_count, get_room_members,
}
use mathplat.Rooms.Names.{is_valid_room_id}
use mathplat.Gateway.{
  Client, Socket, Gateway, Notification, connected, user_joined, user_left, chat_message,
  notification, force_logout, Effect, join, leave, emit, emit_others, emit_room, disconnect,
}
use mathplat.Gateway.Auth.{Claims, Handshake, authenticate}

abbrev pub user_room : String → String
user_room user = "user:" ⧺ user

abbrev pub broadcast_room : String
broadcast_room = "broadcast:all"

-- After the handshake: both default rooms, then the two maps, then the greeting. A user's set of
-- sockets is opened and added to as a room's set of members is.
unfoldable pub admit : Socket → String → Gateway → Gateway × List Effect
admit s now g = (
  record {
    connected_clients =
        Dict.put s.id
          (record {
            socket_id = s.id;
            user_id = s.user_id;
            session_id = s.session_id;
            connected_at = now;
          })
          g.connected_clients;
    user_sockets = add_to_room s.user_id s.id g.user_sockets;
    rooms = add_to_room broadcast_room s.id (add_to_room (user_room s.user_id) s.id g.rooms);
  },
  join s.id (user_room s.user_id)
      ∷ join s.id broadcast_room
      ∷ emit s.id (connected s.id s.user_id (user_room s.user_id ∷ broadcast_room ∷ []))
      ∷ [],
)

abbrev append_disconnect : String → List Effect → List Effect
append_disconnect socket [] = disconnect socket ∷ []
append_disconnect socket (e ∷ es) = e ∷ append_disconnect socket es

abbrev pub connect_with : String → Handshake → String → Gateway → Gateway × List Effect
connect_with socket h now g = elim h.granted [
  | none ↦ (g, append_disconnect socket h.effects)
  | some (user, session) ↦
      admit (record { id = socket; user_id = user; session_id = session }) now g
]

unfoldable pub handle_connection :
    (String → Option Claims) → String → Option String → String → Gateway → Gateway × List Effect
unfolding authenticate admit
handle_connection verify socket token now g =
    connect_with socket (authenticate verify socket token) now g

abbrev pub forget :
    String → Option Client → List (String × List String) → List (String × List String)
forget socket none m = m
forget socket (some c) m = remove_from_room c.user_id socket m

unfoldable pub handle_disconnect : String → Gateway → Gateway
handle_disconnect socket g = record {
  connected_clients = Dict.delete socket g.connected_clients;
  user_sockets = forget socket (Dict.get socket g.connected_clients) g.user_sockets;
  rooms = remove_from_all_rooms socket g.rooms;
}

-- `{ success, roomId, members, error }`
pub record Joined : Type 0 where
  pub success : Bool
  pub room_id : String
  pub members : ℕ

unfoldable pub handle_room_join : String → Socket → Gateway → Joined × (Gateway × List Effect)
handle_room_join room s g =
    let rooms = add_to_room room s.id g.rooms in
    if is_valid_room_id room
    then (
      record { success = true; room_id = room; members = get_room_member_count room rooms },
      (
        record g { rooms = rooms },
        join s.id room ∷ emit_others s.id room (user_joined room s.user_id s.id) ∷ [],
      ),
    )
    else (record { success = false; room_id = room; members = 0 }, (g, []))

-- `{ success, roomId, error }`
unfoldable pub handle_room_leave : String → Socket → Gateway → Bool × (Gateway × List Effect)
handle_room_leave room s g = if is_default_room room s.user_id then (false, (g, [])) else (
  true,
  (
    record g { rooms = remove_from_room room s.id g.rooms },
    leave s.id room ∷ emit_others s.id room (user_left room s.user_id s.id) ∷ [],
  ),
)

-- The identifier of the message, if it is sent; `id` is what `crypto.randomUUID` gives.
unfoldable pub handle_chat_send :
    (room content id : String) → Socket → Gateway → Option String × List Effect
handle_chat_send room content id s g =
    if is_in_room room s.id g.rooms
    then (some id, emit_others s.id room (chat_message id room s.user_id content) ∷ [])
    else (none, [])

-- `Date.now()`
unfoldable pub handle_ping : ℕ → ℕ
handle_ping now = now

unfoldable pub send_notification_to_user : String → Notification → List Effect
send_notification_to_user user n = emit_room (user_room user) (notification n) ∷ []

unfoldable pub broadcast_notification : Notification → List Effect
broadcast_notification n = emit_room broadcast_room (notification n) ∷ []

-- `live` tells which sockets the server still has.
unfoldable pub force_logout_user :
    (live : String → Bool) → (user reason : String) → Option String → Gateway → List Effect
force_logout_user live user reason device g =
    emit_room (user_room user) (force_logout reason device)
    ∷ map disconnect (keep live (get_room_members user g.user_sockets))
