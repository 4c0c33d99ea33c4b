-- ===== src/Gateway/Joining.antt =====
-- Joining and leaving a room keeps the maps of core/socket/socket.gateway.ts in agreement.
use mathplat.Common.{
  String, ◌≡◌, true, false, Option, none, some, arith, ◌==◌, eq_iff, is_some, Bool-cases, inl, inr,
}
use mathplat.Common.Dict
use mathplat.Common.Dict.{get-put, get-delete}
use mathplat.Rooms.{is_default_room}
use mathplat.Rooms.Membership.{is_in_room-add, is_in_room-remove}
use mathplat.Rooms.Tidy.{add_to_room-IsTidy, remove_from_room-IsTidy}
use mathplat.Rooms.Names.{is_valid_room_id}
use mathplat.Gateway.{Client, Socket, Gateway}
use mathplat.Gateway.Handlers.{user_room, broadcast_room, handle_room_join, handle_room_leave}
use mathplat.Gateway.Consistent.{IsConsistent, is_of}

pub handle_room_join-IsConsistent :
    (room : String) (s : Socket) (g : Gateway)
    → is_some (Dict.get s.id g.connected_clients) ≡ true
    → IsConsistent g
    → IsConsistent (handle_room_join room s g).1.0
unfolding handle_room_join
handle_room_join-IsConsistent room s g known inv = elim (Bool-cases (is_valid_room_id room)) [
  | inr invalid ↦ rw invalid inv
  | inl valid ↦ rw valid (record {
    tracked = inv.tracked;
    home = λ t d e. ground (
      arith,
      inv.home t d,
      is_in_room-add room s.id (user_room d.user_id) t g.rooms,
      is_in_room-add room s.id broadcast_room t g.rooms,
    );
    inside = λ r t e.
        ground (arith, inv.inside r t, is_in_room-add room s.id r t g.rooms, eq_iff s.id t);
    tidy_rooms = add_to_room-IsTidy room s.id g.rooms inv.tidy_rooms;
    tidy_sockets = inv.tidy_sockets;
  })
]

-- A room that the guard lets go is no default room of the socket's client.
default_rooms_stay :
    (room : String) (s : Socket) (d : Client) (t : String) (o : Option Client)
    → is_of s.user_id o ≡ true
    → is_default_room room s.user_id ≡ false
    → o ≡ some d
    → ((room == user_room d.user_id) ≡ false) × ((room == broadcast_room) ≡ false)
unfolding is_default_room
default_rooms_stay room s d t none h other e = cc
default_rooms_stay room s d t (some c) h other e =
    let same : c.user_id ≡ s.user_id = (eq_iff c.user_id s.user_id).0 h in
    let its : c ≡ d = cc in let user : d.user_id ≡ s.user_id = cc in rw user (ground arith)

pub handle_room_leave-IsConsistent :
    (room : String) (s : Socket) (g : Gateway)
    → is_of s.user_id (Dict.get s.id g.connected_clients) ≡ true
    → IsConsistent g
    → IsConsistent (handle_room_leave room s g).1.0
unfolding handle_room_leave
handle_room_leave-IsConsistent room s g known inv =
    elim (Bool-cases (is_default_room room s.user_id)) [
      | inl default ↦ rw default inv
      | inr other ↦ rw other (record {
        tracked = inv.tracked;
        home = λ t d e. ground (
          arith,
          inv.home t d,
          default_rooms_stay room s d t (Dict.get s.id g.connected_clients) known other,
          eq_iff s.id t,
          is_in_room-remove room s.id (user_room d.user_id) t g.rooms,
          is_in_room-remove room s.id broadcast_room t g.rooms,
        );
        inside = λ r t e. ground (arith, inv.inside r t, is_in_room-remove room s.id r t g.rooms);
        tidy_rooms = remove_from_room-IsTidy room s.id g.rooms inv.tidy_rooms;
        tidy_sockets = inv.tidy_sockets;
      })
    ]
