-- ===== src/Rooms.antt =====
-- core/socket/room-manager.service.ts: the members of each room, as a `Map` from the room to the
-- `Set` of its sockets. A set that a method changes in place is put back here. Log lines are left out.
pub mod Membership
pub mod Tidy
pub mod Names
pub mod History
mod Tests
use mathplat.Common.{
  ℕ, String, if◌then◌else◌, Bool, false, not, ◌&&◌, ◌||◌, Option, none, some, List, [], ◌∷◌, length,
  ◌==◌,
}
use mathplat.Common.Text.{◌⧺◌}
use mathplat.Common.Dict
use mathplat.Common.StrSet

abbrev pub Rooms : Type 0
Rooms = List (String × List String)

-- `this.roomMembers.get(roomId) ?? new Set()`
unfoldable pub get_room_members : String → Rooms → List String
get_room_members room m = elim (Dict.get room m) [ none ↦ [] | some s ↦ s ]

abbrev pub open_room : String → Rooms → Rooms
open_room room m = if Dict.has room m then m else Dict.put room [] m

unfoldable pub add_to_room : String → String → Rooms → Rooms
unfolding get_room_members
add_to_room room socket m =
    let opened = open_room room m in
    Dict.put room (StrSet.add socket (get_room_members room opened)) opened

-- An empty room is deleted.
abbrev pub put_or_delete : String → List String → Rooms → Rooms
put_or_delete room [] m = Dict.delete room m
put_or_delete room (s ∷ ss) m = Dict.put room (s ∷ ss) m

unfoldable pub remove_from_room : String → String → Rooms → Rooms
remove_from_room room socket m = elim (Dict.get room m) [
  | none ↦ m
  | some s ↦ put_or_delete room (StrSet.delete socket s) m
]

unfoldable pub get_room_member_count : String → Rooms → ℕ
get_room_member_count room m = elim (Dict.get room m) [ none ↦ 0 | some s ↦ length s ]

unfoldable pub is_in_room : String → String → Rooms → Bool
is_in_room room socket m = elim (Dict.get room m) [ none ↦ false | some s ↦ StrSet.has socket s ]

-- One set of the first loop of `removeFromAllRooms`.
abbrev pub left : String → List String → List String
left socket s = if StrSet.has socket s then StrSet.delete socket s else s

-- The first loop of `removeFromAllRooms`: the socket leaves every set.
unfoldable pub leave_all : String → Rooms → Rooms
leave_all socket [] = []
leave_all socket ((room, s) ∷ m) = (room, left socket s) ∷ leave_all socket m

abbrev pub is_nil : List String → Bool
is_nil [] = Bool.true
is_nil (s ∷ ss) = false

-- `roomsToDelete`: the rooms that this empties.
unfoldable pub emptied : String → Rooms → List String
emptied socket [] = []
emptied socket ((room, s) ∷ m) =
    let rest = emptied socket m in
    if StrSet.has socket s && is_nil (StrSet.delete socket s) then room ∷ rest else rest

-- The second loop.
unfoldable pub delete_rooms : List String → Rooms → Rooms
delete_rooms [] m = m
delete_rooms (room ∷ rooms) m = delete_rooms rooms (Dict.delete room m)

unfoldable pub remove_from_all_rooms : String → Rooms → Rooms
unfolding leave_all emptied delete_rooms
remove_from_all_rooms socket m = delete_rooms (emptied socket m) (leave_all socket m)

unfoldable pub is_default_room : String → String → Bool
is_default_room room user = room == "user:" ⧺ user || room == "broadcast:all"
