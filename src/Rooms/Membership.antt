-- ===== src/Rooms/Membership.antt =====
-- The rooms of core/socket/room-manager.service.ts as a relation between rooms and sockets.
use mathplat.Common.{
  String, ◌≡◌, refl, if◌then◌else◌, true, false, not, ◌&&◌, ◌||◌, none, List, [], ◌∷◌, arith, ◌==◌,
  eq_iff, Option-cases, inl, inr,
}
use mathplat.Common.Dict
use mathplat.Common.Dict.{get-put, get-delete, IsMap, IsMap-put, IsMap-delete}
use mathplat.Common.StrSet
use mathplat.Common.StrSet.{has-add, has-delete, add-ne-nil}
use mathplat.Rooms.{
  Rooms, get_room_members, add_to_room, remove_from_room, is_in_room, leave_all, emptied,
  delete_rooms, remove_from_all_rooms, open_room, is_nil,
}

pub is_in_room_lem :
    (room socket : String) (m : Rooms)
    → is_in_room room socket m ≡ StrSet.has socket (get_room_members room m)
unfolding is_in_room get_room_members StrSet.has
is_in_room_lem room socket m = ground arith

open_room_lem :
    (room j : String) (m : Rooms) → get_room_members j (open_room room m) ≡ get_room_members j m
unfolding get_room_members
open_room_lem room j m = ground (arith, eq_iff room j, get-put room j [] m)

get_room_members-put :
    (room j : String) (s : List String) (m : Rooms)
    → get_room_members j (Dict.put room s m) ≡ (if room == j then s else get_room_members j m)
unfolding get_room_members
get_room_members-put room j s m = ground (arith, get-put room j s m)

-- A socket is in a room after another was added just if it was the one added to this room, or was
-- there before.
pub is_in_room-add :
    (room socket j s : String) (m : Rooms)
    → is_in_room j s (add_to_room room socket m) ≡ (room == j && socket == s || is_in_room j s m)
unfolding add_to_room
is_in_room-add room socket j s m =
    let opened = open_room room m in
    let members = get_room_members room opened in
    ground (
      arith,
      eq_iff room j,
      is_in_room_lem j s m,
      is_in_room_lem j s (Dict.put room (StrSet.add socket members) opened),
      get_room_members-put room j (StrSet.add socket members) opened,
      open_room_lem room j m,
      has-add socket s members,
    )

get_room_members-remove :
    (room socket j : String) (m : Rooms)
    → get_room_members j (remove_from_room room socket m)
      ≡ (if room == j then StrSet.delete socket (get_room_members j m) else get_room_members j m)
unfolding get_room_members remove_from_room StrSet.delete
get_room_members-remove room socket j m = elim (Option-cases (Dict.get room m)) [
  | inl e ↦ ground (arith, eq_iff room j)
  | inr (s, e) ↦
      ground (arith, eq_iff room j, get-put room j (StrSet.delete socket s) m, get-delete room j m)
]

-- After a removal from a room, the sockets that are in a room are those that were, less this one.
pub is_in_room-remove :
    (room socket j s : String) (m : Rooms)
    → is_in_room j s (remove_from_room room socket m)
      ≡ (not (room == j && socket == s) && is_in_room j s m)
is_in_room-remove room socket j s m = ground (
  arith,
  is_in_room_lem j s m,
  is_in_room_lem j s (remove_from_room room socket m),
  get_room_members-remove room socket j m,
  has-delete socket s (get_room_members j m),
)

leave_all-get :
    (socket j s : String) (m : Rooms)
    → StrSet.has s (get_room_members j (leave_all socket m))
      ≡ (not (socket == s) && StrSet.has s (get_room_members j m))
unfolding get_room_members leave_all Dict.get
leave_all-get socket j s [] = unfold StrSet.has in ground arith
leave_all-get socket j s ((room, t) ∷ m) =
    ground (arith, eq_iff socket s, has-delete socket s t, leave_all-get socket j s m)

delete_rooms-get :
    (rooms : List String) (j : String) (m : Rooms)
    → get_room_members j (delete_rooms rooms m)
      ≡ (if StrSet.has j rooms then [] else get_room_members j m)
unfolding get_room_members delete_rooms StrSet.has
delete_rooms-get [] j m = refl
delete_rooms-get (room ∷ rooms) j m =
    ground
      (arith, eq_iff room j, get-delete room j m, delete_rooms-get rooms j (Dict.delete room m))

nil_has : (t : List String) (s : String) → is_nil t ≡ true → StrSet.has s t ≡ false
unfolding StrSet.has
nil_has [] s e = refl
nil_has (x ∷ t) s e = cc

-- A socket found in a set that empties when `socket` leaves is that socket.
has-alone :
    (socket s : String) (t : List String)
    → is_nil (StrSet.delete socket t) ≡ true
    → StrSet.has s t ≡ true
    → (socket == s) ≡ true
has-alone socket s t e h =
    ground (arith, has-delete socket s t, nil_has (StrSet.delete socket t) s e)

emptied-fresh :
    (socket j : String) (m : Rooms) → Dict.get j m ≡ none → StrSet.has j (emptied socket m) ≡ false
unfolding emptied Dict.get StrSet.has
emptied-fresh socket j [] e = refl
emptied-fresh socket j ((room, t) ∷ m) e = ground (arith, eq_iff room j, emptied-fresh socket j m)

emptied-get :
    (socket j s : String) (m : Rooms)
    → IsMap m
    → StrSet.has j (emptied socket m) ≡ true
    → StrSet.has s (get_room_members j m) ≡ true
    → (socket == s) ≡ true
unfolding emptied get_room_members Dict.get StrSet.has
emptied-get socket j s [] u e h = cc
emptied-get socket j s ((room, t) ∷ m) (fresh, u) e h = ground (
  arith,
  eq_iff room j,
  emptied-fresh socket j m,
  has-alone socket s t,
  emptied-get socket j s m u,
)

-- When a socket leaves all rooms, no other membership changes.
pub is_in_room-remove_all :
    (socket j s : String) (m : Rooms)
    → IsMap m
    → is_in_room j s (remove_from_all_rooms socket m) ≡ (not (socket == s) && is_in_room j s m)
unfolding remove_from_all_rooms
is_in_room-remove_all socket j s m u = ground (
  arith,
  is_in_room_lem j s m,
  is_in_room_lem j s (delete_rooms (emptied socket m) (leave_all socket m)),
  delete_rooms-get (emptied socket m) j (leave_all socket m),
  leave_all-get socket j s m,
  emptied-get socket j s m u,
  nil_has [] s refl,
)
