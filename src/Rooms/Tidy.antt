-- ===== src/Rooms/Tidy.antt =====
-- No room of core/socket/room-manager.service.ts is kept without members.
use mathplat.Common.{
  String, ◌≡◌, ◌≢◌, refl, if◌then◌else◌, true, none, some, List, [], ◌∷◌, arith, eq_iff,
  Option-cases, inl, inr,
}
use mathlib.Core.Option
use mathplat.Common.Dict
use mathplat.Common.Dict.{get-put, get-delete, IsMap, IsMap-put, IsMap-delete}
use mathplat.Common.StrSet
use mathplat.Common.StrSet.{add-ne-nil}
use mathplat.Rooms.{
  Rooms, get_room_members, add_to_room, remove_from_room, leave_all, emptied, delete_rooms,
  remove_from_all_rooms, open_room, put_or_delete, left,
}

-- The map holds each room once, and no room without members.
pub record IsTidy (m : Rooms) : Type 0 where
  pub is_map : IsMap m
  pub peopled : (room : String) → Dict.get room m ≢ some []

pub add_to_room-IsTidy :
    (room socket : String) (m : Rooms) → IsTidy m → IsTidy (add_to_room room socket m)
unfolding add_to_room
add_to_room-IsTidy room socket m tidy =
    let opened = open_room room m in
    let members = StrSet.add socket (get_room_members room opened) in
    record {
      is_map = IsMap-put room members opened (ground (arith, tidy.is_map, IsMap-put room [] m));
      peopled = λ j e. ground (
        arith,
        tidy.peopled j,
        get-put room j members opened,
        get-put room j [] m,
        add-ne-nil socket (get_room_members room opened),
      );
    }

put_or_delete-IsTidy :
    (room : String) (s : List String) (m : Rooms) → IsTidy m → IsTidy (put_or_delete room s m)
put_or_delete-IsTidy room [] m tidy = record {
  is_map = IsMap-delete room m tidy.is_map;
  peopled = λ j e. ground (arith, tidy.peopled j, get-delete room j m);
}
put_or_delete-IsTidy room (x ∷ s) m tidy = record {
  is_map = IsMap-put room (x ∷ s) m tidy.is_map;
  peopled = λ j e. ground (arith, tidy.peopled j, get-put room j (x ∷ s) m);
}

pub remove_from_room-IsTidy :
    (room socket : String) (m : Rooms) → IsTidy m → IsTidy (remove_from_room room socket m)
unfolding remove_from_room
remove_from_room-IsTidy room socket m tidy = elim (Option-cases (Dict.get room m)) [
  | inl e ↦ rw (e, remove_from_room) tidy
  | inr (s, e) ↦
      rw (e, remove_from_room) (put_or_delete-IsTidy room (StrSet.delete socket s) m tidy)
]

leave_all-get :
    (socket j : String) (m : Rooms)
    → Dict.get j (leave_all socket m) ≡ Option.map (left socket) (Dict.get j m)
unfolding leave_all Dict.get
leave_all-get socket j [] = refl
leave_all-get socket j ((room, t) ∷ m) = ground (arith, leave_all-get socket j m)

leave_all-IsMap : (socket : String) (m : Rooms) → IsMap m → IsMap (leave_all socket m)
unfolding leave_all
leave_all-IsMap socket [] u = tt
leave_all-IsMap socket ((room, t) ∷ m) (fresh, u) =
    (rw (leave_all-get socket room m, fresh) refl, leave_all-IsMap socket m u)

delete_rooms-IsMap : (rooms : List String) (m : Rooms) → IsMap m → IsMap (delete_rooms rooms m)
unfolding delete_rooms
delete_rooms-IsMap [] m u = u
delete_rooms-IsMap (room ∷ rooms) m u =
    delete_rooms-IsMap rooms (Dict.delete room m) (IsMap-delete room m u)

delete_rooms-get :
    (rooms : List String) (j : String) (m : Rooms)
    → Dict.get j (delete_rooms rooms m) ≡ (if StrSet.has j rooms then none else Dict.get j m)
unfolding delete_rooms StrSet.has
delete_rooms-get [] j m = refl
delete_rooms-get (room ∷ rooms) j m =
    ground (arith, get-delete room j m, delete_rooms-get rooms j (Dict.delete room m))

-- A room that the first loop leaves without members is on the list of the second.
emptied_complete :
    (socket j : String) (t : List String) (m : Rooms)
    → Dict.get j m ≡ some t
    → t ≢ []
    → left socket t ≡ []
    → StrSet.has j (emptied socket m) ≡ true
unfolding emptied Dict.get StrSet.has
emptied_complete socket j t [] e filled gone = cc
emptied_complete socket j t ((room, s) ∷ m) e filled gone =
    ground (arith, eq_iff room j, emptied_complete socket j t m)

pub remove_from_all_rooms-IsTidy :
    (socket : String) (m : Rooms) → IsTidy m → IsTidy (remove_from_all_rooms socket m)
unfolding remove_from_all_rooms
remove_from_all_rooms-IsTidy socket m tidy = record {
  is_map =
      delete_rooms-IsMap (emptied socket m) (leave_all socket m)
        (leave_all-IsMap socket m tidy.is_map);
  peopled = λ j e. elim (Option-cases (Dict.get j m)) [
    | inl missing ↦ ground (
      arith,
      delete_rooms-get (emptied socket m) j (leave_all socket m),
      leave_all-get socket j m,
    )
    | inr (t, found) ↦ ground (
      arith,
      delete_rooms-get (emptied socket m) j (leave_all socket m),
      leave_all-get socket j m,
      emptied_complete socket j t m found,
      tidy.peopled j,
    )
  ];
}

-- A call of one of the three methods that change the rooms.
pub data Call : Type 0 where
  adds removes : (room socket : String) → Call
  removes_all : (socket : String) → Call

unfoldable pub call : Call → Rooms → Rooms
call (adds room socket) m = add_to_room room socket m
call (removes room socket) m = remove_from_room room socket m
call (removes_all socket) m = remove_from_all_rooms socket m

pub call-IsTidy : (k : Call) (m : Rooms) → IsTidy m → IsTidy (call k m)
unfolding call
call-IsTidy (adds room socket) m tidy = add_to_room-IsTidy room socket m tidy
call-IsTidy (removes room socket) m tidy = remove_from_room-IsTidy room socket m tidy
call-IsTidy (removes_all socket) m tidy = remove_from_all_rooms-IsTidy socket m tidy
