-- ===== src/Rooms/Tests.antt =====
-- The theorems on core/socket/room-manager.service.ts at a few rooms.
use mathplat.Common.{String, ◌≡◌, ◌↔◌, ◌⊎◌, true, List, [], ◌∷◌}
use mathplat.Rooms.{is_in_room}
use mathplat.Rooms.Tidy.{IsTidy, Call, adds, removes, removes_all}
use mathplat.Rooms.Names.{is_valid_room_id, IsNamed, is_valid_room_id_iff}
use mathplat.Rooms.History.{effects, calls, calls-effects, IsTidy-empty}

abbrev history : List Call
history =
    adds "group:a" "s1"
    ∷ adds "group:a" "s2"
    ∷ adds "group:b" "s1"
    ∷ removes "group:a" "s2"
    ∷ removes_all "s1"
    ∷ []

calls-effects_example :
    IsTidy (calls history [])
    × ((j s : String)
        → is_in_room j s (calls history []) ≡ effects history (λ i t. is_in_room i t []) j s)
calls-effects_example = calls-effects history [] IsTidy-empty

is_valid_room_id_iff_example : (is_valid_room_id "group:a-1" ≡ true) ↔ (
    IsNamed "group:" "group:a-1"
    ⊎ IsNamed "channel:" "group:a-1"
    ⊎ IsNamed "user:" "group:a-1"
    ⊎ IsNamed "broadcast:" "group:a-1")
is_valid_room_id_iff_example = is_valid_room_id_iff "group:a-1"
