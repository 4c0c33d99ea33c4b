-- ===== src/Rooms/History.antt =====
-- What core/socket/room-manager.service.ts promises: after any calls the rooms hold the memberships
-- that the calls describe, with no regard to how the maps store them.
use mathplat.Common.{String, ◌≡◌, refl, Bool, not, ◌&&◌, ◌||◌, List, [], ◌∷◌, ◌==◌, ◌∙◌}
use mathplat.Common.Dict
use mathplat.Rooms.{Rooms, is_in_room}
use mathplat.Rooms.Membership.{is_in_room-add, is_in_room-remove, is_in_room-remove_all}
use mathplat.Rooms.Tidy.{Call, adds, removes, removes_all, call, IsTidy, call-IsTidy}

-- The sockets of each room, as a relation.
abbrev pub Members : Type 0
Members = String → String → Bool

-- What one call does to the relation.
abbrev pub effect : Call → Members → Members
effect (adds room socket) p j s = room == j && socket == s || p j s
effect (removes room socket) p j s = not (room == j && socket == s) && p j s
effect (removes_all socket) p j s = not (socket == s) && p j s

abbrev pub effects : List Call → Members → Members
effects [] p = p
effects (k ∷ ks) p = effects ks (effect k p)

unfoldable pub calls : List Call → Rooms → Rooms
calls [] m = m
calls (k ∷ ks) m = calls ks (call k m)

call-effect :
    (k : Call) (m : Rooms) (j s : String)
    → IsTidy m
    → is_in_room j s (call k m) ≡ effect k (λ i t. is_in_room i t m) j s
unfolding call
call-effect (adds room socket) m j s tidy = is_in_room-add room socket j s m
call-effect (removes room socket) m j s tidy = is_in_room-remove room socket j s m
call-effect (removes_all socket) m j s tidy = is_in_room-remove_all socket j s m tidy.is_map

effects-ext :
    (ks : List Call) (p q : Members)
    → ((j s : String) → p j s ≡ q j s)
    → (j s : String) → effects ks p j s ≡ effects ks q j s
effects-ext [] p q h j s = h j s
effects-ext (adds room socket ∷ ks) p q h j s =
    effects-ext ks (effect (adds room socket) p) (effect (adds room socket) q) (λ i t. rw (h i t)) j
      s
effects-ext (removes room socket ∷ ks) p q h j s =
    effects-ext ks (effect (removes room socket) p) (effect (removes room socket) q)
      (λ i t. rw (h i t)) j s
effects-ext (removes_all socket ∷ ks) p q h j s =
    effects-ext ks (effect (removes_all socket) p) (effect (removes_all socket) q)
      (λ i t. rw (h i t)) j s

-- Whatever calls are made on tidy rooms, a socket is in a room just if the calls, read as changes
-- of a relation, leave it there; and the rooms stay tidy: each is stored once and none is empty.
pub calls-effects :
    (ks : List Call) (m : Rooms)
    → IsTidy m
    → IsTidy (calls ks m)
      × ((j s : String) → is_in_room j s (calls ks m) ≡ effects ks (λ i t. is_in_room i t m) j s)
unfolding calls
calls-effects [] m tidy = (tidy, λ j s. refl)
calls-effects (k ∷ ks) m tidy =
    let (still, rest) = calls-effects ks (call k m) (call-IsTidy k m tidy) in
    (
      still,
      λ j s.
          rest j s
          ∙ effects-ext ks (λ i t. is_in_room i t (call k m)) (effect k (λ i t. is_in_room i t m))
              (λ i t. call-effect k m i t tidy) j s,
    )

pub IsTidy-empty : IsTidy []
IsTidy-empty = record { is_map = tt; peopled = λ room e. unfold Dict.get in cc }
