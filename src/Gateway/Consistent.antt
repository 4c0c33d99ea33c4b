-- ===== src/Gateway/Consistent.antt =====
-- The three maps of core/socket/socket.gateway.ts agree, and every handler keeps them so.
use mathplat.Common.{
  String, ◌≡◌, refl, Bool, true, false, not, ◌&&◌, Option, none, some, [], arith, ◌==◌, eq_iff,
  is_some,
}
use mathplat.Common.Dict
use mathplat.Common.Dict.{get-put, get-delete}
use mathplat.Rooms.{Rooms, is_in_room, add_to_room}
use mathplat.Rooms.Membership.{is_in_room-add, is_in_room-remove, is_in_room-remove_all}
use mathplat.Rooms.Tidy.{
  IsTidy, add_to_room-IsTidy, remove_from_room-IsTidy, remove_from_all_rooms-IsTidy,
}
use mathplat.Rooms.History.{IsTidy-empty}
use mathplat.Gateway.{Client, Socket, Gateway}
use mathplat.Gateway.Handlers.{user_room, broadcast_room, admit, handle_disconnect, forget}

-- Whether the client found for a socket is the user's.
abbrev pub is_of : String → Option Client → Bool
is_of user none = false
is_of user (some c) = c.user_id == user

pub record IsConsistent (g : Gateway) : Type 0 where
  -- the sockets of a user are those whose client is the user's
  pub tracked :
      (u s : String) → is_in_room u s g.user_sockets ≡ is_of u (Dict.get s g.connected_clients)
  -- a connected socket is in both default rooms of its user
  pub home :
      (s : String) (c : Client)
      → Dict.get s g.connected_clients ≡ some c
      → (is_in_room (user_room c.user_id) s g.rooms ≡ true)
        × (is_in_room broadcast_room s g.rooms ≡ true)
  -- only connected sockets are in rooms
  pub inside :
      (r s : String)
      → is_in_room r s g.rooms ≡ true
      → is_some (Dict.get s g.connected_clients) ≡ true
  pub tidy_rooms : IsTidy g.rooms
  pub tidy_sockets : IsTidy g.user_sockets

pub admit-IsConsistent :
    (s : Socket) (now : String) (g : Gateway)
    → Dict.get s.id g.connected_clients ≡ none
    → IsConsistent g
    → IsConsistent (admit s now g).0
unfolding admit
admit-IsConsistent s now g fresh inv =
    let c : Client = record {
      socket_id = s.id;
      user_id = s.user_id;
      session_id = s.session_id;
      connected_at = now;
    } in
    let rooms = add_to_room (user_room s.user_id) s.id g.rooms in
    record {
      tracked = λ u t. ground (
        arith,
        inv.tracked u t,
        is_in_room-add s.user_id s.id u t g.user_sockets,
        get-put s.id t c g.connected_clients,
        eq_iff s.id t,
      );
      home = λ t d e. ground (
        arith,
        inv.home t d,
        is_in_room-add broadcast_room s.id (user_room d.user_id) t rooms,
        is_in_room-add (user_room s.user_id) s.id (user_room d.user_id) t g.rooms,
        is_in_room-add broadcast_room s.id broadcast_room t rooms,
        is_in_room-add (user_room s.user_id) s.id broadcast_room t g.rooms,
        get-put s.id t c g.connected_clients,
        eq_iff s.id t,
        eq_iff (user_room s.user_id) (user_room d.user_id),
        eq_iff broadcast_room broadcast_room,
      );
      inside = λ r t e. ground (
        arith,
        inv.inside r t,
        is_in_room-add broadcast_room s.id r t rooms,
        is_in_room-add (user_room s.user_id) s.id r t g.rooms,
        get-put s.id t c g.connected_clients,
        eq_iff s.id t,
      );
      tidy_rooms =
          add_to_room-IsTidy broadcast_room s.id rooms
            (add_to_room-IsTidy (user_room s.user_id) s.id g.rooms inv.tidy_rooms);
      tidy_sockets = add_to_room-IsTidy s.user_id s.id g.user_sockets inv.tidy_sockets;
    }

forget-IsTidy :
    (socket : String) (o : Option Client) (m : Rooms) → IsTidy m → IsTidy (forget socket o m)
forget-IsTidy socket none m tidy = tidy
forget-IsTidy socket (some c) m tidy = remove_from_room-IsTidy c.user_id socket m tidy

forget-tracked :
    (socket u t : String) (o : Option Client) (m : Rooms)
    → is_in_room u socket m ≡ is_of u o
    → is_in_room u t (forget socket o m) ≡ (not (socket == t) && is_in_room u t m)
forget-tracked socket u t none m e = ground (arith, eq_iff socket t)
forget-tracked socket u t (some c) m e =
    ground (arith, eq_iff socket t, eq_iff c.user_id u, is_in_room-remove c.user_id socket u t m)

pub handle_disconnect-IsConsistent :
    (socket : String) (g : Gateway) → IsConsistent g → IsConsistent (handle_disconnect socket g)
unfolding handle_disconnect
handle_disconnect-IsConsistent socket g inv = record {
  tracked = λ u t. ground (
    arith,
    inv.tracked u t,
    forget-tracked socket u t (Dict.get socket g.connected_clients) g.user_sockets
        (inv.tracked u socket),
    get-delete socket t g.connected_clients,
  );
  home = λ t d e. ground (
    arith,
    inv.home t d,
    is_in_room-remove_all socket (user_room d.user_id) t g.rooms inv.tidy_rooms.is_map,
    is_in_room-remove_all socket broadcast_room t g.rooms inv.tidy_rooms.is_map,
    get-delete socket t g.connected_clients,
  );
  inside = λ r t e. ground (
    arith,
    inv.inside r t,
    is_in_room-remove_all socket r t g.rooms inv.tidy_rooms.is_map,
    get-delete socket t g.connected_clients,
  );
  tidy_rooms = remove_from_all_rooms-IsTidy socket g.rooms inv.tidy_rooms;
  tidy_sockets =
      forget-IsTidy socket (Dict.get socket g.connected_clients) g.user_sockets inv.tidy_sockets;
}

pub IsConsistent-start :
    IsConsistent (record { connected_clients = []; user_sockets = []; rooms = [] })
IsConsistent-start = record {
  tracked = λ u s. unfold Dict.get is_in_room in refl;
  home = λ s c e. unfold Dict.get in cc;
  inside = λ r s e. unfold Dict.get is_in_room in cc;
  tidy_rooms = IsTidy-empty;
  tidy_sockets = IsTidy-empty;
}
