-- ===== src/Gateway/Reachable.antt =====
-- Every history of core/socket/socket.gateway.ts: connections, disconnections, joins and leaves, in
-- any order. A socket's identifier is new when it connects, and `socket.data` of a connected socket
-- stays what the handshake wrote.
use mathplat.Common.{
  String, ◌≡◌, refl, Bool, true, false, ◌&&◌, ◌||◌, Option, none, some, List, [], ◌∷◌, arith, ◌==◌,
  eq_iff, eq_refl, keep, map, is_some, Bool-cases, inl, inr,
}
use mathplat.Common.Dict
use mathplat.Common.StrSet
use mathplat.Rooms.{get_room_members}
use mathplat.Rooms.Membership.{is_in_room_lem}
use mathplat.Gateway.{Client, Socket, Gateway, Effect, disconnect}
use mathplat.Gateway.Auth.{Claims, Handshake, authenticate}
use mathplat.Gateway.Handlers.{
  handle_connection, connect_with, handle_disconnect, handle_room_join, handle_room_leave,
  force_logout_user,
}
use mathplat.Gateway.Consistent.{
  IsConsistent, is_of, admit-IsConsistent, handle_disconnect-IsConsistent, IsConsistent-start,
}
use mathplat.Gateway.Joining.{handle_room_join-IsConsistent, handle_room_leave-IsConsistent}

abbrev pub start : Gateway
start = record { connected_clients = []; user_sockets = []; rooms = [] }

abbrev pub disconnects_socket : String → List Effect → Bool
disconnects_socket s [] = false
disconnects_socket s (disconnect t ∷ es) = t == s || disconnects_socket s es
disconnects_socket s (_ ∷ es) = disconnects_socket s es

disconnects-keep :
    (live : String → Bool) (s : String) (ts : List String)
    → disconnects_socket s (map disconnect (keep live ts)) ≡ (live s && StrSet.has s ts)
unfolding StrSet.has
disconnects-keep live s [] = ground arith
disconnects-keep live s (t ∷ ts) = elim (Bool-cases (t == s)) [
  | inl same ↦
      let e : t ≡ s = (eq_iff t s).0 same in
      rw e (ground (arith, eq_refl s, disconnects-keep live s ts))
  | inr other ↦ ground (arith, disconnects-keep live s ts)
]

module _ (verify : String → Option Claims) where
  pub data Step : Gateway → Gateway → Type 0 where
    connects :
        (socket : String) (token : Option String) (now : String) (g : Gateway)
        → Dict.get socket g.connected_clients ≡ none
        → Step g (handle_connection verify socket token now g).0
    disconnects : (socket : String) (g : Gateway) → Step g (handle_disconnect socket g)
    joins :
        (room : String) (s : Socket) (g : Gateway)
        → is_of s.user_id (Dict.get s.id g.connected_clients) ≡ true
        → Step g (handle_room_join room s g).1.0
    leaves :
        (room : String) (s : Socket) (g : Gateway)
        → is_of s.user_id (Dict.get s.id g.connected_clients) ≡ true
        → Step g (handle_room_leave room s g).1.0

  pub data Reach : Gateway → Type 0 where
    here : Reach start
    next : {g h : Gateway} → Reach g → Step g h → Reach h

  connect_with-IsConsistent :
      (socket : String) (h : Handshake) (now : String) (g : Gateway)
      → Dict.get socket g.connected_clients ≡ none
      → IsConsistent g
      → IsConsistent (connect_with socket h now g).0
  connect_with-IsConsistent socket h now g fresh inv = go h.granted
    where
      go :
          (o : Option (String × String))
          → IsConsistent (connect_with socket (record { granted = o; effects = h.effects }) now g).0
      go none = inv
      go (some (user, session)) =
          admit-IsConsistent (record { id = socket; user_id = user; session_id = session }) now g
            fresh inv

  is_some_of : (user : String) (o : Option Client) → is_of user o ≡ true → is_some o ≡ true
  is_some_of user none h = h
  is_some_of user (some c) h = refl

  Step-IsConsistent : {g h : Gateway} → Step g h → IsConsistent g → IsConsistent h
  unfolding handle_connection
  Step-IsConsistent (connects socket token now g fresh) inv =
      connect_with-IsConsistent socket (authenticate verify socket token) now g fresh inv
  Step-IsConsistent (disconnects socket g) inv = handle_disconnect-IsConsistent socket g inv
  Step-IsConsistent (joins room s g known) inv =
      handle_room_join-IsConsistent room s g (is_some_of s.user_id _ known) inv
  Step-IsConsistent (leaves room s g known) inv = handle_room_leave-IsConsistent room s g known inv

  -- In every reachable state: the sockets tracked for a user are exactly the connected ones of this
  -- user; a connected socket is in its user's room and in `broadcast:all`, which it cannot leave; only
  -- connected sockets are in rooms; and no user or room is kept with no socket.
  pub Reach-IsConsistent : {g : Gateway} → Reach g → IsConsistent g
  Reach-IsConsistent here = IsConsistent-start
  Reach-IsConsistent (next r st) = Step-IsConsistent st (Reach-IsConsistent r)

  -- A forced logout cuts off exactly the sockets that the server still has and whose client is the
  -- user's, in every reachable state.
  pub force_logout_user-Reach :
      (live : String → Bool) (user reason s : String) (device : Option String) {g : Gateway}
      → Reach g
      → disconnects_socket s (force_logout_user live user reason device g)
        ≡ (live s && is_of user (Dict.get s g.connected_clients))
  unfolding force_logout_user
  force_logout_user-Reach live user reason s device {g} r = ground (
    arith,
    disconnects-keep live s (get_room_members user g.user_sockets),
    is_in_room_lem user s g.user_sockets,
    (Reach-IsConsistent r).tracked user s,
  )
