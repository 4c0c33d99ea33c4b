-- ===== src/Gateway.antt =====
-- core/socket/socket.gateway.ts and core/socket/socket-auth.adapter.ts: who is connected, and what
-- is sent to whom. What a handler does to Socket.IO is a list of effects, in order. Times are an
-- argument; log lines are left out.
pub mod Auth
pub mod Admission
pub mod Handlers
pub mod Consistent
pub mod Joining
pub mod Reachable
mod Tests
use mathplat.Common.{String, Bool, Option, List}
use mathplat.Rooms.{Rooms}

-- `ConnectedClient`
pub record Client : Type 0 where
  pub socket_id : String
  pub user_id : String
  pub session_id : String
  pub connected_at : String

-- A socket with what its handshake left in `socket.data`.
pub record Socket : Type 0 where
  pub id : String
  pub user_id : String
  pub session_id : String

pub record Gateway : Type 0 where
  pub connected_clients : List (String × Client)
  -- userId to the set of its sockets
  pub user_sockets : List (String × List String)
  pub rooms : Rooms

pub record Notification : Type 0 where
  pub kind : String
  pub title : String
  pub message : String

pub data Event : Type 0 where
  connected : (socket user : String) → (rooms : List String) → Event
  error : (code message : String) → Event
  user_joined user_left : (room user socket : String) → Event
  chat_message : (id room user content : String) → Event
  notification : Notification → Event
  force_logout : (reason : String) → (device : Option String) → Event

pub data Effect : Type 0 where
  join leave : (socket room : String) → Effect
  -- `socket.emit`
  emit : (socket : String) → Event → Effect
  -- `socket.to(room).emit`: to the room but for the socket itself
  emit_others : (socket room : String) → Event → Effect
  -- `server.to(room).emit`
  emit_room : (room : String) → Event → Effect
  disconnect : (socket : String) → Effect
