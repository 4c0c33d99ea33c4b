-- ===== src/Gateway/Tests.antt =====
-- The theorems on core/socket/socket.gateway.ts at a short history.
use mathplat.Common.{String, true, ◌≡◌, refl, ◌&&◌, Option, none, some, ◌↔◌, [], ◌∷◌, arith}
use mathplat.Common.Dict
use mathplat.Gateway.{Gateway, emit, error, disconnect}
use mathplat.Gateway.Auth.{Claims, authenticate}
use mathplat.Gateway.Admission.{Entitles, granted_iff, handle_connection-no_sub}
use mathplat.Gateway.Handlers.{handle_connection, handle_disconnect, force_logout_user}
use mathplat.Gateway.Consistent.{IsConsistent, is_of}
use mathplat.Gateway.Reachable.{
  start, Reach, here, next, connects, disconnects, disconnects_socket, Reach-IsConsistent,
  force_logout_user-Reach,
}

-- Every token is that of one user.
abbrev verify : String → Option Claims
verify token = some (record { sub = some "u1"; user_id = none; session_id = some "x1" })

abbrev first_socket : Gateway
first_socket = (handle_connection verify "s1" (some "Bearer t") "now" start).0

abbrev second_socket : Gateway
second_socket = (handle_connection verify "s2" (some "t") "now" first_socket).0

abbrev gone : Gateway
gone = handle_disconnect "s1" second_socket

second_fresh : Dict.get "s2" first_socket.connected_clients ≡ none
unfolding handle_connection Dict.get Dict.put
second_fresh = refl

two_sockets : Reach verify second_socket
unfolding Dict.get
two_sockets =
    next (next here (connects "s1" (some "Bearer t") "now" start refl))
      (connects "s2" (some "t") "now" first_socket second_fresh)

Reach-IsConsistent_example : IsConsistent gone
Reach-IsConsistent_example =
    Reach-IsConsistent verify (next two_sockets (disconnects "s1" second_socket))

force_logout_user-Reach_example :
    disconnects_socket "s2" (force_logout_user (λ s. true) "u1" "expired" none second_socket)
    ≡ (true && is_of "u1" (Dict.get "s2" second_socket.connected_clients))
force_logout_user-Reach_example =
    force_logout_user-Reach verify (λ s. true) "u1" "expired" "s2" none two_sockets

-- What the program signs: no `sub`.
abbrev verify_own : String → Option Claims
verify_own token = some (record { sub = none; user_id = some "u1"; session_id = some "x1" })

own_no_sub : (t : String) (claims : Claims) → verify_own t ≡ some claims → claims.sub ≡ none
own_no_sub t claims e = ground arith

handle_connection-no_sub_example :
    ((handle_connection verify_own "s1" (some "Bearer t") "now" start).0 ≡ start)
    × ((code message : String) × ((handle_connection verify_own "s1"
            (some "Bearer t")
            "now"
            start).1
          ≡ emit "s1" (error code message) ∷ disconnect "s1" ∷ []))
handle_connection-no_sub_example =
    handle_connection-no_sub verify_own "s1" "now" (some "Bearer t") start own_no_sub

granted_iff_example :
    ((authenticate verify "s1" (some " Bearer t ")).granted ≡ some ("u1", "x1"))
    ↔ Entitles verify "u1" "x1" (some " Bearer t ")
granted_iff_example = granted_iff verify "s1" "u1" "x1" (some " Bearer t ")
