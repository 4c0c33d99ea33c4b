-- ===== src/Auth/Closing.antt =====
-- auth/auth.service.ts: how the ends of sessions come into the database and the cache.
use mathplat.Common.{
  ℕ, String, ◌≡◌, refl, true, false, some, List, [], ◌∷◌, arith, first, keep, map, inl, inr, subst,
  sym, eq_iff, Bool-cases, All,
}
use mathplat.Common.StrSet
use mathplat.Prisma.{change, change_all}
use mathplat.Accounts.{Session, has_id}
use mathplat.Auth.{is_active, ended}
use mathplat.Auth.Closed.{Invalid}

-- No two sessions have the same identifier.
abbrev pub IsKeyed : List Session → Type 0
IsKeyed [] = Unit
IsKeyed (s ∷ ss) = All (λ r. has_id s.id r ≡ false) ss × IsKeyed ss

Invalid-others :
    (id : String) (ss : List Session) → All (λ r. has_id id r ≡ false) ss → Invalid id ss
Invalid-others id [] h = tt
Invalid-others id (s ∷ ss) (h, hs) = ((λ e. cc (h, e)), Invalid-others id ss hs)

-- Ending the session of an identifier.
pub Invalid-ended :
    (id : String) (now : ℕ) (ss : List Session)
    → IsKeyed ss
    → Invalid id (change (has_id id) (ended now) ss)
Invalid-ended id now [] h = tt
Invalid-ended id now (s ∷ ss) (others, h) = elim (Bool-cases (has_id id s)) [
  | inl e ↦
      let own : s.id ≡ id = (eq_iff s.id id).0 e in
      rw e (
        (λ _. refl),
        Invalid-others id ss (subst (λ i. All (λ r. has_id i r ≡ false) ss) own others),
      )
  | inr e ↦ rw e ((λ there. cc (e, there)), Invalid-ended id now ss h)
]

-- The identifier's only session is the user's, and active.
abbrev pub Owns : String → String → List Session → Type 0
Owns user id ss = All (λ s. has_id id s ≡ true → is_active user s ≡ true) ss

-- Ending all the active sessions of its user.
pub Invalid-all_ended :
    (user id : String) (now : ℕ) (ss : List Session)
    → Owns user id ss
    → Invalid id (change_all (is_active user) (ended now) ss)
Invalid-all_ended user id now [] h = tt
Invalid-all_ended user id now (s ∷ ss) (own, h) = elim (Bool-cases (is_active user s)) [
  | inl e ↦ rw e ((λ _. refl), Invalid-all_ended user id now ss h)
  | inr e ↦ rw e ((λ there. cc (own there, e)), Invalid-all_ended user id now ss h)
]

Owns-others :
    (user id : String) (ss : List Session) → All (λ r. has_id id r ≡ false) ss → Owns user id ss
Owns-others user id [] h = tt
Owns-others user id (s ∷ ss) (h, hs) = ((λ e. cc (h, e)), Owns-others user id ss hs)

pub Owns-first :
    (user id : String) (ss : List Session) (s : Session)
    → IsKeyed ss
    → first (has_id id) ss ≡ some s
    → is_active user s ≡ true
    → Owns user id ss
Owns-first user id [] s h found active = tt
Owns-first user id (r ∷ ss) s (others, h) found active = elim (Bool-cases (has_id id r)) [
  | inl e ↦
      let own : r.id ≡ id = (eq_iff r.id id).0 e in
      let it : r ≡ s = ground (arith, found) in
      (
        (λ _. subst (λ q. is_active user q ≡ true) (sym it) active),
        Owns-others user id ss (subst (λ i. All (λ q. has_id i q ≡ false) ss) own others),
      )
  | inr e ↦ ((λ there. cc (e, there)), Owns-first user id ss s h (ground (arith, found)) active)
]

-- It is among those that a query for the active ones finds.
pub has-first :
    (user id : String) (ss : List Session) (s : Session)
    → first (has_id id) ss ≡ some s
    → is_active user s ≡ true
    → StrSet.has id (map (λ a. a.id) (keep (is_active user) ss)) ≡ true
unfolding StrSet.has
has-first user id [] s found active = cc
has-first user id (r ∷ ss) s found active = elim (Bool-cases (has_id id r)) [
  | inl e ↦
      let it : r ≡ s = ground (arith, found) in
      let here : is_active user r ≡ true = subst (λ q. is_active user q ≡ true) (sym it) active in
      rw here (ground (arith))
  | inr e ↦
      let rest : _ = has-first user id ss s (ground (arith, found)) active in ground (arith, rest)
]
