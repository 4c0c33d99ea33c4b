-- ===== src/Gateway/Admission.antt =====
-- Whom the handshake of core/socket/socket-auth.adapter.ts lets in.
use mathplat.Common.{
  String, ◌≡◌, refl, ◌↔◌, Option, none, some, [], ◌∷◌, false, arith, Option-cases, Bool-cases, inl,
  inr, ◌⊎◌, ◌≢◌, sym, ◌∙◌,
}
use mathplat.Common.Text.{is_empty, trim, ◌⧺◌}
use Prim.Native.String.{slice, len}
use text.Mathlib.Text.{starts_with}
use text.Mathlib.TextEquality.{starts_with_iff}
use text.Mathlib.TextPositions.{len-append, slice-append_right, starts_with_of_prefix}
use mathplat.Gateway.{Gateway, emit, error, disconnect}
use mathplat.Gateway.Auth.{Claims, authenticate, extract_token}
use mathplat.Gateway.Handlers.{handle_connection}

-- What is left of a token without the blanks around it: what follows `Bearer `, or, without such a
-- start, all of it.
abbrev pub Carries : (raw token : String) → Type 0
Carries raw token =
    (trim raw ≡ "Bearer " ⧺ token)
    ⊎ (trim raw ≡ token) × ((rest : String) → trim raw ≢ "Bearer " ⧺ rest)

slice-bearer : (s rest : String) → s ≡ "Bearer " ⧺ rest → slice s 7 (len s) ≡ rest
slice-bearer s rest e = rw (e, len-append "Bearer " rest) (slice-append_right "Bearer " rest)

extract_token-Carries : (raw : String) → Carries raw (extract_token raw)
unfolding extract_token
extract_token-Carries raw = elim (Bool-cases (starts_with (trim raw) "Bearer ")) [
  | inl e ↦
      let (rest, it) = (starts_with_iff (trim raw) "Bearer ").0 e in
      inl (rw (e, slice-bearer (trim raw) rest (sym it)) (sym it))
  | inr e ↦
      inr (rw e refl, λ rest it. cc (starts_with_of_prefix "Bearer " (trim raw) (rest, sym it), e))
]

-- There is one such text.
Carries-unique : (raw s t : String) → Carries raw s → Carries raw t → s ≡ t
Carries-unique raw s t (inl a) (inl b) =
    sym (slice-bearer (trim raw) s a) ∙ slice-bearer (trim raw) t b
Carries-unique raw s t (inl a) (inr (b, no_)) = elim (no_ s a) [ ]
Carries-unique raw s t (inr (a, no_)) (inl b) = elim (no_ t b) [ ]
Carries-unique raw s t (inr (a, _)) (inr (b, _)) = sym a ∙ b

module _ (verify : String → Option Claims) where
  -- What a granted handshake rests on.
  abbrev pub Entitles : (user session : String) → Option String → Type 0
  Entitles user session token =
      (raw carried : String) × (claims : Claims) × (token ≡ some raw)
      × (is_empty raw ≡ false)
      × Carries raw carried
      × (verify carried ≡ some claims)
      × (claims.sub ≡ some user)
      × (is_empty user ≡ false)
      × (claims.session_id ≡ some session)
      × (is_empty session ≡ false)

  entitled :
      (socket user session : String) (token : Option String)
      → (authenticate verify socket token).granted ≡ some (user, session)
      → Entitles user session token
  unfolding authenticate
  entitled socket user session none h = cc
  entitled socket user session (some raw) h = elim (Option-cases (verify (extract_token raw))) [
    | inl e ↦ absurd (ground arith)
    | inr (claims, e) ↦ (
      raw,
      extract_token raw,
      claims,
      refl,
      ground arith,
      extract_token-Carries raw,
      e,
      ground arith,
      ground arith,
      ground arith,
      ground arith,
    )
  ]

  granted :
      (socket user session : String) (token : Option String)
      → Entitles user session token
      → (authenticate verify socket token).granted ≡ some (user, session)
  unfolding authenticate
  granted socket user session token
        (raw, carried, claims, given, filled, carries, verified, sub, is_user, id, is_session) =
      let same : carried ≡ extract_token raw =
        Carries-unique raw carried (extract_token raw) carries (extract_token-Carries raw) in
      let it : verify (extract_token raw) ≡ some claims = rw (← same) verified in ground arith

  -- A handshake is granted for a user and a session exactly when its token is not empty, the verifier
  -- accepts what it carries, which is, with the blanks around the token left off, the text after
  -- `Bearer `, or all of it where it does not start so, and the claims name this user as `sub` and
  -- this session, neither of them empty.
  pub granted_iff :
      (socket user session : String) (token : Option String)
      → ((authenticate verify socket token).granted ≡ some (user, session))
        ↔ Entitles user session token
  granted_iff socket user session token =
      (entitled socket user session token, granted socket user session token)

  -- If the tokens that the verifier accepts carry no `sub`, every connection is refused with an error and
  -- cut off, and changes nothing.
  pub handle_connection-no_sub :
      (socket now : String) (token : Option String) (g : Gateway)
      → ((t : String) (claims : Claims) → verify t ≡ some claims → claims.sub ≡ none)
      → ((handle_connection verify socket token now g).0 ≡ g)
        × ((code message : String) × ((handle_connection verify socket token now g).1
              ≡ emit socket (error code message) ∷ disconnect socket ∷ []))
  unfolding handle_connection authenticate
  handle_connection-no_sub socket now none g h = (refl, ("AUTH_003", "Token not provided", refl))
  handle_connection-no_sub socket now (some raw) g h = elim (Bool-cases (is_empty raw)) [
    | inl blank ↦ (ground arith, ("AUTH_003", "Token not provided", ground arith))
    | inr filled ↦ elim (Option-cases (verify (extract_token raw))) [
      | inl e ↦ (ground arith, ("AUTH_001", "Invalid or expired token", ground arith))
      | inr (claims, e) ↦
          let absent : claims.sub ≡ none = h (extract_token raw) claims e in
          (ground arith, ("AUTH_001", "Invalid token payload", ground arith))
    ]
  ]
