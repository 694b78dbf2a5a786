-- ===== src/Auth/Logout.antt =====
-- The session behind a logout.
use asika.Prelude.{
  ◌≡◌, refl, inl, inr, some, Bytes, text_eq_refl, is_empty, Bool-cases, Result-cases,
}
use asika.Models.{Time}
use asika.Db.{lookup, insert}
use asika.Db.Laws.{lookup-insert}
use asika.Auth.{
  Jwt, AuthState, validate_jwt, unless_blacklisted, blacklist_token, delete_claimed, logout,
}

-- `Logout` deletes no session, whatever the token: it lists the token before it validates it, and a
-- token that is listed has no claims.
pub logout-sessions :
    (jwt : Jwt) (now : Time) (token : Bytes) (st : AuthState)
    → (logout jwt now token st).sessions ≡ st.sessions
unfolding logout validate_jwt unless_blacklisted blacklist_token delete_claimed
logout-sessions jwt now token st = elim (Bool-cases (is_empty token)) [
  | inl k ↦ rw (k, logout) refl
  | inr k ↦ elim (Result-cases (jwt.parse now token)) [
    | inr (inl (e, p)) ↦ rw (k, p, logout, validate_jwt) refl
    | inr (inr p) ↦ rw (k, p, logout, validate_jwt) refl
    | inl (claims, p) ↦
        let listed : lookup token (insert token now st.blacklist) ≡ some now =
          rw (lookup-insert token token now st.blacklist, text_eq_refl token) refl in
        rw (k, p, logout, validate_jwt) (rw (listed, logout) refl)
  ]
]
