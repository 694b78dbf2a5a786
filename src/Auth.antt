-- ===== src/Auth.antt =====
-- common/auth/auth.go with the session handlers of daemon/handlers/auth.go and sessions.go, and the
-- check of a request in daemon/server/middleware.go. The package golang-jwt is a parameter: parsing
-- a token with its signature, and signing. The index of the sessions by user is left out, and the
-- database does not fail.
pub mod Barred
pub mod Logout
pub mod Tests
use asika.Prelude.{
  ℕ, ◌+◌, ◌-◌, ◌*◌, ◌/◌, ◌==◌, Bool, true, false, not, ◌&&◌, Option, none, some, List, [], ◌∷◌,
  Bytes, lit, text_eq, is_empty, ltb, leb, Result, ok, fail, panic, Err, plain, if◌then◌else◌,
}
use asika.Models.{Time, second, minute}
use asika.Db.{Bucket, lookup, insert, remove}

-- The claims that the program reads; a missing text is empty. `exp` is in seconds.
pub record Claims : Type 0 where
  pub username : Bytes
  pub role : Bytes
  pub exp : ℕ
  pub iat : ℕ
  pub jti : Bytes
  pub sid : Bytes
  pub temp : Bool

-- `jwt.Parse` at a time, with the method and the secret of the program, and `SignedString`.
pub record Jwt : Type 0 where
  pub parse : Time → Bytes → Result Claims
  pub sign : Claims → Result Bytes

pub record Session : Type 0 where
  pub id : Bytes
  pub username : Bytes
  pub expires_at : Time

pub record AuthState : Type 0 where
  -- The package variables.
  pub token_expiry : ℕ
  pub blacklist : Bucket Time
  -- The bucket of the database.
  pub sessions : Bucket Session

pub unix : Time → ℕ
unix t = t / second

pub get_token_expiry : ℕ → ℕ
get_token_expiry expiry = if expiry == 0 then 24 * (60 * minute) else expiry

pub jwt_claims : Time → ℕ → Bytes → Bytes → Claims
unfolding unix
jwt_claims now lifetime username role = record {
  username = username;
  role = role;
  exp = unix (now + lifetime);
  iat = unix now;
  jti = [];
  sid = [];
  temp = false;
}

pub generate_jwt : Jwt → Time → ℕ → Bytes → Bytes → Result Bytes
unfolding jwt_claims
generate_jwt jwt now expiry username role = jwt.sign (jwt_claims now expiry username role)

-- `jti` is a fresh identifier.
pub generate_jwt_with_session : Jwt → Time → ℕ → Bytes → Bytes → Bytes → Bytes → Result Bytes
unfolding jwt_claims
generate_jwt_with_session jwt now expiry username role session_id jti =
    jwt.sign (record (jwt_claims now expiry username role) { jti = jti; sid = session_id })

-- The permissions are left out.
pub generate_temp_token : Jwt → Time → ℕ → Bytes → Bytes → Bytes → Bytes → Result Bytes
unfolding jwt_claims
generate_temp_token jwt now duration username role session_id jti =
    jwt.sign
      (record (jwt_claims now duration username role) { jti = jti; sid = session_id; temp = true })

pub unless_blacklisted : Option Time → Claims → Result Claims
unless_blacklisted none claims = ok claims
unless_blacklisted (some at) claims = fail (plain (lit "token is blacklisted"))

pub validate_jwt : Jwt → Time → Bucket Time → Bytes → Result Claims
unfolding unless_blacklisted
validate_jwt jwt now blacklist token = elim (jwt.parse now token) [
  | ok claims ↦ unless_blacklisted (lookup token blacklist) claims
  | fail e ↦ fail e
  | panic ↦ panic
]

pub blacklist_token : Time → Bytes → Bucket Time → Bucket Time
blacklist_token now token blacklist = insert token now blacklist

-- `now.Sub(addedAt) > tokenExpiry*2`
pub is_old : Time → ℕ → Time → Bool
is_old now expiry added_at = ltb (expiry * 2) (now - added_at)

pub cleanup_blacklist : Time → ℕ → Bucket Time → Bucket Time
unfolding is_old
cleanup_blacklist now expiry [] = []
cleanup_blacklist now expiry ((token, added_at) ∷ blacklist) =
    let rest = cleanup_blacklist now expiry blacklist in
    if is_old now expiry added_at then remove token rest else (token, added_at) ∷ rest

-- `roleHierarchy`
pub role_level : Bytes → Option ℕ
role_level role =
    if text_eq role (lit "viewer")
    then some 1
    else if text_eq role (lit "operator")
    then some 2
    else if text_eq role (lit "admin")
    then some 3
    else none

pub has_permission : Bytes → Bytes → Bool
unfolding role_level
has_permission role required = elim (role_level role) [
  | none ↦ false
  | some level ↦ elim (role_level required) [
    | none ↦ false
    | some required_level ↦ leb required_level level
  ]
]

pub delete_claimed : Result Claims → Bucket Session → Bucket Session
delete_claimed (ok claims) sessions =
    if is_empty claims.sid then sessions else remove claims.sid sessions
delete_claimed _ sessions = sessions

-- `Logout`, for the token of the cookie or the header.
pub logout : Jwt → Time → Bytes → AuthState → AuthState
unfolding blacklist_token validate_jwt delete_claimed
logout jwt now token st =
    if is_empty token
    then st
    else (let blacklist = blacklist_token now token st.blacklist in
        record st {
          blacklist = blacklist;
          sessions = delete_claimed (validate_jwt jwt now blacklist token) st.sessions;
        })

-- Whether the middleware lets a request with the claims pass, and the sessions after it. A session
-- that has expired is deleted.
pub check_session : Time → Claims → Bucket Session → Bool × Bucket Session
check_session now claims sessions =
    if is_empty claims.sid then (true, sessions) else elim (lookup claims.sid sessions) [
      | none ↦ (false, sessions)
      | some s ↦
          if ltb s.expires_at now then (false, remove claims.sid sessions) else (true, sessions)
    ]

pub check_claims : Time → Result Claims → Bucket Session → Bool × Bucket Session
unfolding check_session
check_claims now (ok claims) sessions = check_session now claims sessions
check_claims now _ sessions = (false, sessions)

-- A request with a token.
pub authenticate : Jwt → Time → Bytes → AuthState → Bool × AuthState
unfolding validate_jwt check_claims
authenticate jwt now token st =
    let (passed, sessions) =
      check_claims now (validate_jwt jwt now st.blacklist token) st.sessions in
    (passed, record st { sessions = sessions })
