-- ===== src/Auth/Tests.antt =====
-- Runs of logins and logouts.
use asika.Prelude.{
  ◌≡◌, ◌+◌, ◌*◌, ltb, ◌<◌, refl, false, ok, fail, plain, [], ◌∷◌, lit, arith, if◌then◌else◌,
}
use asika.Models.{Time, second}
use asika.Auth.{Claims, Jwt, AuthState, unix, logout, validate_jwt}
use asika.Auth.Barred.{run, cleanup_at, run-barred}
use asika.Auth.Logout.{logout-sessions}

abbrev issued : Claims
issued = record {
  username = lit "al";
  role = lit "admin";
  exp = 70;
  iat = 10;
  jti = [];
  sid = lit "s1";
  temp = false;
}

-- One token, which is good until second 70.
abbrev jwt : Jwt
jwt = record {
  parse = λ now token. if ltb now (70 * second) then ok issued else fail (plain (lit "expired"));
  sign = λ claims. ok (lit "t1");
}

abbrev start : AuthState
start = record {
  token_expiry = 60 * second;
  blacklist = [];
  sessions =
      (lit "s1", record { id = lit "s1"; username = lit "al"; expires_at = 70 * second }) ∷ [];
}

signed :
    (at : Time) (claims : Claims)
    → jwt.parse at (lit "t1") ≡ ok claims
    → claims.exp ≡ unix (10 * second + start.token_expiry)
unfolding unix
signed at claims h = ground (arith, h)

fresh :
    (at : Time) (claims : Claims) → jwt.parse at (lit "t1") ≡ ok claims → at < claims.exp * second
fresh at claims h = ground (arith, h)

run-barred_example : ¬ (
    validate_jwt jwt
      ((run jwt
          (20 * second)
          (cleanup_at (200 * second) ∷ [])
          (logout jwt (20 * second) (lit "t1") start)).0
        + 5)
      (run jwt
        (20 * second)
        (cleanup_at (200 * second) ∷ [])
        (logout jwt (20 * second) (lit "t1") start)).1.blacklist
      (lit "t1")
    ≡ ok issued)
unfolding lit
run-barred_example =
    run-barred jwt (lit "t1") (10 * second) (20 * second) start (cleanup_at (200 * second) ∷ []) 5
      issued refl (omega arith) signed fresh

logout-sessions_example : (logout jwt (20 * second) (lit "t1") start).sessions ≡ start.sessions
logout-sessions_example = logout-sessions jwt (20 * second) (lit "t1") start
