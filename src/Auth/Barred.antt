-- ===== src/Auth/Barred.antt =====
-- A token that was logged out is never accepted again.
use asika.Prelude.{
  ℕ, ◌+◌, ◌*◌, ◌≤◌, ◌<◌, ◌≡◌, ◌⊎◌, refl, inl, inr, true, false, none, some, List, [], ◌∷◌, Bytes,
  text_eq, text_eq_refl, is_empty, ok, arith, Bool-cases, if-lem,
}
use asika.Models.{Time, second}
use asika.Db.{Bucket, lookup, insert}
use asika.Db.Laws.{lookup-insert, lookup-remove}
use asika.Auth.{
  Claims, Jwt, Session, AuthState, unix, validate_jwt, unless_blacklisted, blacklist_token, is_old,
  cleanup_blacklist, logout, authenticate,
}

-- One event, after a time has passed.
pub data Operation : Type 0 where
  request_at logout_at : ℕ → Bytes → Operation
  login_at : ℕ → Session → Operation
  cleanup_at : ℕ → Operation

unfoldable pub step : Jwt → Time → Operation → AuthState → Time × AuthState
step jwt now (request_at d token) st = (now + d, (authenticate jwt (now + d) token st).1)
step jwt now (logout_at d token) st = (now + d, logout jwt (now + d) token st)
step jwt now (login_at d s) st = (now + d, record st { sessions = insert s.id s st.sessions })
step jwt now (cleanup_at d) st =
    (now + d, record st { blacklist = cleanup_blacklist (now + d) st.token_expiry st.blacklist })

unfoldable pub run : Jwt → Time → List Operation → AuthState → Time × AuthState
unfolding step
run jwt now [] st = (now, st)
run jwt now (o ∷ os) st = let (now', st') = step jwt now o st in run jwt now' os st'

module _ (jwt : Jwt) (token : Bytes) (issued expiry : ℕ) where
  -- The token is on the list since it was issued or later, or its time is over.
  IsBarred : Time → Bucket Time → Type 0
  IsBarred now blacklist =
      ((at : Time) × (lookup token blacklist ≡ some at) × (issued ≤ at)) ⊎ (issued + expiry ≤ now)

  lookup-cleanup_blacklist :
      (now : Time) (blacklist : Bucket Time) (at : Time)
      → lookup token blacklist ≡ some at
      → (lookup token (cleanup_blacklist now expiry blacklist) ≡ some at)
        ⊎ (is_old now expiry at ≡ true)
  unfolding cleanup_blacklist lookup
  lookup-cleanup_blacklist now [] at h = cc
  lookup-cleanup_blacklist now ((t, added_at) ∷ blacklist) at h =
      elim (Bool-cases (text_eq t token)) [
        | inl y ↦ elim (Bool-cases (is_old now expiry added_at)) [
          | inr x ↦ inl (rw (x, cleanup_blacklist) (ground (arith, h, y)))
          | inl x ↦ inr (ground (arith, h, x, y))
        ]
        | inr n ↦
            let rest = lookup-cleanup_blacklist now blacklist at (ground (arith, h, n)) in
            elim (Bool-cases (is_old now expiry added_at)) [
              | inr x ↦ rw (x, cleanup_blacklist) (ground (arith, n, rest))
              | inl x ↦
                  rw (x, cleanup_blacklist)
                    (ground (
                      arith,
                      n,
                      rest,
                      lookup-remove t token (cleanup_blacklist now expiry blacklist),
                    ))
            ]
      ]

  later-IsBarred :
      (now d : ℕ) (blacklist : Bucket Time) → IsBarred now blacklist → IsBarred (now + d) blacklist
  unfolding IsBarred
  later-IsBarred now d blacklist (inl h) = inl h
  later-IsBarred now d blacklist (inr h) = inr (omega (arith, h))

  cleanup_blacklist-IsBarred :
      (now : Time) (blacklist : Bucket Time)
      → IsBarred now blacklist
      → IsBarred now (cleanup_blacklist now expiry blacklist)
  unfolding IsBarred is_old
  cleanup_blacklist-IsBarred now blacklist (inr h) = inr h
  cleanup_blacklist-IsBarred now blacklist (inl (at, e, h)) =
      elim (lookup-cleanup_blacklist now blacklist at e) [
        | inl k ↦ inl (at, k, h)
        | inr old ↦ inr (ground (arith, h, old))
      ]

  blacklist_token-IsBarred :
      (now : Time) (t : Bytes) (blacklist : Bucket Time)
      → issued ≤ now
      → IsBarred now blacklist
      → IsBarred now (blacklist_token now t blacklist)
  unfolding IsBarred blacklist_token
  blacklist_token-IsBarred now t blacklist i (inr h) = inr h
  blacklist_token-IsBarred now t blacklist i (inl (at, e, h)) =
      elim (Bool-cases (text_eq t token)) [
        | inl y ↦ inl (now, rw (lookup-insert t token now blacklist, y) refl, i)
        | inr n ↦ inl (at, rw (lookup-insert t token now blacklist, n) e, h)
      ]

  logout-IsBarred :
      (now : Time) (t : Bytes) (st : AuthState)
      → issued ≤ now
      → IsBarred now st.blacklist
      → IsBarred now (logout jwt now t st).blacklist
  unfolding logout
  logout-IsBarred now t st i h = elim (Bool-cases (is_empty t)) [
    | inl k ↦ rw (k, logout) h
    | inr k ↦ rw (k, logout) (blacklist_token-IsBarred now t st.blacklist i h)
  ]

  -- What every event keeps.
  IsClosed : Time × AuthState → Type 0
  IsClosed (now, st) = (issued ≤ now) × IsBarred now st.blacklist × (st.token_expiry ≡ expiry)

  step-IsClosed :
      (o : Operation) (now : Time) (st : AuthState)
      → IsClosed (now, st)
      → IsClosed (step jwt now o st)
  unfolding step IsClosed authenticate logout
  step-IsClosed (request_at d t) now st (i, h, e) =
      (omega (arith, i), later-IsBarred now d st.blacklist h, e)
  step-IsClosed (login_at d s) now st (i, h, e) =
      (omega (arith, i), later-IsBarred now d st.blacklist h, e)
  step-IsClosed (cleanup_at d) now st (i, h, e) = (
    omega (arith, i),
    rw e (cleanup_blacklist-IsBarred (now + d) st.blacklist (later-IsBarred now d st.blacklist h)),
    e,
  )
  step-IsClosed (logout_at d t) now st (i, h, e) = (
    omega (arith, i),
    logout-IsBarred (now + d) t st (omega (arith, i)) (later-IsBarred now d st.blacklist h),
    if-lem (λ (s : AuthState). s.token_expiry ≡ expiry) (is_empty t) _ _ e e,
  )

  run-IsClosed :
      (os : List Operation) (now : Time) (st : AuthState)
      → IsClosed (now, st)
      → IsClosed (run jwt now os st)
  unfolding run
  run-IsClosed [] now st h = h
  run-IsClosed (o ∷ os) now st h =
      run-IsClosed os (step jwt now o st).0 (step jwt now o st).1 (step-IsClosed o now st h)

  validate_jwt-eq-ok :
      (now : Time) (blacklist : Bucket Time) (c : Claims)
      → validate_jwt jwt now blacklist token ≡ ok c
      → (jwt.parse now token ≡ ok c) × (lookup token blacklist ≡ none)
  unfolding validate_jwt unless_blacklisted
  validate_jwt-eq-ok now blacklist c h = ground (arith, h)

-- `GenerateJWT` and `GenerateJWTWithSession` let a token end one expiry after its issue. A token that
-- ends so and that `Logout` gets at the time of its issue or later is not accepted by `ValidateJWT`
-- at any later time: whatever requests, logouts, logins and cleanups of the blacklist come in
-- between. The package golang-jwt is taken to give back the claims that were signed, and to refuse a
-- token from the second of its `exp` on.
pub run-barred :
    (jwt : Jwt) (token : Bytes) (issued now : Time) (st : AuthState) (os : List Operation) (d : ℕ)
    (c : Claims)
    → is_empty token ≡ false
    → issued ≤ now
    → ((at : Time) (claims : Claims)
        → jwt.parse at token ≡ ok claims
        → claims.exp ≡ unix (issued + st.token_expiry))
    → ((at : Time) (claims : Claims) → jwt.parse at token ≡ ok claims → at < claims.exp * second)
    → ¬ (
        validate_jwt jwt
          ((run jwt now os (logout jwt now token st)).0 + d)
          (run jwt now os (logout jwt now token st)).1.blacklist
          token
        ≡ ok c)
unfolding logout blacklist_token IsClosed IsBarred unix
run-barred jwt token issued now st os d c named i signed fresh h =
    let out : AuthState = logout jwt now token st in
    let end : Time × AuthState = run jwt now os out in
    let listed : IsBarred jwt token issued st.token_expiry now out.blacklist =
      rw (named, logout)
        (inl (now, rw (lookup-insert token token now st.blacklist, text_eq_refl token) refl, i)) in
    let kept : out.token_expiry ≡ st.token_expiry = rw (named, logout) refl in
    let closed = run-IsClosed jwt token issued st.token_expiry os now out (i, listed, kept) in
    let (parsed, unlisted) =
      validate_jwt-eq-ok jwt token issued st.token_expiry (end.0 + d) end.1.blacklist c h in
    elim closed.1 [
      | inl (at, e, _) ↦ ground (arith, e, unlisted)
      | inr over ↦ omega (arith, over, signed (end.0 + d) c parsed, fresh (end.0 + d) c parsed)
    ]
