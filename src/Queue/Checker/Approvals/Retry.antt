-- ===== src/Queue/Checker/Approvals/Retry.antt =====
-- The retries of `fetchApprovals`.
use mathlib.Core.Path.{subst}
use asika.Prelude.{
  lit, ◌++◌, ℕ, zero, suc, ◌+◌, ◌≤◌, ◌<◌, ltb, ◌≡◌, refl, inl, inr, true, [], Bytes, Result, ok,
  fail, Err, plain, >>=-eq-ok, Bool-cases, Result-cases, arith,
}
use asika.Models.{PrRecord, RepoGroup}
use asika.Models.Approval.{ApprovalStatus}
use asika.Queue.World.{World, Client}
use asika.Queue.Checker.Approvals.{is_transient_error, fetch_from, fetch_approvals, resolve_repo}

abbrev pub HasFailed : Result ApprovalStatus → Type 0
HasFailed r = (e : Err) × (r ≡ fail e) × (is_transient_error e ≡ true)

-- The attempt `j` is the first that does not fail with a transient error, and it succeeds.
pub record IsAnswered (get : ℕ → Result ApprovalStatus) (from left : ℕ) (status : ApprovalStatus)
    : Type 0 where
  pub j : ℕ
  pub from-lem : from ≤ j
  pub left-lem : j < from + left
  pub get-lem : get j ≡ ok status
  pub failed-lem : (i : ℕ) → from ≤ i → i < j → HasFailed (get i)

next_answer :
    (get : ℕ → Result ApprovalStatus) (from left : ℕ) (status : ApprovalStatus)
    → HasFailed (get from)
    → IsAnswered get (suc from) left status
    → IsAnswered get from (suc left) status
next_answer get from left status failed a = record {
  j = a.j;
  from-lem = omega (arith, a.from-lem);
  left-lem = omega (arith, a.left-lem);
  get-lem = a.get-lem;
  failed-lem = λ i l u. elim (Bool-cases (ltb from i)) [
    | inl h ↦ a.failed-lem i (ground (arith, h)) u
    | inr h ↦
        let same : from ≡ i = ground (arith, h, l) in subst (λ n. HasFailed (get n)) same failed
  ];
}

fetch_from-IsAnswered :
    (get : ℕ → Result ApprovalStatus) (left attempt : ℕ) (last : Err) (status : ApprovalStatus)
    → fetch_from get left attempt last ≡ ok status
    → IsAnswered get attempt left status
unfolding fetch_from
fetch_from-IsAnswered get zero attempt last status h = cc
fetch_from-IsAnswered get (suc left) attempt last status h = elim (Result-cases (get attempt)) [
  | inl (s, k) ↦ record {
    j = attempt;
    from-lem = omega arith;
    left-lem = omega arith;
    get-lem = ground (arith, k, h);
    failed-lem = λ i l u. absurd (omega (arith, l, u));
  }
  | inr (inr k) ↦ absurd (ground (arith, k, h))
  | inr (inl (e, k)) ↦ elim (Bool-cases (is_transient_error e)) [
    | inr t ↦ absurd (ground (arith, k, t, h))
    | inl t ↦
        next_answer get attempt left status (e, k, t)
          (fetch_from-IsAnswered get left (suc attempt) e status (rw (k, t, fetch_from) at h))
  ]
]

-- If `fetchApprovals` returns a status, the group has a client and a repository for the pull
-- request, one of three attempts returned that status, and each attempt before failed with a
-- transient error.
pub fetch_approvals-IsAnswered :
    (w : World) (pr : PrRecord) (group : RepoGroup) (status : ApprovalStatus)
    → fetch_approvals w pr group ≡ ok status
    → (r : Client × Bytes × Bytes) × (resolve_repo w pr group (lit " in group " ++ group.name)
        ≡ ok r)
      × IsAnswered (λ attempt. r.0.get_approvals attempt r.1 r.2 pr.pr_number) 0 3 status
unfolding fetch_approvals
fetch_approvals-IsAnswered w pr group status h =
    let (r, found, k) = >>=-eq-ok (resolve_repo w pr group (lit " in group " ++ group.name)) _ h in
    (r, found, fetch_from-IsAnswered _ 3 0 (plain []) status k)

-- Transient errors do not stop the retries: if, of the attempts that are left, the first that does
-- not fail with a transient error returns a status, that is the result.
pub fetch_from-retries :
    (get : ℕ → Result ApprovalStatus) (left attempt : ℕ) (last : Err) (status : ApprovalStatus)
    → IsAnswered get attempt left status
    → fetch_from get left attempt last ≡ ok status
unfolding fetch_from
fetch_from-retries get zero attempt last status a = absurd (omega (arith, a.from-lem, a.left-lem))
fetch_from-retries get (suc left) attempt last status a = elim (Bool-cases (ltb attempt a.j)) [
  | inl h ↦
      let (e, k, t) = a.failed-lem attempt (omega arith) (ground (arith, h)) in
      rw (k, t, fetch_from)
        (fetch_from-retries get left (suc attempt) e status (record {
          j = a.j;
          from-lem = ground (arith, h);
          left-lem = omega (arith, a.left-lem);
          get-lem = a.get-lem;
          failed-lem = λ i l u. a.failed-lem i (omega (arith, l)) u;
        }))
  | inr h ↦
      let same : a.j ≡ attempt = ground (arith, h, a.from-lem) in
      let got : get attempt ≡ ok status = subst (λ n. get n ≡ ok status) same a.get-lem in
      rw (got, fetch_from) refl
]
