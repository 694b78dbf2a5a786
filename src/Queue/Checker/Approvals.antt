-- ===== src/Queue/Checker/Approvals.antt =====
-- `isTransientError`, `fetchApprovals`, `filterWritePermission` and `checkCI` of checker.go.
pub mod Retry
use asika.Prelude.{
  ℕ, zero, suc, ◌+◌, Bool, true, false, ◌||◌, Option, none, some, List, [], ◌∷◌, ◌++◌, Bytes, lit,
  text_eq, is_empty, contains, any, get_last?, Err, plain, transient, error_text, Result, ok, fail,
  panic, ◌>>=◌, wrap_transient, if◌then◌else◌,
}
use asika.Models.{RepoGroup, PrRecord}
use asika.Models.Approval.{ApprovalStatus}
use asika.Config.{get_owner_repo_from_group}
use asika.Queue.World.{World, Client}

unfoldable pub transient_texts : List Bytes
transient_texts =
    lit "unexpected EOF"
    ∷ lit "connection reset"
    ∷ lit "connection refused"
    ∷ lit "timeout"
    ∷ lit "i/o timeout"
    ∷ lit "no such host"
    ∷ lit "temporary failure"
    ∷ lit "rate limit"
    ∷ lit "EOF"
    ∷ []

-- The test reads the text of the error, and not whether it is a `TransientError`.
unfoldable pub is_transient_error : Err → Bool
unfolding transient_texts
is_transient_error e = any (contains (error_text e)) transient_texts

-- The client of a platform and the repository that it serves; `client == nil` and an empty owner
-- or repository are told apart by the error, to whose text the caller adds `tail`.
unfoldable pub resolve_repo : World → PrRecord → RepoGroup → Bytes → Result (Client × Bytes × Bytes)
resolve_repo w pr group tail = elim (w.clients pr.platform) [
  | none ↦ fail (plain (lit "no client for platform: " ++ pr.platform))
  | some client ↦
      let (owner, repo) = get_owner_repo_from_group group pr.platform in
      if is_empty owner || is_empty repo
      then fail (plain (lit "cannot resolve repo for platform " ++ (pr.platform ++ tail)))
      else ok (client, owner, repo)
]

-- The rounds of the retry loop that are left, the number of the next attempt, the last error.
unfoldable pub fetch_from : (ℕ → Result ApprovalStatus) → ℕ → ℕ → Err → Result ApprovalStatus
fetch_from get zero attempt last = fail (transient last)
fetch_from get (suc left) attempt last = elim (get attempt) [
  | ok status ↦ ok status
  | fail e ↦ elim (is_transient_error e) [
    | true ↦ fetch_from get left (suc attempt) e
    | false ↦ fail e
  ]
  | panic ↦ panic
]

unfoldable pub fetch_approvals : World → PrRecord → RepoGroup → Result ApprovalStatus
unfolding resolve_repo fetch_from
fetch_approvals w pr group = do
  (client, owner, repo) ← resolve_repo w pr group (lit " in group " ++ group.name)
  fetch_from (λ attempt. client.get_approvals attempt owner repo pr.pr_number) 3 0 (plain [])

pub may_write : Client → Bytes → Bytes → Bytes → Bool
may_write client owner repo username = elim (client.has_write_permission owner repo username) [
  | ok b ↦ b
  | fail e ↦ false
  | panic ↦ false
]

pub keep_writers : Client → Bytes → Bytes → List Bytes → List Bytes
unfolding may_write
keep_writers client owner repo [] = []
keep_writers client owner repo (username ∷ rest) =
    let kept = keep_writers client owner repo rest in
    if may_write client owner repo username then username ∷ kept else kept

-- Its error is always nil. Without a client or a repository the approvers stay as they are.
unfoldable pub filter_write_permission : World → PrRecord → RepoGroup → List Bytes → List Bytes
unfolding resolve_repo keep_writers
filter_write_permission w pr group approvers = elim (resolve_repo w pr group []) [
  | ok (client, owner, repo) ↦ keep_writers client owner repo approvers
  | fail e ↦ approvers
  | panic ↦ approvers
]

pub last_commit_status : Client → Bytes → Bytes → List Bytes → Result (Bool × Bytes)
last_commit_status client owner repo commits = elim (get_last? commits) [
  | none ↦ ok (true, lit "none")
  | some commit ↦ do
    status ← wrap_transient (client.get_ci_status owner repo commit)
    ok (text_eq status (lit "success"), status)
]

-- Whether CI passed, and its status.
unfoldable pub check_ci : World → PrRecord → RepoGroup → Result (Bool × Bytes)
unfolding resolve_repo last_commit_status
check_ci w pr group = do
  (client, owner, repo) ← resolve_repo w pr group []
  commits ← wrap_transient (client.get_pr_commits owner repo pr.pr_number)
  last_commit_status client owner repo commits
