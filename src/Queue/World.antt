-- ===== src/Queue/World.antt =====
-- What the packages of the daemon call and do not implement: the platform clients
-- (common/platforms), git (common/gitutil), the packages path and regexp, the clock. One value of
-- `World` holds the answers during one check.
use asika.Prelude.{ℕ, ◌⊎◌, inl, inr, Bool, Option, List, Bytes, Result, ok, fail, Err}
use asika.Models.{
  Time, PrRecord, PrBranchInfo, DiffFile, SecurityAlert, QueueItem, MergeStrategyRule,
}
use asika.Models.Approval.{ApprovalStatus}
use asika.Queue.Expr.Values.{Floats}

pub result_of : {A : Type 0} → Err ⊎ A → Result A
result_of (inl e) = fail e
result_of (inr a) = ok a

-- The methods of `PlatformClient` that they call, on owner, repository and number.
pub record Client : Type 0 where
  -- The answer of one attempt, counted from 0.
  pub get_approvals : ℕ → Bytes → Bytes → ℕ → Result ApprovalStatus
  pub has_write_permission : Bytes → Bytes → Bytes → Result Bool
  pub get_pr_commits : Bytes → Bytes → ℕ → Result (List Bytes)
  pub get_ci_status : Bytes → Bytes → Bytes → Result Bytes
  pub get_diff_files : Bytes → Bytes → ℕ → Result (List Bytes)
  pub get_pr_diff : Bytes → Bytes → ℕ → Result (List DiffFile)
  pub get_pr_body : Bytes → Bytes → ℕ → Result Bytes
  -- Every client of common/platforms returns an error or a record that is not nil.
  pub get_pr_branch_info : Bytes → Bytes → ℕ → Err ⊎ PrBranchInfo
  pub has_security_alerts : Bytes → Bytes → ℕ → Result (List SecurityAlert)
  pub get_default_merge_method : Bytes → Bytes → Result Bytes
  -- `MergePR` with a method; `none` is success.
  pub merge_pr : Bytes → Bytes → ℕ → Bytes → Option Err
  pub get_pr : Bytes → Bytes → ℕ → Result (Option PrRecord)
  -- The open pull requests; `none` is a nil record.
  pub list_prs : Bytes → Bytes → Result (List (Option PrRecord))
  -- A label with its colour; `none` is success, here and below.
  pub add_label : Bytes → Bytes → ℕ → Bytes → Bytes → Option Err
  pub remove_label : Bytes → Bytes → ℕ → Bytes → Option Err
  pub close_pr : Bytes → Bytes → ℕ → Option Err

pub record World : Type 1 where
  pub floats : Floats
  pub now : Time
  -- The map `clients`, by the name of a platform.
  pub clients : Bytes → Option Client
  -- `path.Match(pattern, file)` without its error.
  pub path_match : Bytes → Bytes → Bool
  -- `regexp.Compile(pattern)` and `re.MatchString`.
  pub regex : Bytes → Option (Bytes → Bool)
  -- `gitutil.Rebase` of a branch of platform, owner and repository; `none` is success.
  pub rebase : Bytes → Bytes → Bytes → PrBranchInfo → Option Err
  -- The error of a `Put` or a `Delete` of the database at a key, if it fails.
  pub put_error : Bytes → Option Err
  pub delete_error : Bytes → Option Err
  -- The error of a read, if it fails: `GetPRByIndex` of an id and a group, `Get` of a key, and a scan of
  -- the keys with a prefix, the whole bucket for the empty prefix.
  pub index_error : Bytes → Bytes → Option Err
  pub get_error : Bytes → Option Err
  pub scan_error : Bytes → Option Err
  -- `sort.Slice` leaves the order of equal elements open: whether the first is put in front.
  pub item_tie : QueueItem → QueueItem → Bool
  pub rule_tie : MergeStrategyRule → MergeStrategyRule → Bool
