-- ===== src/Queue/Samples.antt =====
-- A small world for runs of the queue: one client that fails once before it reports approvals.
use asika.Prelude.{
  ℕ, zero, suc, true, false, none, some, [], ◌∷◌, lit, text_eq, Result, ok, fail, plain, inl,
}
use asika.Prelude.Int.{pos}
use asika.Models.{
  RepoGroup, MergeStrategyRule, Config, PrRecord, QueueItem, QueueStatus, ValidationStatus,
}
use asika.Models.Rules.{LabelRule, AutoMergeRule}
use asika.Models.Approval.{ApprovalStatus}
use asika.Queue.World.{World, Client}
use asika.Queue.Store.{State}
use asika.Queue.Expr.Tests.{whole}

abbrev pub approvals : ℕ → Result ApprovalStatus
approvals zero = fail (plain (lit "timeout"))
approvals (suc n) = ok (record { approvers = lit "bob" ∷ lit "eve" ∷ []; blockers = [] })

abbrev pub pull : PrRecord
pull = record {
  id = lit "p1";
  repo_group = lit "g";
  platform = lit "github";
  pr_number = 7;
  title = lit "fix it";
  author = lit "al";
  state = lit "open";
  labels = [];
  merge_commit_sha = [];
  spam_flag = false;
  created_at = 1;
  updated_at = 1;
  events = [];
  is_draft = false;
  has_conflict = false;
  branch_info = none;
  body = lit "a fix for it";
  security_blocked = false;
  security_alerts = [];
}

abbrev pub client : Client
client = record {
  get_approvals = λ attempt o r n. approvals attempt;
  has_write_permission = λ o r user. ok (text_eq user (lit "bob"));
  get_pr_commits = λ o r n. ok (lit "c1" ∷ []);
  get_ci_status = λ o r sha. ok (lit "success");
  get_diff_files = λ o r n. ok (lit "docs" ∷ []);
  get_pr_diff = λ o r n. ok (record { additions = 3; deletions = 1 } ∷ []);
  get_pr_body = λ o r n. ok (lit "a fix for it");
  get_pr_branch_info = λ o r n. inl (plain (lit "no branch"));
  has_security_alerts = λ o r n. ok [];
  get_default_merge_method = λ o r. ok (lit "squash");
  merge_pr = λ o r n m. none;
  get_pr = λ o r n. ok none;
  list_prs = λ o r. ok (some pull ∷ none ∷ []);
  add_label = λ o r n l c. none;
  remove_label = λ o r n l. none;
  close_pr = λ o r n. none;
}

abbrev pub world : World
world = record {
  floats = whole;
  now = 100;
  clients = λ p. some client;
  path_match = λ p f. text_eq p f;
  regex = λ p. some (λ f. text_eq p f);
  rebase = λ p o r i. none;
  put_error = λ k. none;
  delete_error = λ k. none;
  index_error = λ i g. none;
  get_error = λ k. none;
  scan_error = λ p. none;
  item_tie = λ a b. false;
  rule_tie = λ a b. false;
}

abbrev pub urgent_rule : MergeStrategyRule
urgent_rule = record {
  name = lit "urgent";
  pattern = lit "fix";
  labels = [];
  merge_method = lit "rebase";
  priority = pos 5;
}

abbrev pub docs_rule : LabelRule
docs_rule = record {
  pattern = lit "docs";
  label = lit "doc";
  color = [];
  conditions = [];
  logic = [];
  priority = pos 1;
  exclusive = false;
}

abbrev pub title_rule : LabelRule
title_rule = record {
  pattern = [];
  label = lit "fix";
  color = lit "ff0000";
  conditions = record { pattern = lit "title:fix it" } ∷ record { pattern = lit "author:al" } ∷ [];
  logic = [];
  priority = pos 2;
  exclusive = false;
}

abbrev pub auto_rule : AutoMergeRule
auto_rule = record {
  name = lit "auto";
  labels = [];
  required_approvals = pos 0;
  ci_required = true;
  exclude_labels = lit "hold" ∷ [];
  exclude_authors = lit "bot" ∷ [];
  enabled = true;
}

abbrev pub group : RepoGroup
group = record {
  name = lit "g";
  mode = lit "single";
  mirror_platform = lit "github";
  github = lit "o/r";
  gitlab = [];
  gitea = [];
  forgejo = [];
  codeberg = [];
  bitbucket = [];
  gerrit = [];
  ci_provider = [];
  merge_queue = record {
    required_approvals = pos 1;
    ci_check_required = true;
    core_contributors = [];
    fast_forward_only = false;
    expression = [];
    security_scan = record { enabled = true; block_on_alerts = true };
    merge_strategy_rules = urgent_rule ∷ [];
    default_merge_method = [];
  };
  approval_rules =
      record { pattern = lit "docs"; approvers = lit "bob" ∷ []; min_count = pos 1 } ∷ [];
  pr_size_limits = record {
    enabled = true;
    lines_changed_warn = pos 10;
    lines_changed_block = pos 20;
    files_changed_warn = pos 10;
    files_changed_block = pos 20;
    block_merge = true;
    big_pr_label = lit "big";
    warn_pr_label = lit "large";
    exempt_labels = [];
  };
  pr_template = record {
    enabled = true;
    require_body = true;
    require_checklist = false;
    block_merge = true;
    incomplete_label = [];
    exempt_labels = [];
  };
  label_rules = title_rule ∷ [];
}

abbrev pub config : Config
config = record {
  repo_groups = group ∷ [];
  label_rules = docs_rule ∷ [];
  auto_merge = record { enabled = true; rules = auto_rule ∷ [] };
  stale = record {
    enabled = true;
    days_until_stale = pos 30;
    days_until_close = pos 7;
    stale_label = [];
    exempt_labels = lit "keep" ∷ [];
    exclude_authors = lit "bot" ∷ [];
    notify_on_stale = false;
    comment_on_stale = [];
    comment_on_close = [];
    remove_on_activity = true;
    skip_draft_prs = true;
  };
}

abbrev pub item : QueueItem
item = record {
  pr_id = lit "p1";
  repo_group = lit "g";
  status = QueueStatus.waiting;
  added_at = 5;
  last_checked = 0;
  failure_reason = [];
  retry_count = 0;
  next_retry_at = 0;
  criteria = record { required_approvals = pos 1; approved_by = []; ci_status = lit "pending" };
  schedule_at = 0;
  validation_status = ValidationStatus.unset;
  validation_started = 0;
  validation_detail = [];
  priority = pos 0;
  security_blocked = false;
  security_override = [];
}

-- An item that is more urgent.
abbrev pub urgent : QueueItem
urgent = record item { pr_id = lit "p2"; priority = pos 3 }

abbrev pub state : State
state = record {
  queue = (lit "g#p1", some item) ∷ [];
  store = record { prs = (lit "g#github#7", some pull) ∷ []; by_id = []; by_number = [] };
  merges = [];
  events = [];
  labeled = [];
  busy = false;
}
