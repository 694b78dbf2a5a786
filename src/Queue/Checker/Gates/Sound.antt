-- ===== src/Queue/Checker/Gates/Sound.antt =====
-- What it means that a gate lets a pull request pass, and what the gates leave of the record.
use asika.Prelude.{
  ◌≡◌, refl, ◌⊎◌, inl, inr, Bool, true, false, not, ◌&&◌, Option, none, some, List, [], ◌∷◌, Bytes,
  Result, ok, fail, panic, arith, prefix_error, prefix_error-eq-ok, Bool-cases, if◌then◌else◌,
}
use asika.Models.{RepoGroup, PrRecord, DiffFile, PrSizeConfig, SecurityAlert}
use asika.Queue.World.{World, Client}
use asika.Queue.Check.{Check, CheckState, lift, and_then, pure, ◌>>=◌}
use asika.Queue.Check.Invert.{>>=-eq-ok, if-eq-ok}
use asika.Queue.Checker.Approvals.{resolve_repo}
use asika.Queue.Checker.Gates.{
  check_pr_size, size_verdict, is_exempt, is_too_big, label_unless_empty, check_pr_template,
  pr_body, is_body_missing, is_checklist_open, label_if_resolved, check_security, ask_alerts,
  record_alerts, scans, find_repo,
}

-- The diff that the platform reports is within the limits, or a label exempts the pull request.
pub record IsSizeOk (w : World) (pr : PrRecord) (group : RepoGroup) : Type 0 where
  pub repo : Client × Bytes × Bytes
  pub resolved : resolve_repo w pr group [] ≡ ok repo
  pub files : List DiffFile
  pub fetched : repo.0.get_pr_diff repo.1 repo.2 pr.pr_number ≡ ok files
  pub fits :
      (is_exempt group.pr_size_limits.exempt_labels pr.labels ≡ true)
      ⊎ (is_too_big group.pr_size_limits files ≡ false)

module _ {I A B : Type 0} where
  and_then-pr :
      (r : Result A) (f : A → Check I B) (s : CheckState I)
      → ((a : A) → (f a s).1.pr ≡ s.pr)
      → (and_then r f s).1.pr ≡ s.pr
  and_then-pr (ok a) f s h = h a
  and_then-pr (fail e) f s h = refl
  and_then-pr panic f s h = refl

module _ {I : Type 0} where
  if-pr :
      (b : Bool) (m n : Check I Bool) (s : CheckState I)
      → (m s).1.pr ≡ s.pr
      → (n s).1.pr ≡ s.pr
      → ((if b then m else n) s).1.pr ≡ s.pr
  if-pr true m n s hm hn = hm
  if-pr false m n s hm hn = hn

module _ {I : Type 0} (w : World) (group : RepoGroup) where
  size_verdict_sound :
      (cfg : PrSizeConfig) (files : List DiffFile) (s : CheckState I)
      → (size_verdict cfg files s).0 ≡ ok true
      → is_too_big cfg files ≡ false
  unfolding size_verdict label_unless_empty
  size_verdict_sound cfg files s h = ground arith

  size_verdict-pr :
      (cfg : PrSizeConfig) (files : List DiffFile) (s : CheckState I)
      → (size_verdict cfg files s).1.pr ≡ s.pr
  unfolding size_verdict label_unless_empty
  size_verdict-pr cfg files s = ground arith

  pub check_pr_size-pr : (s : CheckState I) → (check_pr_size w group s).1.pr ≡ s.pr
  unfolding check_pr_size
  check_pr_size-pr s = and_then-pr (resolve_repo w s.pr group []) _ s λ r.
      and_then-pr (prefix_error _ (r.0.get_pr_diff r.1 r.2 s.pr.pr_number)) _ s λ files.
        if-pr (is_exempt group.pr_size_limits.exempt_labels s.pr.labels) _ _ s refl
          (size_verdict-pr group.pr_size_limits files s)

  pub check_pr_size_sound :
      (s : CheckState I) → (check_pr_size w group s).0 ≡ ok true → IsSizeOk w s.pr group
  unfolding check_pr_size
  check_pr_size_sound s h =
      let (r, resolved, h') = >>=-eq-ok (lift (resolve_repo w s.pr group [])) _ s h in
      let (files, fetched, h'') =
        >>=-eq-ok (lift (prefix_error _ (r.0.get_pr_diff r.1 r.2 s.pr.pr_number))) _ s h' in
      record {
        repo = r;
        resolved = resolved;
        files = files;
        fetched = prefix_error-eq-ok _ _ fetched;
        fits =
            elim (if-eq-ok (is_exempt group.pr_size_limits.exempt_labels s.pr.labels) _ _ s h'') [
              | inl (e, _) ↦ inl e
              | inr (_, k) ↦ inr (size_verdict_sound group.pr_size_limits files s k)
            ];
      }

-- The description satisfies the template, or nothing asks that it does.
abbrev pub IsTemplateOk : World → PrRecord → RepoGroup → Type 0
IsTemplateOk w pr group =
    (is_exempt group.pr_template.exempt_labels pr.labels ≡ true)
    ⊎ ((group.pr_template.block_merge ≡ false)
        ⊎ ((is_body_missing group.pr_template (pr_body w pr group) ≡ false)
            × (is_checklist_open group.pr_template (pr_body w pr group) ≡ false)))

-- The platform was asked and reported no alert, or the group does not ask it.
abbrev pub IsSecure : World → PrRecord → RepoGroup → Type 0
IsSecure w pr group =
    (scans group ≡ false)
    ⊎ ((find_repo w pr group ≡ none)
        ⊎ ((repo : Client × Bytes × Bytes) × (find_repo w pr group ≡ some repo)
            × (repo.0.has_security_alerts repo.1 repo.2 pr.pr_number ≡ ok [])))

-- The record that the later gates read differs from the one that the security check was given at
-- most in the alerts that it wrote.
abbrev pub DiffersInAlerts : PrRecord → PrRecord → Type 0
DiffersInAlerts pr seen =
    (blocked : Bool) × (alerts : List SecurityAlert) × (seen
      ≡ record pr { security_blocked = blocked; security_alerts = alerts })

DiffersInAlerts-refl : (pr : PrRecord) → DiffersInAlerts pr pr
DiffersInAlerts-refl pr = (pr.security_blocked, pr.security_alerts, refl)

module _ {I : Type 0} (w : World) (group : RepoGroup) where
  labelled-verdict :
      (pr : PrRecord) (label : Bytes) (b : Bool) (s : CheckState I)
      → ((label_if_resolved w pr group label >>= λ _. pure b) s).0 ≡ ok b
  unfolding label_if_resolved label_unless_empty
  labelled-verdict pr label b s = ground arith

  labelled-pr :
      (pr : PrRecord) (label : Bytes) (b : Bool) (s : CheckState I)
      → ((label_if_resolved w pr group label >>= λ _. pure b) s).1.pr ≡ s.pr
  unfolding label_if_resolved label_unless_empty
  labelled-pr pr label b s = ground arith

  pub check_pr_template-pr : (s : CheckState I) → (check_pr_template w group s).1.pr ≡ s.pr
  unfolding check_pr_template
  check_pr_template-pr s =
      if-pr (is_exempt group.pr_template.exempt_labels s.pr.labels) _ _ s refl (
        if-pr (is_body_missing _ _ && group.pr_template.block_merge) _ _ s refl (
          if-pr (is_checklist_open _ _) _ _ s
            (labelled-pr s.pr group.pr_template.incomplete_label _ s) refl))

  pub check_pr_template_sound :
      (s : CheckState I) → (check_pr_template w group s).0 ≡ ok true → IsTemplateOk w s.pr group
  unfolding check_pr_template
  check_pr_template_sound s h = ground (
    arith,
    labelled-verdict s.pr group.pr_template.incomplete_label (not group.pr_template.block_merge) s,
  )

  record_alerts_sound :
      (pr : PrRecord) (r : Result (List SecurityAlert)) (s : CheckState I)
      → (record_alerts pr r s).0 ≡ ok true
      → r ≡ ok []
  unfolding record_alerts
  record_alerts_sound pr (fail e) s h = cc
  record_alerts_sound pr panic s h = cc
  record_alerts_sound pr (ok []) s h = refl
  record_alerts_sound pr (ok (alert ∷ alerts)) s h = cc

  ask_alerts_sound :
      (pr : PrRecord) (r : Option (Client × Bytes × Bytes)) (s : CheckState I)
      → find_repo w pr group ≡ r
      → (ask_alerts pr r s).0 ≡ ok true
      → (find_repo w pr group ≡ none)
        ⊎ ((repo : Client × Bytes × Bytes) × (find_repo w pr group ≡ some repo)
            × (repo.0.has_security_alerts repo.1 repo.2 pr.pr_number ≡ ok []))
  unfolding ask_alerts
  ask_alerts_sound pr none s e h = inl e
  ask_alerts_sound pr (some repo) s e h = inr (repo, e, record_alerts_sound pr _ s h)

  pub check_security_sound :
      (s : CheckState I) → (check_security w group s).0 ≡ ok true → IsSecure w s.pr group
  unfolding check_security
  check_security_sound s h = elim (if-eq-ok (not (scans group)) _ _ s h) [
    | inl (e, _) ↦ inl (ground arith)
    | inr (_, k) ↦ inr (ask_alerts_sound s.pr (find_repo w s.pr group) s refl k)
  ]

  record_alerts-pr :
      (pr : PrRecord) (r : Result (List SecurityAlert)) (s : CheckState I)
      → s.pr ≡ pr
      → DiffersInAlerts pr (record_alerts pr r s).1.pr
  unfolding record_alerts
  record_alerts-pr pr (fail e) s h = (pr.security_blocked, pr.security_alerts, h)
  record_alerts-pr pr panic s h = (pr.security_blocked, pr.security_alerts, h)
  record_alerts-pr pr (ok []) s h = (false, [], refl)
  record_alerts-pr pr (ok (alert ∷ alerts)) s h = (true, alert ∷ alerts, refl)

  ask_alerts-pr :
      (r : Option (Client × Bytes × Bytes)) (s : CheckState I)
      → DiffersInAlerts s.pr (ask_alerts s.pr r s).1.pr
  unfolding ask_alerts
  ask_alerts-pr none s = DiffersInAlerts-refl s.pr
  ask_alerts-pr (some repo) s = record_alerts-pr s.pr _ s refl

  pub check_security-pr : (s : CheckState I) → DiffersInAlerts s.pr (check_security w group s).1.pr
  unfolding check_security
  check_security-pr s = elim (Bool-cases (scans group)) [
    | inl e ↦ rw e (ask_alerts-pr (find_repo w s.pr group) s)
    | inr e ↦ rw e (DiffersInAlerts-refl s.pr)
  ]
