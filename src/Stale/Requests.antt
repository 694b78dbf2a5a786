-- ===== src/Stale/Requests.antt =====
-- What the check asks of the platforms, and what the dry run lists.
use asika.Prelude.{
  ℕ, ◌≡◌, refl, sym, ap, ◌∙◌, inl, inr, ◌&&◌, Option, none, some, List, [], ◌∷◌, ◌++◌, Bytes, lit,
  Bool-cases, Option-cases,
}
use asika.Prelude.Int.{geq_int}
use mathlib.Core.List.{append-nil, append_assoc}
use asika.Models.{PrRecord}
use asika.Models.Rules.{StaleConfig}
use asika.Queue.World.{Client}
use asika.Stale.{
  StaleWorld, StaleState, StaleAction, ActionType, mark, close, skip, Call, add_label, remove_label,
  comment, has_label, label_base, days_inactive, is_author_excluded, is_exempt, is_due_to_close,
  action, analyze_pr, called, marked, mark_stale, auto_close,
}
use asika.Stale.Check.{process_pr, process_listed, located, act_if, analyze_listed}

-- To mark or to close a pull request of a repository.
pub record Request : Type 0 where
  pub type : ActionType
  pub repo : Bytes
  pub number : ℕ

abbrev pub request : ActionType → Bytes → Bytes → ℕ → List Request
request type owner repo number =
    record { type = type; repo = owner ++ (lit "/" ++ repo); number = number } ∷ []

pub of_call : Call → List Request
of_call (add_label (owner, repo) number label) = request mark owner repo number
of_call (remove_label (owner, repo) number label) = []
of_call (comment (owner, repo) number text) = []
of_call (Call.close (owner, repo) number) = request close owner repo number

pub requests : List Call → List Request
unfolding of_call
requests [] = []
requests (c ∷ calls) = of_call c ++ requests calls

pub of_action : ActionType → StaleAction → List Request
of_action skip act = []
of_action type act = record { type = type; repo = act.repo; number = act.pr_number } ∷ []

unfoldable pub planned : List StaleAction → List Request
unfolding of_action
planned [] = []
planned (act ∷ acts) = of_action act.type act ++ planned acts

requests-append : (xs ys : List Call) → requests (xs ++ ys) ≡ requests xs ++ requests ys
unfolding requests
requests-append [] ys = refl
requests-append (c ∷ xs) ys =
    ap (λ (r : List Request). of_call c ++ r) (requests-append xs ys)
    ∙ sym (append_assoc (of_call c) (requests xs) (requests ys))

pub planned-append : (xs ys : List StaleAction) → planned (xs ++ ys) ≡ planned xs ++ planned ys
unfolding planned
planned-append [] ys = refl
planned-append (act ∷ xs) ys =
    ap (λ (r : List Request). of_action act.type act ++ r) (planned-append xs ys)
    ∙ sym (append_assoc (of_action act.type act) (planned xs) (planned ys))

-- The state grows by these requests.
abbrev pub Grows : StaleState → List Request → StaleState → Type 0
Grows st new after = requests after.calls ≡ requests st.calls ++ new

called-Grows : (c : Call) (st : StaleState) → Grows st (of_call c) (called c st)
unfolding called requests
called-Grows c st =
    requests-append st.calls (c ∷ [])
    ∙ ap (λ (r : List Request). requests st.calls ++ r) (append-nil (of_call c))

module _ (w : StaleWorld) (cfg : StaleConfig) (client : Client)
    (group platform owner repo : Bytes) where
  mark_stale-Grows :
      (pr : PrRecord) (st : StaleState)
      → Grows st
          (request mark owner repo pr.pr_number)
          (mark_stale w cfg client group owner repo pr st)
  unfolding mark_stale marked of_call
  mark_stale-Grows pr st =
      let c = add_label (owner, repo) pr.pr_number (label_base cfg) in
      elim (Option-cases
        (client.add_label owner repo pr.pr_number (label_base cfg) (lit "cccccc"))) [
          | inr (e, k) ↦ rw (k, mark_stale) (called-Grows c st)
          | inl k ↦
              rw (k, mark_stale)
                (called-Grows _ (called c st)
                  ∙ append-nil (requests (called c st).calls)
                  ∙ called-Grows c st)
        ]

  auto_close-Grows :
      (pr : PrRecord) (st : StaleState)
      → Grows st
          (request close owner repo pr.pr_number)
          (auto_close cfg client group owner repo pr st)
  unfolding auto_close of_call
  auto_close-Grows pr st =
      let c = Call.close (owner, repo) pr.pr_number in
      elim (Option-cases (client.close_pr owner repo pr.pr_number)) [
        | inr (e, k) ↦ rw (k, auto_close) (called-Grows c st)
        | inl k ↦
            rw (k, auto_close)
              (called-Grows _ (called c st)
                ∙ append-nil (requests (called c st).calls)
                ∙ called-Grows c st)
      ]

  abbrev pub plans : PrRecord → List Request
  plans pr = planned (act_if platform owner repo (analyze_pr w cfg pr))

  process_pr-Grows :
      (pr : PrRecord) (st : StaleState)
      → Grows st (plans pr) (process_pr w cfg client group owner repo pr st)
  unfolding process_pr analyze_pr act_if located action planned of_action
  process_pr-Grows pr st =
      let same : requests st.calls ≡ requests st.calls ++ [] =
        sym (append-nil (requests st.calls)) in
      elim (Bool-cases (cfg.skip_draft_prs && pr.is_draft)) [
        | inl a ↦ rw (a, process_pr, analyze_pr) same
        | inr a ↦ elim (Bool-cases (is_author_excluded cfg pr)) [
          | inl b ↦ rw (a, b, process_pr, analyze_pr) same
          | inr b ↦ elim (Bool-cases (is_exempt cfg pr)) [
            | inl c ↦ rw (a, b, c, process_pr, analyze_pr) same
            | inr c ↦ elim (Bool-cases (has_label pr.labels (label_base cfg))) [
              | inl d ↦ elim (Bool-cases (is_due_to_close w cfg pr)) [
                | inl e ↦ rw (a, b, c, d, e, process_pr, analyze_pr) (auto_close-Grows pr st)
                | inr e ↦ rw (a, b, c, d, e, process_pr, analyze_pr) same
              ]
              | inr d ↦ elim (Bool-cases (geq_int (days_inactive w pr) cfg.days_until_stale)) [
                | inl e ↦ rw (a, b, c, d, e, process_pr, analyze_pr) (mark_stale-Grows pr st)
                | inr e ↦ rw (a, b, c, d, e, process_pr, analyze_pr) same
              ]
            ]
          ]
        ]
      ]

  pub process_listed-Grows :
      (prs : List (Option PrRecord)) (st : StaleState)
      → Grows st
          (planned (analyze_listed w cfg platform owner repo prs))
          (process_listed w cfg client group owner repo prs st)
  unfolding process_listed analyze_listed planned
  process_listed-Grows [] st = sym (append-nil (requests st.calls))
  process_listed-Grows (none ∷ prs) st = process_listed-Grows prs st
  process_listed-Grows (some pr ∷ prs) st =
      let rest = analyze_listed w cfg platform owner repo prs in
      process_listed-Grows prs (process_pr w cfg client group owner repo pr st)
      ∙ ap (λ (r : List Request). r ++ planned rest) (process_pr-Grows pr st)
      ∙ append_assoc (requests st.calls) (plans pr) (planned rest)
      ∙ ap (λ (r : List Request). requests st.calls ++ r)
          (sym (planned-append (act_if platform owner repo (analyze_pr w cfg pr)) rest))
