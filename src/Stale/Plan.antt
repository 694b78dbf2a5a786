-- ===== src/Stale/Plan.antt =====
-- The dry run says what the check then does.
use asika.Prelude.{
  ◌≡◌, refl, sym, ap, ◌∙◌, inl, inr, true, Option, none, some, List, [], ◌∷◌, ◌++◌, Bytes, Result,
  ok, fail, panic, Option-cases,
}
use mathlib.Core.List.{append-nil, append_assoc}
use asika.Models.{Config, RepoGroup, PrRecord}
use asika.Models.Rules.{StaleConfig}
use asika.Config.{group_platforms}
use asika.Queue.World.{Client}
use asika.Stale.{StaleWorld, StaleState, StaleAction}
use asika.Stale.Check.{
  process_list, reach, process_platforms, check_repo_group, analyze_list, then_also,
  analyze_platforms, check_repo_group_dry_run,
}
use asika.Stale.Requests.{Request, requests, planned, planned-append, Grows, process_listed-Grows}

some-inj {ℓ} : {A : Type ℓ} {a b : A} → some a ≡ some b → a ≡ b
some-inj h = cc

-- What the two lists of a dry run were.
then_also-eq-some :
    (first later : Option (List StaleAction)) (acts : List StaleAction)
    → then_also first later ≡ some acts
    → (now : List StaleAction) × (rest : List StaleAction) × (first ≡ some now)
      × (later ≡ some rest)
      × (acts ≡ now ++ rest)
unfolding then_also
then_also-eq-some none later acts h = cc
then_also-eq-some (some now) none acts h = cc
then_also-eq-some (some now) (some rest) acts h = (now, rest, refl, refl, cc)

process_list-Grows :
    (w : StaleWorld) (cfg : StaleConfig) (client : Client) (group platform owner repo : Bytes)
    (prs : Result (List (Option PrRecord))) (st : StaleState) (acts : List StaleAction)
    → analyze_list w cfg platform owner repo prs ≡ some acts
    → ((process_list w cfg client group owner repo prs st).0 ≡ true)
      × Grows st (planned acts) (process_list w cfg client group owner repo prs st).1
unfolding analyze_list process_list planned
process_list-Grows w cfg client group platform owner repo (ok prs) st acts h = (
  refl,
  rw (sym (some-inj h)) (process_listed-Grows w cfg client group platform owner repo prs st),
)
process_list-Grows w cfg client group platform owner repo (fail e) st acts h =
    (refl, rw (sym (some-inj h)) (sym (append-nil (requests st.calls))))
process_list-Grows w cfg client group platform owner repo panic st acts h = cc

process_platforms-Grows :
    (w : StaleWorld) (cfg : StaleConfig) (group : RepoGroup) (platforms : List Bytes)
    (st : StaleState) (acts : List StaleAction)
    → analyze_platforms w cfg group platforms ≡ some acts
    → ((process_platforms w cfg group platforms st).0 ≡ true)
      × Grows st (planned acts) (process_platforms w cfg group platforms st).1
unfolding analyze_platforms process_platforms planned
process_platforms-Grows w cfg group [] st acts h =
    (refl, rw (sym (some-inj h)) (sym (append-nil (requests st.calls))))
process_platforms-Grows w cfg group (platform ∷ platforms) st acts h =
    elim (Option-cases (reach w.world group platform)) [
      | inl k ↦
          rw (k, process_platforms)
            (process_platforms-Grows w cfg group platforms st acts (rw (k, analyze_platforms) at h))
      | inr ((client, owner, repo), k) ↦
          let prs = client.list_prs owner repo in
          let (now, rest, e, e', split) =
            then_also-eq-some (analyze_list w cfg platform owner repo prs)
              (analyze_platforms w cfg group platforms) acts (rw (k, analyze_platforms) at h) in
          let (goes, grown) =
            process_list-Grows w cfg client group.name platform owner repo prs st now e in
          let st' = (process_list w cfg client group.name owner repo prs st).1 in
          let (goes', grown') = process_platforms-Grows w cfg group platforms st' rest e' in
          rw (k, process_platforms)
            (rw (goes, process_platforms)
              (
                goes',
                grown'
                    ∙ ap (λ (r : List Request). r ++ planned rest) grown
                    ∙ append_assoc (requests st.calls) (planned now) (planned rest)
                    ∙ ap (λ (r : List Request). requests st.calls ++ r)
                        (sym (planned-append now rest) ∙ ap planned (sym split)),
              ))
    ]

-- On the same answers of the platforms, what `CheckRepoGroup` asks the platforms to mark and to
-- close is, in this order, what the dry run lists to mark and to close, if the dry run ends with a
-- list; and the check then ends too, whatever errors the platforms report for the requests.
pub check_repo_group-planned :
    (w : StaleWorld) (cfg : Config) (group : RepoGroup) (st : StaleState) (acts : List StaleAction)
    → check_repo_group_dry_run w cfg group ≡ some acts
    → ((check_repo_group w cfg group st).0 ≡ true)
      × (requests (check_repo_group w cfg group st).1.calls ≡ requests st.calls ++ planned acts)
unfolding check_repo_group check_repo_group_dry_run
check_repo_group-planned w cfg group st acts h =
    process_platforms-Grows w cfg.stale group (group_platforms group) st acts h
