-- ===== src/AutoMerge/Placed.antt =====
-- Where `mergePR` merges.
use mathlib.Core.Path.{ap₂}
use asika.Prelude.{
  ◌≡◌, ◌⊎◌, refl, inl, inr, false, ◌||◌, Option, none, some, ◌∷◌, [], ◌++◌, Bytes, lit, is_empty,
  ◌∙◌, ap, ok, fail, Err, arith, Bool-cases, Option-cases, Result-cases,
}
use asika.Models.{Config, RepoGroup, PrRecord}
use asika.Config.{get_repo_group_by_name, get_owner_repo_from_group}
use asika.Queue.World.{World, Client}
use asika.Queue.Store.{Merged}
use asika.AutoMerge.{AutoState, find_repo, merged_as, merge_by, merge_pr}

-- The client, the owner and the repository of a pull request are those of its platform and its group.
pub record IsPlaced (w : World) (cfg : Config) (pr : PrRecord) (client : Client)
    (owner repo : Bytes) : Type 0 where
  pub group : RepoGroup
  pub group-lem : get_repo_group_by_name cfg pr.repo_group ≡ some group
  pub client-lem : w.clients pr.platform ≡ some client
  pub repo-lem : get_owner_repo_from_group group pr.platform ≡ (owner, repo)
  pub named-lem : (is_empty owner || is_empty repo) ≡ false

-- The platform took this merge of the pull request.
pub record IsMergeOf (w : World) (cfg : Config) (pr : PrRecord) (m : Merged) : Type 0 where
  pub client : Client
  pub placed : IsPlaced w cfg pr client m.owner m.repo
  pub platform-lem : m.platform ≡ pr.platform
  pub number-lem : m.number ≡ pr.pr_number
  pub method-lem :
      (client.get_default_merge_method m.owner m.repo ≡ ok m.method)
      ⊎ ((e : Err) × (client.get_default_merge_method m.owner m.repo ≡ fail e)
          × (m.method ≡ lit "merge"))
  pub accepted-lem : client.merge_pr m.owner m.repo m.number m.method ≡ none

find_repo-IsPlaced :
    (w : World) (cfg : Config) (pr : PrRecord) (client : Client) (owner repo : Bytes)
    → find_repo w cfg pr ≡ some (client, owner, repo)
    → IsPlaced w cfg pr client owner repo
unfolding find_repo
find_repo-IsPlaced w cfg pr client owner repo h =
    elim (Option-cases (get_repo_group_by_name cfg pr.repo_group)) [
      | inl g ↦ ground (arith, h, g)
      | inr (group, g) ↦ elim (Option-cases (w.clients pr.platform)) [
        | inl c ↦ ground (arith, h, g, c)
        | inr (found, c) ↦
            elim (Bool-cases (
              is_empty (get_owner_repo_from_group group pr.platform).0
              || is_empty (get_owner_repo_from_group group pr.platform).1)) [
                | inl n ↦ ground (arith, h, g, c, n)
                | inr n ↦ exactly group found g c n (rw (g, c, n, find_repo) at h)
              ]
      ]
    ]
  where
    exactly :
        (group : RepoGroup) (found : Client)
        → get_repo_group_by_name cfg pr.repo_group ≡ some group
        → w.clients pr.platform ≡ some found
        → (is_empty (get_owner_repo_from_group group pr.platform).0
            || is_empty (get_owner_repo_from_group group pr.platform).1)
          ≡ false
        → Path
            (Option (Client × Bytes × Bytes))
            (some (
              found,
              (get_owner_repo_from_group group pr.platform).0,
              (get_owner_repo_from_group group pr.platform).1,
            ))
            (some (client, owner, repo))
        → IsPlaced w cfg pr client owner repo
    exactly group found g c n h =
        let client-lem : found ≡ client = cc in
        let owner-lem : (get_owner_repo_from_group group pr.platform).0 ≡ owner = cc in
        let repo-lem : (get_owner_repo_from_group group pr.platform).1 ≡ repo = cc in
        record {
          group = group;
          group-lem = g;
          client-lem = c ∙ ap (λ x. some x) client-lem;
          repo-lem = ap₂ (λ x y. (x, y)) owner-lem repo-lem;
          named-lem = rw (owner-lem, repo-lem) at n;
        }

-- The state is as before, or one merge more was taken.
abbrev pub MayMerge : World → Config → PrRecord → AutoState → AutoState → Type 0
MayMerge w cfg pr st st' =
    (st' ≡ st)
    ⊎ ((m : Merged) × IsMergeOf w cfg pr m × (st' ≡ record st { merges = st.merges ++ m ∷ [] }))

merge_by-MayMerge :
    (w : World) (cfg : Config) (pr : PrRecord) (client : Client) (owner repo method : Bytes)
    (st : AutoState)
    → IsPlaced w cfg pr client owner repo
    → (client.get_default_merge_method owner repo ≡ ok method)
      ⊎ ((e : Err) × (client.get_default_merge_method owner repo ≡ fail e) × (method ≡ lit "merge"))
    → MayMerge w cfg pr st (merge_by pr client owner repo method st)
unfolding merge_by merged_as
merge_by-MayMerge w cfg pr client owner repo method st placed by =
    elim (Option-cases (client.merge_pr owner repo pr.pr_number method)) [
      | inr (e, k) ↦ rw (k, merge_by) (inl refl)
      | inl k ↦
          rw (k, merge_by)
            (inr (
              merged_as pr owner repo method,
              record {
                client = client;
                placed = placed;
                platform-lem = refl;
                number-lem = refl;
                method-lem = by;
                accepted-lem = k;
              },
              refl,
            ))
    ]

pub merge_pr-MayMerge :
    (w : World) (cfg : Config) (pr : PrRecord) (st : AutoState)
    → MayMerge w cfg pr st (merge_pr w cfg pr st).1
unfolding merge_pr
merge_pr-MayMerge w cfg pr st = elim (Option-cases (find_repo w cfg pr)) [
  | inl k ↦ rw (k, merge_pr) (inl refl)
  | inr ((client, owner, repo), k) ↦
      let placed = find_repo-IsPlaced w cfg pr client owner repo k in
      elim (Result-cases (client.get_default_merge_method owner repo)) [
        | inr (inr l) ↦ rw (k, l, merge_pr) (inl refl)
        | inr (inl (e, l)) ↦
            rw (k, l, merge_pr)
              (merge_by-MayMerge w cfg pr client owner repo (lit "merge") st placed
                (inr (e, l, refl)))
        | inl (method, l) ↦
            rw (k, l, merge_pr)
              (merge_by-MayMerge w cfg pr client owner repo method st placed (inl l))
      ]
]
