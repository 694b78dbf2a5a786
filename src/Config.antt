-- ===== src/Config.antt =====
-- common/config/config.go: looking up a repository group, its platform and its repository.
use asika.Prelude.{
  Option, none, some, List, [], ◌∷◌, Bytes, lit, text_eq, is_empty, ◌==◌, ◌&&◌, not, if◌then◌else◌,
}
use asika.Models.{RepoGroup, RepoGroupConfig, Config}

normalize_repo_group : RepoGroupConfig → RepoGroup
normalize_repo_group rg = record rg { mode = if is_empty rg.mode then lit "multi" else rg.mode }

find_group : List RepoGroupConfig → Bytes → Option RepoGroup
unfolding normalize_repo_group
find_group [] name = none
find_group (rg ∷ groups) name =
    if text_eq rg.name name then some (normalize_repo_group rg) else find_group groups name

unfoldable pub get_repo_group_by_name : Config → Bytes → Option RepoGroup
unfolding find_group
get_repo_group_by_name cfg name = find_group cfg.repo_groups name

repo_path : RepoGroup → Bytes → Bytes
repo_path group platform =
    if text_eq platform (lit "github")
    then group.github
    else if text_eq platform (lit "gitlab")
    then group.gitlab
    else if text_eq platform (lit "gitea")
    then group.gitea
    else if text_eq platform (lit "forgejo")
    then group.forgejo
    else if text_eq platform (lit "codeberg")
    then group.codeberg
    else if text_eq platform (lit "bitbucket")
    then group.bitbucket
    else if text_eq platform (lit "gerrit")
    then group.gerrit
    else []

-- `p[:i]` and `p[i+1:]` at the last slash of `p`, if there is one.
split_last_slash : Bytes → Option (Bytes × Bytes)
split_last_slash [] = none
split_last_slash (c ∷ s) =
    let rest = split_last_slash s in
    elim rest [
      | some (owner, repo) ↦ some (c ∷ owner, repo)
      | none ↦ if c == b'/' then some ([], s) else none
    ]

unfoldable pub get_owner_repo_from_group : RepoGroup → Bytes → Bytes × Bytes
unfolding repo_path split_last_slash
get_owner_repo_from_group group platform =
    let path = repo_path group platform in
    if is_empty path
    then ([], [])
    else elim (split_last_slash path) [ none ↦ ([], path) | some (owner, repo) ↦ (owner, repo) ]

unfoldable pub get_platform_for_group : RepoGroup → Bytes
get_platform_for_group group =
    if text_eq group.mode (lit "single") && not (is_empty group.mirror_platform)
    then group.mirror_platform
    else if not (is_empty group.github)
    then lit "github"
    else if not (is_empty group.gitlab)
    then lit "gitlab"
    else if not (is_empty group.gitea)
    then lit "gitea"
    else if not (is_empty group.forgejo)
    then lit "forgejo"
    else if not (is_empty group.codeberg)
    then lit "codeberg"
    else if not (is_empty group.bitbucket)
    then lit "bitbucket"
    else if not (is_empty group.gerrit)
    then lit "gerrit"
    else []

normalize_all : List RepoGroupConfig → List RepoGroup
unfolding normalize_repo_group
normalize_all [] = []
normalize_all (rg ∷ groups) = normalize_repo_group rg ∷ normalize_all groups

pub get_repo_groups : Config → List RepoGroup
unfolding normalize_all
get_repo_groups cfg = normalize_all cfg.repo_groups

-- `platforms.GroupPlatforms` of common/platforms/helpers.go.
unfoldable pub platform_if : Bytes → Bytes → List Bytes → List Bytes
platform_if repo platform rest = if is_empty repo then rest else platform ∷ rest

unfoldable pub group_platforms : RepoGroup → List Bytes
unfolding platform_if
group_platforms group = platform_if group.github (lit "github") (
    platform_if group.gitlab (lit "gitlab") (
      platform_if group.gitea (lit "gitea") (
        platform_if group.forgejo (lit "forgejo") (
          platform_if group.codeberg (lit "codeberg") (
            platform_if group.bitbucket (lit "bitbucket")
              (platform_if group.gerrit (lit "gerrit") []))))))
