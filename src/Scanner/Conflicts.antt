-- ===== src/Scanner/Conflicts.antt =====
pub mod Laws
-- `detectConflicts` of internal/reposcanner/scanner.go, and the filter of `scan` that follows it.
use Prim.Native.String.{◌++◌ as append}
use deploy_bot.Prelude.{
  String, Bool, true, false, Option, none, some, List, [], ◌∷◌, ◌==◌, some_of, if◌then◌else◌,
}
use deploy_bot.Config.{AppConfig, full_name, is_named}

pub record ConflictInfo : Type 0 where
  pub key : String
  pub app : String
  pub env : String
  pub source_repo : String
  pub reason : String
  pub detail : String

-- A path that a discovered app has claimed, with who claims it.
pub record Claim : Type 0 where
  pub path : String
  pub label : String

-- The maps `conflicts`, by full name, and `discoveredPaths`, the newest entry first.
pub record Scan : Type 0 where
  pub conflicts : List ConflictInfo
  pub claims : List Claim

abbrev pub empty_scan : Scan
empty_scan = record { conflicts = []; claims = [] }

abbrev pub in_conflict : Scan → String → Bool
in_conflict f k = some_of (λ c. c.key == k) f.conflicts

-- operatorPaths: the last app with the path stands in the map.
unfoldable pub operator_of : String → List AppConfig → Option String
operator_of path [] = none
operator_of path (a ∷ ops) = elim (operator_of path ops) [
  | some other ↦ some other
  | none ↦ if a.kustomize_path == path then some (full_name a) else none
]

pub claimant_of : String → List Claim → Option String
claimant_of path [] = none
claimant_of path (c ∷ cs) =
    let rest = claimant_of path cs in if c.path == path then some c.label else rest

pub add_conflict : AppConfig → String → String → Scan → Scan
unfolding full_name
add_conflict d reason detail f = record f {
  conflicts =
      (record {
        key = full_name d;
        app = d.app;
        env = d.environment;
        source_repo = d.source_repo;
        reason = reason;
        detail = detail;
      })
      ∷ f.conflicts;
}

pub add_claim : AppConfig → Scan → Scan
unfolding full_name
add_claim d f = record f {
  claims =
      (record {
        path = d.kustomize_path;
        label = append (full_name d) (append " from " d.source_repo);
      })
      ∷ f.claims;
}

-- The owner of the path among the operator's apps, and among the discovered ones.
unfoldable pub check_path : Option String → Option String → AppConfig → Scan → Scan
unfolding add_conflict add_claim
check_path (some other) o d f = add_conflict d "kustomize_path" (append "operator app " other) f
check_path none (some label) d f = add_conflict d "kustomize_path" label f
check_path none none d f = add_claim d f

module _ (ops : List AppConfig) where
  -- Whether the full name is in conflict already, is the operator's, and whether there is a path.
  pub check_app : Bool → Bool → Bool → AppConfig → Scan → Scan
  unfolding add_conflict check_path operator_of claimant_of
  check_app true operator pathless d f = f
  check_app false true pathless d f = add_conflict d "app+environment" "" f
  check_app false false true d f = f
  check_app false false false d f =
      check_path (operator_of d.kustomize_path ops) (claimant_of d.kustomize_path f.claims) d f

  pub detect_one : AppConfig → Scan → Scan
  unfolding check_app full_name some_of
  detect_one d f =
      check_app (in_conflict f (full_name d)) (some_of (is_named (full_name d)) ops)
        (d.kustomize_path == "") d f

  pub detect_from : List AppConfig → Scan → Scan
  unfolding detect_one
  detect_from [] f = f
  detect_from (d ∷ ds) f = detect_from ds (detect_one d f)

  -- detectConflicts
  pub detect_conflicts : List AppConfig → Scan
  unfolding detect_from
  detect_conflicts ds = detect_from ds empty_scan

  pub without : Scan → List AppConfig → List AppConfig
  unfolding some_of full_name
  without f [] = []
  without f (d ∷ ds) =
      let rest = without f ds in if in_conflict f (full_name d) then rest else d ∷ rest

  -- What `scan` writes to the ConfigMap.
  pub registered : List AppConfig → List AppConfig
  unfolding detect_conflicts without
  registered ds = without (detect_conflicts ds) ds
