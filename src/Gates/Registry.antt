-- ===== src/Gates/Registry.antt =====
-- `validate_registry_state` of evaluation/registry.py, over the fields that it reads, and the rule of a
-- candidate. Evidence is counted.
pub mod Selected
use nodelm.Base.{
  ℕ, suc, ◌+◌, Bool, true, false, not, ◌&&◌, ◌||◌, List, [], ◌∷◌, map, Text, ◌==◌, ltb, eqb,
  if◌then◌else◌, select, length, Result, ok, err, ◌>>=◌, ◌>>◌, raise_if, Option, none, some,
}
use nodelm.Base.Methods.{is_empty}
use nodelm.Contamination.Forest.{contains}
use nodelm.Contamination.Ordering.{distinct}
use nodelm.Gates.Status.{VerificationStatus, is_pass, is_not_run, is_none, any}

pub data RegistryError : Type 0 where
  candidate_without_context_limit : Text → RegistryError
  duplicate_names duplicate_repositories : List Text → RegistryError
  candidate_not_pass execution_evidence_not_run execution_without_metadata
        execution_without_evidence :
      RegistryError
  bakeoff_evidence_not_run incomplete_bakeoff unregistered_selection selection_without_bakeoff :
      RegistryError

pub record CandidateModel : Type 0 where
  pub name : Text
  pub repository_id : Text
  pub metadata_status : VerificationStatus
  pub context_limit : Option ℕ

pub record CandidateRegistry : Type 0 where
  pub metadata_status : VerificationStatus
  pub execution_status : VerificationStatus
  pub bakeoff_status : VerificationStatus
  pub candidates : List CandidateModel
  pub selected_candidate : Option Text
  pub execution_evidence : ℕ
  pub bakeoff_evidence : ℕ

unfoldable pub pass_requires_context_limit : CandidateModel → Result RegistryError (Unit {0})
unfolding is_pass is_none
pass_requires_context_limit c =
    raise_if (is_pass c.metadata_status && is_none c.context_limit)
      (candidate_without_context_limit c.name)

unfoldable pub count : Text → List Text → ℕ
unfolding ◌==◌
count x [] = 0
count x (y ∷ ys) = let rest = count x ys in if x == y then suc rest else rest

-- `sorted(name for name, count in Counter(names).items() if count > 1)`
unfoldable pub duplicates : List Text → List Text
unfolding distinct count
duplicates names = select (λ x. ltb 1 (count x names)) (distinct names)

unfoldable pub is_selection_missing : Option Text → List Text → Bool
unfolding contains
is_selection_missing none names = false
is_selection_missing (some name) names = not (contains name names)

unfoldable pub validate_registry_state : CandidateRegistry → Result RegistryError (Unit {0})
unfolding duplicates is_empty is_pass is_not_run is_none any is_selection_missing
validate_registry_state r = do
  let names = map (λ c. c.name) r.candidates
  let repositories = map (λ c. c.repository_id) r.candidates
  let unverified = any (λ c. not (is_pass c.metadata_status)) r.candidates
  raise_if (not (is_empty (duplicates names))) (duplicate_names (duplicates names))
  raise_if (not (is_empty (duplicates repositories)))
      (duplicate_repositories (duplicates repositories))
  raise_if (is_pass r.metadata_status && unverified) candidate_not_pass
  raise_if (is_not_run r.execution_status && ltb 0 r.execution_evidence) execution_evidence_not_run
  raise_if (is_pass r.execution_status && (not (is_pass r.metadata_status) || unverified))
      execution_without_metadata
  raise_if (is_pass r.execution_status && eqb r.execution_evidence 0) execution_without_evidence
  raise_if (is_not_run r.bakeoff_status && ltb 0 r.bakeoff_evidence) bakeoff_evidence_not_run
  raise_if
      (is_pass r.bakeoff_status
        && (not (is_pass r.execution_status)
            || eqb r.bakeoff_evidence 0
            || is_none r.selected_candidate))
      incomplete_bakeoff
  raise_if (is_selection_missing r.selected_candidate names) unregistered_selection
  raise_if (not (is_pass r.bakeoff_status) && not (is_none r.selected_candidate))
      selection_without_bakeoff
