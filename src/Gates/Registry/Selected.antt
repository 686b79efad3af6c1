-- ===== src/Gates/Registry/Selected.antt =====
-- The selected candidate of a registry of evaluation/registry.py.
use nodelm.Base.{
  ◌<◌, ◌≡◌, sym, ap, ◌∙◌, Bool, true, false, not, ◌&&◌, ◌||◌, map, Text, arith, ltb, eqb, In,
  In_of_map, ok, raise_if-eq-ok, passed, some,
}
use nodelm.Base.Methods.{is_empty}
use nodelm.Contamination.Forest.{contains}
use nodelm.Contamination.Forest.Sets.{In_of_contains}
use nodelm.Gates.Status.{pass, is_pass, is_not_run, is_none, any, any-false, eq_of_is_pass}
use nodelm.Gates.Registry.{
  duplicate_names, duplicate_repositories, candidate_not_pass, execution_evidence_not_run,
  execution_without_metadata, execution_without_evidence, bakeoff_evidence_not_run,
  incomplete_bakeoff, unregistered_selection, selection_without_bakeoff, CandidateModel,
  CandidateRegistry, duplicates, is_selection_missing, validate_registry_state,
}

-- The candidate that a registry selects, and what the registry vouches for.
pub record IsSelected (r : CandidateRegistry) (name : Text) : Type 0 where
  pub candidate : CandidateModel
  pub registered : In candidate r.candidates
  pub named : name ≡ candidate.name
  pub verified : candidate.metadata_status ≡ pass
  pub executed : r.execution_status ≡ pass
  pub compared : r.bakeoff_status ≡ pass
  pub evidence : (0 < r.execution_evidence) × (0 < r.bakeoff_evidence)

pass_of_guard : (b p : Bool) → (not b && not p) ≡ false → p ≡ false → b ≡ true
pass_of_guard b p h e = ground arith

-- In an accepted registry a selected candidate is registered, its metadata, the execution and the bake-off
-- have passed, and there is evidence for both.
pub validate_registry_state-IsSelected :
    (r : CandidateRegistry) (name : Text)
    → validate_registry_state r ≡ ok tt
    → r.selected_candidate ≡ some name
    → IsSelected r name
unfolding validate_registry_state is_none is_selection_missing
validate_registry_state-IsSelected r name h s =
    let names = map (λ (c : CandidateModel). c.name) r.candidates in
    let repositories = map (λ (c : CandidateModel). c.repository_id) r.candidates in
    let unverified = any (λ c. not (is_pass c.metadata_status)) r.candidates in
    let (_, h) =
      passed (not (is_empty (duplicates names))) (duplicate_names (duplicates names)) _ h in
    let (_, h) =
      passed (not (is_empty (duplicates repositories)))
        (duplicate_repositories (duplicates repositories)) _ h in
    let (_, h) = passed (is_pass r.metadata_status && unverified) candidate_not_pass _ h in
    let (_, h) =
      passed (is_not_run r.execution_status && ltb 0 r.execution_evidence)
        execution_evidence_not_run _ h in
    let (metadata, h) =
      passed (is_pass r.execution_status && (not (is_pass r.metadata_status) || unverified))
        execution_without_metadata _ h in
    let (run, h) =
      passed (is_pass r.execution_status && eqb r.execution_evidence 0) execution_without_evidence _
        h in
    let (_, h) =
      passed (is_not_run r.bakeoff_status && ltb 0 r.bakeoff_evidence) bakeoff_evidence_not_run _
        h in
    let (whole, h) =
      passed
        (is_pass r.bakeoff_status
          && (not (is_pass r.execution_status)
              || eqb r.bakeoff_evidence 0
              || is_none r.selected_candidate))
        incomplete_bakeoff _ h in
    let (registered, h) =
      passed (is_selection_missing r.selected_candidate names) unregistered_selection _ h in
    let last =
      raise_if-eq-ok (not (is_pass r.bakeoff_status) && not (is_none r.selected_candidate))
        selection_without_bakeoff tt h in
    let chosen : is_none r.selected_candidate ≡ false = ap is_none s in
    let found : not (contains name names) ≡ false =
      sym (ap (λ o. is_selection_missing o names) s) ∙ registered in
    let compared : is_pass r.bakeoff_status ≡ true = ground arith in
    let executed : is_pass r.execution_status ≡ true = ground arith in
    let (c, i, e) =
      In_of_map (λ (c : CandidateModel). c.name) name r.candidates
        (In_of_contains name names (ground arith)) in
    let clear : unverified ≡ false = ground arith in
    let verified : not (is_pass c.metadata_status) ≡ false =
      any-false (λ (c : CandidateModel). not (is_pass c.metadata_status)) c r.candidates clear i in
    record {
      candidate = c;
      registered = i;
      named = e;
      verified = eq_of_is_pass c.metadata_status (ground arith);
      executed = eq_of_is_pass r.execution_status executed;
      compared = eq_of_is_pass r.bakeoff_status compared;
      evidence = (ground arith, ground arith);
    }
