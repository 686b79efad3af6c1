-- ===== src/Provenance/Tasks/Same.antt =====
-- Equal instances and equal records of provenance/task_provenance.py.
use nodelm.Base.{◌≡◌, ap, ◌∙◌, true, Text, ==-refl, eq_of_==, arith, Option, none, some}
use nodelm.Provenance.Tasks.{is_id, same_record}
use nodelm.Provenance.Tasks.Standing.{conflicting, admitted}
use nodelm.Provenance.TaskRecord.{TaskProvenanceRecord}

pub is_id-of : (id : Text) (o : Option Text) → o ≡ some id → is_id id o ≡ true
unfolding is_id
is_id-of id o e = ap (is_id id) e ∙ ==-refl id

pub of_is_id : (id : Text) (o : Option Text) → is_id id o ≡ true → o ≡ some id
unfolding is_id
of_is_id id none h = cc
of_is_id id (some s) h = ap some (eq_of_== s id h)

pub eq_of_same_record : (a b : TaskProvenanceRecord) → same_record a b ≡ true → a ≡ b
unfolding same_record
eq_of_same_record a b h =
    let e1 : a.source_dataset ≡ b.source_dataset = eq_of_== _ _ (ground arith) in
    let e2 : a.source_dataset_revision ≡ b.source_dataset_revision = eq_of_== _ _ (ground arith) in
    let e3 : a.instance_id ≡ b.instance_id = eq_of_== _ _ (ground arith) in
    let e4 : a.repository ≡ b.repository = eq_of_== _ _ (ground arith) in
    let e5 : a.base_commit ≡ b.base_commit = eq_of_== _ _ (ground arith) in
    let e6 : a.repository_license ≡ b.repository_license = eq_of_== _ _ (ground arith) in
    let e7 : a.language ≡ b.language = eq_of_== _ _ (ground arith) in
    λ i. record {
      source_dataset = e1 i;
      source_dataset_revision = e2 i;
      instance_id = e3 i;
      repository = e4 i;
      base_commit = e5 i;
      repository_license = e6 i;
      language = e7 i;
    }

pub same_record_refl : (a : TaskProvenanceRecord) → same_record a a ≡ true
unfolding same_record
same_record_refl a = ground (
  arith,
  ==-refl a.source_dataset,
  ==-refl a.source_dataset_revision,
  ==-refl a.instance_id,
  ==-refl a.repository,
  ==-refl a.base_commit,
  ==-refl a.repository_license,
  ==-refl a.language,
)

pub admitted_eq : {s r : TaskProvenanceRecord} → admitted s ≡ admitted r → s ≡ r
admitted_eq h = cc

pub not_admitted : {r : TaskProvenanceRecord} → conflicting ≡ admitted r → ⊥
not_admitted h = cc
