-- ===== src/Builders/Tests.antt =====
-- Three builders of one name.
use majestan_backend.Prelude.{
  none, some, Bool, true, false, [], ◌∷◌, ◌≡◌, ◌≤◌, refl, arith, count, All, Bool-cases, inl, inr,
}
use majestan_backend.Prelude.Text.{Text, codes, ◌=t◌, =t_iff}
use majestan_backend.Storage.{StorageEnv}
use majestan_backend.Builders.{
  Builder, new_builder, BuilderDb, BuilderData, generate_unique_slug, create_builder,
}
use majestan_backend.Slug.{to_project_slug}
use majestan_backend.Builders.Slugs.{generate_unique_slug_total}

abbrev env : StorageEnv
env = record {
  is_local_driver = true;
  public_url = [];
  now = 5;
  converts = λ key. false;
  deletes = λ key. true;
  dimensions = λ key. none;
}

abbrev data_of : Text → BuilderData
data_of name = record {
  name = some name;
  logo_url = some (codes "local/temp/1-logo.png");
  phone = none;
  email = none;
  website = none;
  experience_years = none;
  completed_projects = none;
  ongoing_projects = none;
  description = none;
  is_active = none;
}

abbrev no_builders : BuilderDb
no_builders = record { rows = []; next_id = 1; objects = [] }

abbrev two_builders : BuilderDb
two_builders =
    (create_builder env (data_of (codes "G & K Homes"))
      (create_builder env (data_of (codes " g&k homes!")) no_builders).1).1

slug_of_name : to_project_slug (codes " G & K  Homes! ") ≡ codes "g-and-k-homes"
unfolding to_project_slug
slug_of_name = refl

second_slug :
    (generate_unique_slug (codes "G & K Homes") none two_builders.rows)
    ≡ some (codes "g-and-k-homes-1")
unfolding generate_unique_slug create_builder
second_slug = refl

count_one : (p : Builder → Bool) (row : Builder) → count p (row ∷ []) ≤ 1
count_one p row = ground arith

distinct_slugs : (s : Text) → count (λ row. row.slug =t s) two_builders.rows ≤ 1
unfolding create_builder
distinct_slugs s = elim (Bool-cases (codes "g-and-k-homes" =t s)) [
  | inl first ↦
      let same : codes "g-and-k-homes" ≡ s = (=t_iff (codes "g-and-k-homes") s).0 first in
      rw (← same) (omega arith)
  | inr other ↦ rw other (
      count_one (λ row. row.slug =t s)
        (new_builder (data_of (codes " g&k homes!")) (codes "gandk-homes")
          (some (codes "local/temp/1-logo.png")) 1))
]

-- The builder with the id 2 is renamed, and gets the slug that it has.
generate_unique_slug_total_example :
    (slug : Text) × (generate_unique_slug (codes "G & K Homes") (some 2) two_builders.rows
      ≡ some slug)
    × All (λ row. row.slug ≡ slug → some 2 ≡ some row.id) two_builders.rows
generate_unique_slug_total_example =
    generate_unique_slug_total (codes "G & K Homes") (some 2) two_builders.rows distinct_slugs
