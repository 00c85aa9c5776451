-- ===== src/Builders.antt =====
-- src/modules/admin/builders/admin-builders.service.ts: the builders that the administrators keep, and
-- the search for a slug that no other builder has.
pub mod Slugs
mod Tests
use majestan_backend.Prelude.{
  ℕ, zero, suc, ◌+◌, Bool, true, false, not, ◌&&◌, ◌||◌, Option, none, some, List, [], ◌∷◌, ◌++◌,
  ◌==◌, leb, if◌then◌else◌, find?, filter, update_where, length,
}
use majestan_backend.Prelude.Text.{Text, codes, ◌=t◌, is_empty, trim, lower}
use majestan_backend.Phone.OtpCode.{decimal}
use majestan_backend.Slug.{to_project_slug}
use majestan_backend.Http.{Outcome, ok, fail}
use majestan_backend.Storage.{StorageEnv, process_builder_logo}

pub record Builder : Type 0 where
  pub id : ℕ
  pub name : Text
  pub slug : Text
  pub logo_url : Option Text
  pub phone : Option Text
  pub email : Option Text
  pub website : Option Text
  pub experience_years : Option ℕ
  pub completed_projects : Option ℕ
  pub ongoing_projects : Option ℕ
  pub description : Option Text
  pub is_active : Bool

-- The rows, and the keys of the stored files.
pub record BuilderDb : Type 0 where
  pub rows : List Builder
  pub next_id : ℕ
  pub objects : List Text

-- CreateBuilderDto and UpdateBuilderDto; a field that is not sent is `none`
pub record BuilderData : Type 0 where
  pub name : Option Text
  pub logo_url : Option Text
  pub phone : Option Text
  pub email : Option Text
  pub website : Option Text
  pub experience_years : Option ℕ
  pub completed_projects : Option ℕ
  pub ongoing_projects : Option ℕ
  pub description : Option Text
  pub is_active : Option Bool

-- `excludeId && existing.id === excludeId`
abbrev pub is_excluded : ℕ → Option ℕ → Bool
is_excluded id none = false
is_excluded id (some excluded) = not (excluded == 0) && id == excluded

-- The candidate stands for another builder.
unfoldable pub is_slug_taken : Text → Option ℕ → List Builder → Bool
is_slug_taken slug excluded rows = elim (find? (λ row. row.slug =t slug) rows) [
  | none ↦ false
  | some row ↦ not (is_excluded row.id excluded)
]

-- The slug itself, then with the suffixes 1, 2, …
unfoldable pub candidate : Text → ℕ → Text
unfolding decimal
candidate base zero = base
candidate base (suc n) = base ++ b'-' ∷ decimal (suc n)

-- The loop of `generateUniqueSlug`, for a number of rounds
unfoldable pub find_slug : Text → Option ℕ → List Builder → ℕ → ℕ → Option Text
unfolding is_slug_taken candidate
find_slug base excluded rows zero n = none
find_slug base excluded rows (suc rounds) n =
    let later = find_slug base excluded rows rounds (suc n) in
    if is_slug_taken (candidate base n) excluded rows then later else some (candidate base n)

abbrev pub base_slug : Text → Text
base_slug name = if is_empty (to_project_slug name) then codes "builder" else to_project_slug name

-- `generateUniqueSlug`, with a round for each row and one more
unfoldable pub generate_unique_slug : Text → Option ℕ → List Builder → Option Text
unfolding to_project_slug find_slug
generate_unique_slug name excluded rows =
    find_slug (base_slug name) excluded rows (suc (length rows)) 0

-- `finalizeLogo`: a failing conversion leaves the key as it is.
unfoldable pub finalize_logo : StorageEnv → Option Text → List Text → Option Text × List Text
unfolding process_builder_logo
finalize_logo env none objects = (none, objects)
finalize_logo env (some key) objects =
    let done = process_builder_logo env key objects in
    if is_empty key
    then (none, objects)
    else elim done.0 [ fail status message ↦ (some key, done.1) | ok final ↦ (some final, done.1) ]

abbrev pub value_or {ℓ} : {A : Type ℓ} → Option A → A → A
value_or none a = a
value_or (some b) a = b

abbrev pub sent_or {ℓ} : {A : Type ℓ} → Option A → Option A → Option A
sent_or none old = old
sent_or (some b) old = some b

abbrev pub new_builder : BuilderData → Text → Option Text → ℕ → Builder
new_builder dto slug logo id = record {
  id = id;
  name = value_or dto.name [];
  slug = slug;
  logo_url = logo;
  phone = dto.phone;
  email = dto.email;
  website = dto.website;
  experience_years = dto.experience_years;
  completed_projects = sent_or dto.completed_projects (some 0);
  ongoing_projects = sent_or dto.ongoing_projects (some 0);
  description = dto.description;
  is_active = value_or dto.is_active true;
}

-- `create`; a loop that did not end would give no slug
unfoldable pub create_builder : StorageEnv → BuilderData → BuilderDb → Outcome Builder × BuilderDb
unfolding generate_unique_slug finalize_logo
create_builder env dto db = elim (generate_unique_slug (value_or dto.name []) none db.rows) [
  | none ↦ (fail 500 "Internal server error", db)
  | some slug ↦
      let logo = finalize_logo env dto.logo_url db.objects in
      let row = new_builder dto slug logo.0 db.next_id in
      (ok row, record { rows = row ∷ db.rows; next_id = db.next_id + 1; objects = logo.1 })
]

-- The slug of `update`: a new one for a new name
unfoldable pub updated_slug : ℕ → BuilderData → Builder → List Builder → Option Text
unfolding generate_unique_slug trim
updated_slug id dto builder rows = elim dto.name [
  | none ↦ some builder.slug
  | some name ↦
      if is_empty name || trim name =t builder.name
      then some builder.slug
      else generate_unique_slug name (some id) rows
]

abbrev pub same_logo : Option Text → Option Text → Bool
same_logo none old = true
same_logo (some key) none = false
same_logo (some key) (some old) = key =t old

-- The logo of `update`: a new one is processed, and an empty one is not assigned.
unfoldable pub updated_logo :
    StorageEnv → BuilderData → Builder → List Text → Option Text × List Text
unfolding finalize_logo
updated_logo env dto builder objects =
    let done = finalize_logo env dto.logo_url objects in
    if same_logo dto.logo_url builder.logo_url
    then (builder.logo_url, objects)
    else (sent_or done.0 builder.logo_url, done.1)

-- `Object.assign(builder, dto)`
abbrev pub assign_builder : BuilderData → Text → Option Text → Builder → Builder
assign_builder dto slug logo builder = record {
  id = builder.id;
  name = value_or dto.name builder.name;
  slug = slug;
  logo_url = logo;
  phone = sent_or dto.phone builder.phone;
  email = sent_or dto.email builder.email;
  website = sent_or dto.website builder.website;
  experience_years = sent_or dto.experience_years builder.experience_years;
  completed_projects = sent_or dto.completed_projects builder.completed_projects;
  ongoing_projects = sent_or dto.ongoing_projects builder.ongoing_projects;
  description = sent_or dto.description builder.description;
  is_active = value_or dto.is_active builder.is_active;
}

-- `update`
unfoldable pub update_builder :
    StorageEnv → ℕ → BuilderData → BuilderDb → Outcome Builder × BuilderDb
unfolding updated_slug updated_logo
update_builder env id dto db = elim (find? (λ row. row.id == id) db.rows) [
  | none ↦ (fail 404 "Builder not found", db)
  | some builder ↦ elim (updated_slug id dto builder db.rows) [
    | none ↦ (fail 500 "Internal server error", db)
    | some slug ↦
        let logo = updated_logo env dto builder db.objects in
        let row = assign_builder dto slug logo.0 builder in
        (
          ok row,
          record {
            rows = update_where (λ other. other.id == id) (λ other. row) db.rows;
            next_id = db.next_id;
            objects = logo.1;
          },
        )
  ]
]

-- `remove`
unfoldable pub remove_builder : ℕ → BuilderDb → Outcome ℕ × BuilderDb
remove_builder id db = elim (find? (λ row. row.id == id) db.rows) [
  | none ↦ (fail 404 "Builder not found", db)
  | some builder ↦ (ok id, record db { rows = filter (λ row. not (row.id == id)) db.rows })
]
