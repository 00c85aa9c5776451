-- ===== src/Ads/Images.antt =====
-- src/modules/admin/ads/admin-ads.service.ts: the checks and the processing of uploaded images, and
-- the deletion of files that no advertisement needs.
use majestan_backend.Prelude.{
  String, ℕ, ◌+◌, ◌-◌, ◌*◌, Bool, true, false, not, ◌||◌, Option, none, some, List, [], ◌∷◌, ◌==◌,
  ltb, if◌then◌else◌, any, filter, count,
}
use majestan_backend.Prelude.Text.{Text, codes, ◌=t◌, is_empty}
use majestan_backend.Http.{Outcome, ok, fail}
use majestan_backend.Storage.{StorageEnv, contains, delete_file, process_ad_image}
use majestan_backend.Ads.{Ad, AdPlacementSpec, AdSlotSpec}

pub data Slot : Type 0 where
  desktop_slot : Slot
  mobile_slot : Slot

-- A text that is neither missing nor empty
unfoldable pub truthy : Option Text → Option Text
truthy none = none
truthy (some s) = if is_empty s then none else some s

abbrev pub is_some : Option Text → Bool
is_some none = false
is_some (some s) = true

-- `isTempKey`
unfoldable pub is_temp_key : Option Text → Bool
is_temp_key none = false
is_temp_key (some key) = contains (codes "uploads/temp/") key || contains (codes "local/temp/") key

-- `cleanupTempKeys`
unfoldable pub cleanup_temp_keys : StorageEnv → List (Option Text) → List Text → List Text
unfolding is_temp_key
cleanup_temp_keys env [] objects = objects
cleanup_temp_keys env (none ∷ keys) objects = cleanup_temp_keys env keys objects
cleanup_temp_keys env (some key ∷ keys) objects =
    cleanup_temp_keys env keys
      (if is_temp_key (some key) then delete_file env key objects else objects)

-- `ratioLabel` is left out of the message. `|w / h - e| / e > 0.02` for `e = rw / rh`, in whole numbers.
unfoldable pub is_off_ratio : ℕ × ℕ → ℕ × ℕ → Bool
is_off_ratio (rw', rh) (width, height) =
    ltb (height * rw') (50 * ((width * rh - height * rw') + (height * rw' - width * rh)))

abbrev pub slot_of : Slot → AdPlacementSpec → Option AdSlotSpec
slot_of desktop_slot spec = some spec.desktop
slot_of mobile_slot spec = elim spec.mobile [ none ↦ none | some mobile ↦ some mobile.slot ]

abbrev pub wrong_ratio : Slot → String
wrong_ratio desktop_slot = "desktop image must match the ratio of its slot"
wrong_ratio mobile_slot = "mobile image must match the ratio of its slot"

-- `assertRatio`; an image that cannot be measured is an error.
unfoldable pub assert_ratio : StorageEnv → Text → Slot → AdPlacementSpec → Outcome (Unit {0})
unfolding is_off_ratio
assert_ratio env key slot spec = elim (slot_of slot spec) [
  | none ↦ fail 400 "This placement does not take a mobile image"
  | some slot_spec ↦ elim (env.dimensions key) [
    | none ↦ fail 500 "Internal server error"
    | some measured ↦
        if is_off_ratio slot_spec.ratio measured then fail 400 (wrong_ratio slot) else ok tt
  ]
]

unfoldable pub check_slot : StorageEnv → Option Text → Slot → AdPlacementSpec → Outcome (Unit {0})
unfolding is_temp_key assert_ratio
check_slot env none slot spec = ok tt
check_slot env (some key) slot spec =
    if is_temp_key (some key) then assert_ratio env key slot spec else ok tt

-- The `try` of `validateUploads`
unfoldable pub check_uploads :
    StorageEnv → Option Text → Option Text → AdPlacementSpec → Outcome (Unit {0})
unfolding check_slot
check_uploads env desktop_key mobile_key spec =
    elim (check_slot env desktop_key desktop_slot spec) [
      | fail status message ↦ fail status message
      | ok u ↦ check_slot env mobile_key mobile_slot spec
    ]

-- `validateUploads`: a failure deletes the temporary files.
unfoldable pub validate_uploads :
    StorageEnv
    → Option Text
    → Option Text
    → AdPlacementSpec
    → List Text
    → Outcome (Unit {0}) × List Text
unfolding check_uploads cleanup_temp_keys
validate_uploads env desktop_key mobile_key spec objects =
    elim (check_uploads env desktop_key mobile_key spec) [
      | ok u ↦ (ok tt, objects)
      | fail status message ↦
          (fail status message, cleanup_temp_keys env (desktop_key ∷ mobile_key ∷ []) objects)
    ]

abbrev pub required : Slot → String
required desktop_slot = "desktop image is required"
required mobile_slot = "mobile image is required"

-- `finalize`
unfoldable pub finalize : StorageEnv → Text → Slot → List Text → Outcome Text × List Text
unfolding is_temp_key process_ad_image
finalize env key slot objects =
    if is_empty key
    then (fail 400 (required slot), objects)
    else if not (is_temp_key (some key))
    then (ok key, objects)
    else process_ad_image env key objects

-- `normalizeAudience`
unfoldable pub normalize_audience : Option Text → AdPlacementSpec → Outcome (Option Text)
unfolding truthy
normalize_audience audience spec = elim (truthy audience) [
  | none ↦ ok none
  | some name ↦
      if any (λ allowed. allowed =t name) spec.audiences
      then ok (some name)
      else fail 400 "This placement does not support this audience"
]

abbrev pub is_key : Text → Option Text → Bool
is_key key none = false
is_key key (some other) = other =t key

-- `{ desktopImageKey: key }, { mobileImageKey: key }`
unfoldable pub uses : Text → Ad → Bool
uses key ad = ad.desktop_image_key =t key || is_key key ad.mobile_image_key

-- `new Set(keys.filter(…))`
unfoldable pub distinct_keys : List (Option Text) → List Text
unfolding truthy
distinct_keys [] = []
distinct_keys (key ∷ keys) =
    let rest = distinct_keys keys in
    elim (truthy key) [
      | none ↦ rest
      | some name ↦ name ∷ filter (λ other. not (other =t name)) rest
    ]

unfoldable pub delete_unreferenced : (StorageEnv) → List Text → List Ad → List Text → List Text
unfolding uses
delete_unreferenced env [] ads objects = objects
delete_unreferenced env (key ∷ keys) ads objects =
    delete_unreferenced env keys ads
      (if count (uses key) ads == 0 then delete_file env key objects else objects)

-- `deleteUnreferencedKeys`
unfoldable pub delete_unreferenced_keys :
    StorageEnv → List (Option Text) → List Ad → List Text → List Text
unfolding distinct_keys delete_unreferenced
delete_unreferenced_keys env keys ads objects =
    delete_unreferenced env (distinct_keys keys) ads objects
