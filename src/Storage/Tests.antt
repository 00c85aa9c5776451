-- ===== src/Storage/Tests.antt =====
-- A file called `plan (1).png` is uploaded in two chunks.
use majestan_backend.Prelude.{true, false, none, [], ◌∷◌, ◌≡◌, ◌↔◌, refl, arith}
use majestan_backend.Prelude.Text.{Text, codes, ◌=t◌}
use majestan_backend.Http.{ok, fail}
use majestan_backend.Storage.{
  StorageEnv, stored, final_key, process_ad_image, process_cover_image, process_builder_logo,
  delete_files, move_file, process_and_upload_image,
}
use majestan_backend.Storage.Upload.{
  presigned_key, write_local_temp_file, is_temp_upload_key, max_local_upload_bytes,
}
use majestan_backend.Storage.Laws.{IsAccepted, write_local_temp_file_iff, upload_presigned}

abbrev local_env : StorageEnv
local_env = record {
  is_local_driver = true;
  public_url = [];
  now = 1700000000000;
  converts = λ key. true;
  deletes = λ key. true;
  dimensions = λ key. none;
}

abbrev remote_env : StorageEnv
remote_env = record {
  is_local_driver = false;
  public_url = codes "https://cdn.majestan.com";
  now = 1700000000000;
  converts = λ key. false;
  deletes = λ key. true;
  dimensions = λ key. none;
}

minted_key :
    presigned_key local_env (codes "plan (1).png") ≡ codes "local/temp/1700000000000-plan__1_.png"
unfolding presigned_key majestan_backend.Phone.OtpCode.decimal
    majestan_backend.Storage.Upload.safe_name majestan_backend.Storage.Upload.is_alphanumeric
minted_key = refl

finished_ad :
    process_ad_image local_env (codes "local/temp/1-a.b.png") (codes "local/temp/1-a.b.png" ∷ [])
    ≡ (ok (codes "local/ads/1-a.b.webp"), codes "local/ads/1-a.b.webp" ∷ [])
unfolding process_ad_image final_key majestan_backend.Storage.delete_file
finished_ad = refl

-- While imgproxy is out of reach the temporary key of a cover stays.
kept_cover :
    process_cover_image remote_env (codes "uploads/temp/1-a.png") []
    ≡ (ok (codes "uploads/temp/1-a.png"), [])
unfolding process_cover_image
kept_cover = refl

upload_presigned_example :
    ((write_local_temp_file (presigned_key local_env (codes "plan (1).png")) (70 ∷ 50 ∷ []) []).0
      ≡ ok (presigned_key local_env (codes "plan (1).png")))
    × (stored
          (presigned_key local_env (codes "plan (1).png"))
          (write_local_temp_file
            (presigned_key local_env (codes "plan (1).png"))
            (70 ∷ 50 ∷ [])
            []).1
        ≡ true)
upload_presigned_example =
    upload_presigned local_env (codes "plan (1).png") (70 ∷ 50 ∷ []) [] refl (omega arith)
      (omega arith)

-- A new file beside one that is there.
write_local_temp_file_iff_example :
    ((stored
          (codes "local/temp/2-b.png")
          (write_local_temp_file
            (codes "local/temp/2-b.png")
            (70 ∷ [])
            (codes "local/temp/1-a.png" ∷ [])).1
        ≡ true)
      ↔ IsAccepted (codes "local/temp/2-b.png") (70 ∷ []))
    × (((write_local_temp_file
            (codes "local/temp/2-b.png")
            (70 ∷ [])
            (codes "local/temp/1-a.png" ∷ [])).0
          ≡ ok (codes "local/temp/2-b.png"))
        ↔ (stored
              (codes "local/temp/2-b.png")
              (write_local_temp_file
                (codes "local/temp/2-b.png")
                (70 ∷ [])
                (codes "local/temp/1-a.png" ∷ [])).1
            ≡ true))
    × ((other : Text)
        → (codes "local/temp/2-b.png" =t other) ≡ false
        → stored other
            (write_local_temp_file
              (codes "local/temp/2-b.png")
              (70 ∷ [])
              (codes "local/temp/1-a.png" ∷ [])).1
          ≡ stored other (codes "local/temp/1-a.png" ∷ []))
write_local_temp_file_iff_example =
    write_local_temp_file_iff (codes "local/temp/2-b.png") (70 ∷ [])
      (codes "local/temp/1-a.png" ∷ []) refl

failed_logo :
    process_builder_logo remote_env (codes "uploads/temp/1-a.png") []
    ≡ (fail 500 "Internal server error", [])
unfolding process_builder_logo
failed_logo = refl

moved_plan :
    move_file local_env (codes "local/temp/1-plan.pdf") false (codes "local/temp/1-plan.pdf" ∷ [])
    ≡ (ok (codes "local/properties/1-plan.pdf"), codes "local/properties/1-plan.pdf" ∷ [])
unfolding move_file
moved_plan = refl

kept_original :
    process_and_upload_image local_env
      (codes "local/temp/1-a.png")
      false
      (codes "local/temp/1-a.png" ∷ [])
    ≡ (
      ok (codes "local/properties/1-a.webp"),
      codes "local/properties/1-a.webp" ∷ codes "local/temp/1-a.png" ∷ [],
    )
unfolding process_and_upload_image
kept_original = refl

deleted_files :
    delete_files local_env (codes "a" ∷ codes "https://x" ∷ []) (codes "a" ∷ codes "b" ∷ [])
    ≡ codes "b" ∷ []
unfolding delete_files
deleted_files = refl
