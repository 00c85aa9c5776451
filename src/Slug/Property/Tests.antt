-- ===== src/Slug/Property/Tests.antt =====
-- Tests of the slugs of properties.
use majestan_backend.Prelude.{◌≡◌, refl, some, none}
use majestan_backend.Prelude.Text.{codes}
use majestan_backend.Slug.Property.{
  generate_seo_slug, enforce_slug_suffix, parse_property_slug_suffix, extract_property_code,
}
use majestan_backend.Slug.Property.Laws.{type_and_id, parse_property_slug_suffix-generate_seo_slug}

flat_slug :
    generate_seo_slug (codes "2 BHK Flat & Garden") (codes "Apartment") 6
    ≡ codes "2-bhk-flat-and-garden-ap006"
unfolding generate_seo_slug
flat_slug = refl

villa_unread : parse_property_slug_suffix (codes "garden-home-v001") ≡ none
unfolding parse_property_slug_suffix
villa_unread = refl

code_of_slug : extract_property_code (codes "Garden-Home-V001") ≡ some (codes "v001")
unfolding extract_property_code
code_of_slug = refl

parse_property_slug_suffix-generate_seo_slug_example :
    (parse_property_slug_suffix (generate_seo_slug (codes "2 BHK & Flat") (codes "apartment") 6)
      ≡ type_and_id (codes "apartment") 6)
    × (parse_property_slug_suffix
          (enforce_slug_suffix (codes "old-flat-ap178") (codes "apartment") 6)
        ≡ type_and_id (codes "apartment") 6)
parse_property_slug_suffix-generate_seo_slug_example =
    parse_property_slug_suffix-generate_seo_slug (codes "2 BHK & Flat") (codes "old-flat-ap178")
      (codes "apartment") 6
