-- ===== src/Similar/Priority.antt =====
-- What the order of the criteria for properties means.
use majestan_backend.Prelude.{◌<◌, true, false, some, ◌≡◌, arith, ltb}
use majestan_backend.Similar.{score}
use majestan_backend.Similar.Laws.{beats, score_iff_beats}
use majestan_backend.Similar.Criteria.{PropertyTraits, same, property_criteria}

-- Of two properties that agree with the base on the type and on the kind of offer alike, the one with
-- the base's possession status has the higher score than one without it, whatever they share of bedrooms,
-- locality, price, city and condition.
pub score_by_possession :
    (base x y : PropertyTraits)
    → same (some base.property_type) (some x.property_type)
      ≡ same (some base.property_type) (some y.property_type)
    → same base.listing_type x.listing_type ≡ same base.listing_type y.listing_type
    → same base.possession x.possession ≡ false
    → same base.possession y.possession ≡ true
    → score base x property_criteria < score base y property_criteria
unfolding property_criteria beats
score_by_possession base x y types offers without with' =
    let higher : ltb (score base x property_criteria) (score base y property_criteria) ≡ true =
      ground (arith, score_iff_beats base x y property_criteria) in
    ground arith
