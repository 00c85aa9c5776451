-- ===== src/Auth/Otp/Newest.antt =====
-- Lemmas on `newest`, the query with `ORDER BY createdAt DESC`.
use mathlib.Core.Option
use majestan_backend.Prelude.{
  ◌≤◌, Bool, true, false, none, some, List, [], ◌∷◌, ◌≡◌, refl, arith, if◌then◌else◌, All, All-mono,
  Bool-cases, Option-cases, update_where, inl, inr,
}
use majestan_backend.Auth.Otp.{PhoneOtp, newest}

module _ (p : PhoneOtp → Bool) where
  pub newest_sound : (rs : List PhoneOtp) (r : PhoneOtp) → newest p rs ≡ some r → p r ≡ true
  unfolding newest
  newest_sound [] r h = ground arith
  newest_sound (s ∷ rs) r h = elim (Option-cases (newest p rs)) [
    | inl e ↦ ground arith
    | inr (t, e) ↦ ground (arith, newest_sound rs t e)
  ]

  pub newest-none : (rs : List PhoneOtp) → newest p rs ≡ none → All (λ s. p s ≡ false) rs
  unfolding newest
  newest-none [] h = tt
  newest-none (s ∷ rs) h = elim (Bool-cases (p s)) [
    | inl e ↦ ground (arith)
    | inr e ↦ (e, newest-none rs (ground arith))
  ]

  -- No selected row is later than the one returned.
  pub newest_latest :
      (rs : List PhoneOtp) (r : PhoneOtp)
      → newest p rs ≡ some r
      → All (λ s. p s ≡ true → s.created_at ≤ r.created_at) rs
  unfolding newest
  newest_latest [] r h = tt
  newest_latest (s ∷ rs) r h = elim (Option-cases (newest p rs)) [
    | inl e ↦ (ground arith, All-mono rs (λ x no yes'. absurd (ground arith)) (newest-none rs e))
    | inr (t, e) ↦
        let le : t.created_at ≤ r.created_at = ground arith in
        (ground arith, All-mono rs (λ x k px. omega (arith, k px)) (newest_latest rs t e))
  ]

  module _ (q : PhoneOtp → Bool) (f : PhoneOtp → PhoneOtp) (keeps : (r : PhoneOtp) → p (f r) ≡ p r)
      (same_time : (r : PhoneOtp) → (f r).created_at ≡ r.created_at) where
    -- An update that changes neither the selection nor the order.
    pub newest-update_where :
        (rs : List PhoneOtp)
        → newest p (update_where q f rs) ≡ Option.map (λ r. if q r then f r else r) (newest p rs)
    unfolding newest
    newest-update_where [] = refl
    newest-update_where (s ∷ rs) = elim (Option-cases (newest p rs)) [
      | inl e ↦ ground (arith, newest-update_where rs, keeps s, same_time s)
      | inr (t, e) ↦
          ground (arith, newest-update_where rs, keeps s, same_time s, keeps t, same_time t)
    ]
