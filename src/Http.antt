-- ===== src/Http.antt =====
-- What a request handler answers: a value, or an exception with its status and message.
use majestan_backend.Prelude.{ℕ, String, ◌≡◌, ◌⊎◌, refl, inl, inr}

pub data Outcome {ℓ} (A : Type ℓ) : Type ℓ where
  ok : A → Outcome A
  fail : ℕ → String → Outcome A

pub Outcome-cases {ℓ} :
    {A : Type ℓ} (o : Outcome A)
    → ((status : ℕ) × (message : String) × (o ≡ fail status message)) ⊎ ((a : A) × (o ≡ ok a))
Outcome-cases (ok a) = inr (a, refl)
Outcome-cases (fail status message) = inl (status, message, refl)
