-- ===== src/Auth/Bcrypt.antt =====
-- The npm package `bcrypt`, which the program only calls: a parameter. Its laws are documented ones:
-- a password compares with its own hash, and a hash has the prefix that `verifyPassword` of
-- src/modules/auth/auth.service.ts looks for.
use majestan_backend.Prelude.{ℕ, ◌≡◌, refl, Bool, true, false, ◌&&◌, ◌||◌, ◌∷◌, ◌++◌, ◌==◌, leb}
use majestan_backend.Prelude.Text.{Text, codes, ◌=t◌, =t_refl}

-- `/^\$2[aby]\$\d{2}\$/`
abbrev pub is_bcrypt_hash : Text → Bool
is_bcrypt_hash (a ∷ b ∷ c ∷ d ∷ e ∷ f ∷ g ∷ s) =
    a == b'$'
    && b == b'2'
    && (c == b'a' || c == b'b' || c == b'y')
    && d == b'$'
    && (leb 48 e && leb e 57)
    && (leb 48 f && leb f 57)
    && g == b'$'
is_bcrypt_hash _ = false

-- `hash salt p` with the salt that the package draws.
pub record Bcrypt : Type 0 where
  pub hash : ℕ → Text → Text
  pub compare : Text → Text → Bool
  pub compare-hash : (salt : ℕ) (p : Text) → compare p (hash salt p) ≡ true
  pub hash_format : (salt : ℕ) (p : Text) → is_bcrypt_hash (hash salt p) ≡ true

abbrev pub prefixed : Text → Text
prefixed p = codes "$2b$12$" ++ p

pub prefixed_format : (p : Text) → is_bcrypt_hash (prefixed p) ≡ true
prefixed_format p = refl

-- A value that meets the laws: the password behind the prefix.
abbrev pub plain : Bcrypt
plain = record {
  hash = λ salt p. prefixed p;
  compare = λ p h. prefixed p =t h;
  compare-hash = λ salt p. =t_refl (prefixed p);
  hash_format = λ salt p. prefixed_format p;
}
