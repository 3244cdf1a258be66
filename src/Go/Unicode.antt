-- ===== src/Go/Unicode.antt =====
-- The `unicode` package: its tables are not in the repository, so the development is generic in
-- them. The fields after the operations are what the package documents and the scanner needs.
use sqlr.Prelude.{ℕ, Bool, false, ◌≡◌}

pub record Unicode : Type 0 where
  pub is_space : ℕ → Bool
  pub is_digit : ℕ → Bool
  pub is_letter : ℕ → Bool
  pub is_upper : ℕ → Bool
  pub is_lower : ℕ → Bool
  pub to_lower : ℕ → ℕ
  pub is_space-zero : is_space 0 ≡ false

abbrev pub is_space : ⦃u : Unicode⦄ → ℕ → Bool
is_space ⦃u⦄ = u.is_space

abbrev pub is_digit : ⦃u : Unicode⦄ → ℕ → Bool
is_digit ⦃u⦄ = u.is_digit

abbrev pub is_letter : ⦃u : Unicode⦄ → ℕ → Bool
is_letter ⦃u⦄ = u.is_letter

abbrev pub is_upper : ⦃u : Unicode⦄ → ℕ → Bool
is_upper ⦃u⦄ = u.is_upper

abbrev pub is_lower : ⦃u : Unicode⦄ → ℕ → Bool
is_lower ⦃u⦄ = u.is_lower

abbrev pub to_lower : ⦃u : Unicode⦄ → ℕ → ℕ
to_lower ⦃u⦄ = u.to_lower
