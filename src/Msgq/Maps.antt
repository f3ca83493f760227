-- ===== src/Msgq/Maps.antt =====
-- Finite maps as functions, with a write at one key.
use feeds_service.Prelude.{ℕ, String, str_eq}
use feeds_service.Prelude.Tests.{◌==◌, if◌then◌else◌}

module _ {ℓ} {A : Type ℓ} where
  abbrev pub at_id : ℕ → A → (ℕ → A) → ℕ → A
  at_id k a f j = if j == k then a else f j

  abbrev pub at_peer : String → A → (String → A) → String → A
  at_peer k a f j = if str_eq j k then a else f j
