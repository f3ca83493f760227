-- ===== src/Prelude/Rows.antt =====
-- Tables of records: a database table, and a hash table that holds records by a key among their
-- fields. The order of the rows is not modelled.
use Prim.Native.Nat.{ℕ, ◌+◌, ◌≤◌}
use mathlib.Core.Path.{◌≡◌, refl}
use mathlib.Core.Bool.{Bool, true, false, ◌&&◌}
use mathlib.Core.Option
use mathlib.Core.Option.{Option, none, some}
use mathlib.Core.List.{List, [], ◌∷◌}
use native.Mathlib.Omega.{arith}
use feeds_service.Prelude.Tests.{if◌then◌else◌}

module _ {ℓ} {R : Type ℓ} where
  -- the first row that passes a test
  unfoldable pub select : (R → Bool) → List R → Option R
  select p [] = none
  select p (r ∷ rs) = if p r then some r else select p rs

  unfoldable pub has_row : (R → Bool) → List R → Bool
  has_row p [] = false
  has_row p (r ∷ rs) = if p r then true else has_row p rs

  unfoldable pub update : (R → Bool) → (R → R) → List R → List R
  update p f [] = []
  update p f (r ∷ rs) = (if p r then f r else r) ∷ update p f rs

  unfoldable pub delete : (R → Bool) → List R → List R
  delete p [] = []
  delete p (r ∷ rs) = let rest = delete p rs in if p r then rest else r ∷ rest

  unfoldable pub count : (R → Bool) → List R → ℕ
  count p [] = 0
  count p (r ∷ rs) = (if p r then 1 else 0) + count p rs

module _ {ℓ} {R : Type ℓ} (p q : R → Bool) (f : R → R) where
  pub select-update_self :
      ((r : R) → p (f r) ≡ p r)
      → (rs : List R) → select p (update p f rs) ≡ Option.map f (select p rs)
  unfolding select update
  select-update_self h [] = refl
  select-update_self h (r ∷ rs) = ground (arith, h r, select-update_self h rs)

  pub select-update_ne :
      ((r : R) → q (f r) ≡ q r)
      → ((r : R) → p r ≡ true → q r ≡ false)
      → (rs : List R) → select q (update p f rs) ≡ select q rs
  unfolding select update
  select-update_ne h d [] = refl
  select-update_ne h d (r ∷ rs) = ground (arith, h r, d r, select-update_ne h d rs)

  pub count-update :
      ((r : R) → q (f r) ≡ q r) → (rs : List R) → count q (update p f rs) ≡ count q rs
  unfolding count update
  count-update h [] = refl
  count-update h (r ∷ rs) = ground (arith, h r, count-update h rs)

  -- A write that does not change whether a row passes, on the rows that it reaches.
  pub has_row-update_on :
      ((r : R) → p r ≡ true → q (f r) ≡ q r)
      → (rs : List R) → has_row q (update p f rs) ≡ has_row q rs
  unfolding has_row update
  has_row-update_on h [] = refl
  has_row-update_on h (r ∷ rs) = ground (arith, h r, has_row-update_on h rs)

  pub has_row-update :
      ((r : R) → q (f r) ≡ q r) → (rs : List R) → has_row q (update p f rs) ≡ has_row q rs
  unfolding has_row update
  has_row-update h [] = refl
  has_row-update h (r ∷ rs) = ground (arith, h r, has_row-update h rs)

module _ {ℓ} {R : Type ℓ} (p q : R → Bool) where
  pub select-delete_ne :
      ((r : R) → p r ≡ true → q r ≡ false) → (rs : List R) → select q (delete p rs) ≡ select q rs
  unfolding select delete
  select-delete_ne d [] = refl
  select-delete_ne d (r ∷ rs) = ground (arith, d r, select-delete_ne d rs)

  pub count-delete_ne :
      ((r : R) → p r ≡ true → q r ≡ false) → (rs : List R) → count q (delete p rs) ≡ count q rs
  unfolding count delete
  count-delete_ne d [] = refl
  count-delete_ne d (r ∷ rs) = ground (arith, d r, count-delete_ne d rs)

module _ {ℓ} {R : Type ℓ} (p : R → Bool) where
  pub select-delete_self : (rs : List R) → select p (delete p rs) ≡ none
  unfolding select delete
  select-delete_self [] = refl
  select-delete_self (r ∷ rs) = ground (arith, select-delete_self rs)

  pub has_row-delete_self : (rs : List R) → has_row p (delete p rs) ≡ false
  unfolding has_row delete
  has_row-delete_self [] = refl
  has_row-delete_self (r ∷ rs) = ground (arith, has_row-delete_self rs)

  pub select-passes : (rs : List R) {r : R} → select p rs ≡ some r → p r ≡ true
  unfolding select
  select-passes [] h = ground arith
  select-passes (x ∷ rs) {r} h = ground (arith, select-passes rs {r = r})

  pub count-hit : (r : R) (rs : List R) → p r ≡ true → count p (r ∷ rs) ≡ 1 + count p rs
  unfolding count
  count-hit r rs h = ground arith

  pub count-miss : (r : R) (rs : List R) → p r ≡ false → count p (r ∷ rs) ≡ count p rs
  unfolding count
  count-miss r rs h = ground arith

  pub delete-fresh : (rs : List R) → has_row p rs ≡ false → delete p rs ≡ rs
  unfolding has_row delete
  delete-fresh [] h = refl
  delete-fresh (x ∷ rs) h = ground (arith, delete-fresh rs)

  pub delete-hit : (r : R) (rs : List R) → p r ≡ true → delete p (r ∷ rs) ≡ delete p rs
  unfolding delete
  delete-hit r rs h = ground arith

  pub select-none : (rs : List R) → count p rs ≡ 0 → select p rs ≡ none
  unfolding select count
  select-none [] h = refl
  select-none (x ∷ rs) h = ground (arith, select-none rs)

  pub has_row-count : (rs : List R) → has_row p rs ≡ false → count p rs ≡ 0
  unfolding has_row count
  has_row-count [] h = refl
  has_row-count (x ∷ rs) h = ground (arith, has_row-count rs)

  pub count-has_row : (rs : List R) → has_row p rs ≡ true → 1 ≤ count p rs
  unfolding has_row count
  count-has_row [] h = ground arith
  count-has_row (x ∷ rs) h = ground (arith, count-has_row rs)

  pub has_row-hit : (r : R) (rs : List R) → p r ≡ true → has_row p (r ∷ rs) ≡ true
  unfolding has_row
  has_row-hit r rs h = ground arith

  pub has_row-miss : (r : R) (rs : List R) → p r ≡ false → has_row p (r ∷ rs) ≡ has_row p rs
  unfolding has_row
  has_row-miss r rs h = ground arith

  pub select-miss : (r : R) (rs : List R) → p r ≡ false → select p (r ∷ rs) ≡ select p rs
  unfolding select
  select-miss r rs h = ground arith

  pub select-has_row : (rs : List R) {r : R} → select p rs ≡ some r → has_row p rs ≡ true
  unfolding select has_row
  select-has_row [] h = ground arith
  select-has_row (x ∷ rs) {r} h = ground (arith, select-has_row rs {r = r})

  pub has_row-select : (rs : List R) → has_row p rs ≡ false → select p rs ≡ none
  unfolding has_row select
  has_row-select [] h = refl
  has_row-select (x ∷ rs) h = ground (arith, has_row-select rs)

module _ {ℓ} {R : Type ℓ} (p q : R → Bool) where
  -- A row that is found and passes another test.
  pub select-has_row_and :
      (rs : List R) {r : R}
      → select p rs ≡ some r
      → q r ≡ true
      → has_row (λ x. p x && q x) rs ≡ true
  unfolding select has_row
  select-has_row_and [] h e = ground arith
  select-has_row_and (x ∷ rs) {r} h e = ground (arith, select-has_row_and rs {r = r})

  pub has_row_mono :
      ((r : R) → p r ≡ true → q r ≡ true)
      → (rs : List R) → has_row p rs ≡ true
      → has_row q rs ≡ true
  unfolding has_row
  has_row_mono sub [] h = ground arith
  has_row_mono sub (x ∷ rs) h = ground (arith, sub x, has_row_mono sub rs)

module _ {ℓ} {R : Type ℓ} (p q : R → Bool) (sub : (r : R) → p r ≡ true → q r ≡ true) where
  -- What is deleted is counted among the rest.
  pub count-delete_sub : (rs : List R) → count q (delete p rs) + count p rs ≡ count q rs
  unfolding count delete
  count-delete_sub [] = refl
  count-delete_sub (x ∷ rs) = ground (arith, sub x, count-delete_sub rs)

module _ {ℓ} {R : Type ℓ} (p q : R → Bool) where
  pub count-delete-le : (rs : List R) → count q (delete p rs) ≤ count q rs
  unfolding count delete
  count-delete-le [] = omega arith
  count-delete-le (x ∷ rs) = ground (arith, count-delete-le rs)

module _ {ℓ} {R : Type ℓ} (p bad : R → Bool) (f g : R → R) where
  -- A write that is taken back, on rows that are not bad.
  pub update-undo :
      ((r : R) → p (f r) ≡ p r)
      → ((r : R) → bad r ≡ false → g (f r) ≡ r)
      → (rs : List R) → has_row bad rs ≡ false
      → update p g (update p f rs) ≡ rs
  unfolding update has_row
  update-undo key undo [] h = refl
  update-undo key undo (r ∷ rs) h = ground (arith, key r, undo r, update-undo key undo rs)
