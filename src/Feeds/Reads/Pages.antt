-- ===== src/Feeds/Reads/Pages.antt =====
-- src/feeds.c: how the requests that list rows split them into responses.
use feeds_service.Prelude.{
  ℕ, ◌+◌, ◌-◌, ◌%◌, ◌<◌, ◌≤◌, ◌^◌, ◌≡◌, refl, ◌∙◌, Bool, true, false, not, ◌&&◌, ◌||◌, List, [],
  ◌∷◌, ◌++◌, arith, inl, inr,
}
use mathlib.Core.List.{append_assoc, append-nil}
use feeds_service.Prelude.Tests.{◌==◌, ltb, if◌then◌else◌, Bool-cases}

-- The result of a response: `is_last` and the vector.
pub record Page {ℓ} (A : Type ℓ) : Type ℓ where
  pub is_last : Bool
  pub infos : List A

-- left -= n, on a size_t
abbrev pub minus64 : ℕ → ℕ → ℕ
minus64 left n = (left + 2 ^ 64 - n % 2 ^ 64) % 2 ^ 64

-- `left` is MAX_CONTENT_LEN at the start of a response; `spend` takes a row off it, and `need` is
-- what the test of the next row compares with it.
pub record Split {ℓ} (A : Type ℓ) : Type ℓ where
  pub max_content_len : ℕ
  pub spend : ℕ → A → ℕ
  pub need : A → ℕ

module _ {ℓ} {A : Type ℓ} (c : Split A) where
  -- The rounds of the loop from the row `x` on, with `infos_tmp` collected.
  unfoldable pub rounds : ℕ → List A → A → List A → List (Page A)
  rounds left infos_tmp x [] = record { is_last = true; infos = infos_tmp ++ x ∷ [] } ∷ []
  rounds left infos_tmp x (y ∷ rest) =
      let now = c.spend left x in
      let full = now == 0 || ltb now (c.need y) in
      let more =
        rounds (if full then c.max_content_len else now) (if full then [] else infos_tmp ++ x ∷ [])
          y rest in
      if full then record { is_last = false; infos = infos_tmp ++ x ∷ [] } ∷ more else more

  -- The responses for the rows found.
  unfoldable pub pages : List A → List (Page A)
  pages [] = record { is_last = true; infos = [] } ∷ []
  pages (x ∷ rest) = rounds c.max_content_len [] x rest

-- All rows of some responses.
unfoldable pub all_infos {ℓ} : {A : Type ℓ} → List (Page A) → List A
all_infos [] = []
all_infos (p ∷ ps) = p.infos ++ all_infos ps

-- The last response, and no other, is marked.
unfoldable pub marks_last {ℓ} : {A : Type ℓ} → List (Page A) → Bool
marks_last [] = false
marks_last (p ∷ []) = p.is_last
marks_last (p ∷ q ∷ ps) = let rest = marks_last (q ∷ ps) in not p.is_last && rest

unfoldable pub total {ℓ} : {A : Type ℓ} → (A → ℕ) → List A → ℕ
total size [] = 0
total size (x ∷ xs) = size x + total size xs

-- No response has more than `n`.
abbrev pub AllWithin {ℓ} : {A : Type ℓ} → (A → ℕ) → ℕ → List (Page A) → Type 0
AllWithin size n [] = Unit {0}
AllWithin size n (p ∷ ps) = (total size p.infos ≤ n) × AllWithin size n ps

-- No row has more than `n`.
abbrev pub EachWithin {ℓ} : {A : Type ℓ} → (A → ℕ) → ℕ → List A → Type 0
EachWithin size n [] = Unit {0}
EachWithin size n (x ∷ xs) = (size x ≤ n) × EachWithin size n xs

module _ {ℓ} {A : Type ℓ} (c : Split A) where
  rounds-all_infos :
      (left : ℕ) (tmp : List A) (x : A) (rest : List A)
      → all_infos (rounds c left tmp x rest) ≡ tmp ++ x ∷ rest
  unfolding rounds all_infos
  rounds-all_infos left tmp x [] = append-nil (tmp ++ x ∷ [])
  rounds-all_infos left tmp x (y ∷ rest) =
      elim (Bool-cases (c.spend left x == 0 || ltb (c.spend left x) (c.need y))) [
        | inl e ↦ simp e (
            rw (rounds-all_infos c.max_content_len [] y rest)
              (append_assoc tmp (x ∷ []) (y ∷ rest)))
        | inr e ↦ simp e (
            rw (rounds-all_infos (c.spend left x) (tmp ++ x ∷ []) y rest)
              (append_assoc tmp (x ∷ []) (y ∷ rest)))
      ]

  pub all_infos-pages : (xs : List A) → all_infos (pages c xs) ≡ xs
  unfolding pages all_infos
  all_infos-pages [] = refl
  all_infos-pages (x ∷ rest) = rounds-all_infos c.max_content_len [] x rest

  marks_cons :
      (p : Page A) (ps : List (Page A))
      → p.is_last ≡ false
      → marks_last ps ≡ true
      → marks_last (p ∷ ps) ≡ true
  unfolding marks_last
  marks_cons p [] e m = ground arith
  marks_cons p (q ∷ ps) e m = ground arith

  rounds-marks_last :
      (left : ℕ) (tmp : List A) (x : A) (rest : List A)
      → marks_last (rounds c left tmp x rest) ≡ true
  unfolding rounds
  rounds-marks_last left tmp x [] = unfold marks_last in refl
  rounds-marks_last left tmp x (y ∷ rest) =
      elim (Bool-cases (c.spend left x == 0 || ltb (c.spend left x) (c.need y))) [
        | inl e ↦ simp e (marks_cons _ _ refl (rounds-marks_last c.max_content_len [] y rest))
        | inr e ↦ simp e (rounds-marks_last (c.spend left x) (tmp ++ x ∷ []) y rest)
      ]

  pub marks_last-pages : (xs : List A) → marks_last (pages c xs) ≡ true
  unfolding pages
  marks_last-pages [] = unfold marks_last in refl
  marks_last-pages (x ∷ rest) = rounds-marks_last c.max_content_len [] x rest

-- The loop counts what a response takes, for rows that fit into one.
pub record IsExact {ℓ} {A : Type ℓ} (c : Split A) (size : A → ℕ) : Type ℓ where
  pub bounded : c.max_content_len < 2 ^ 64
  pub spends : (left : ℕ) (x : A) → size x ≤ left → left < 2 ^ 64 → c.spend left x ≡ left - size x
  pub needs : (x : A) → size x ≤ c.max_content_len → c.need x ≡ size x

total-append {ℓ} :
    {A : Type ℓ} (size : A → ℕ) (xs ys : List A)
    → total size (xs ++ ys) ≡ total size xs + total size ys
unfolding total
total-append size [] ys = omega arith
total-append size (x ∷ xs) ys = omega (arith, total-append size xs ys)

module _ {ℓ} {A : Type ℓ} (c : Split A) (size : A → ℕ) (exact : IsExact c size) where
  one_more : (tmp : List A) (x : A) → total size (tmp ++ x ∷ []) ≡ total size tmp + size x
  one_more tmp x = total-append size tmp (x ∷ []) ∙ unfold total in omega arith

  rounds-AllWithin :
      (left : ℕ) (tmp : List A) (x : A) (rest : List A)
      → total size tmp + left ≤ c.max_content_len
      → size x ≤ left
      → EachWithin size c.max_content_len rest
      → AllWithin size c.max_content_len (rounds c left tmp x rest)
  unfolding rounds
  rounds-AllWithin left tmp x [] room fits small = (omega (arith, one_more tmp x), tt)
  rounds-AllWithin left tmp x (y ∷ rest) room fits (fits_y, small) =
      let b = exact.bounded in
      let now = exact.spends left x fits (omega arith) in
      let ahead = exact.needs y fits_y in
      elim (Bool-cases (c.spend left x == 0 || ltb (c.spend left x) (c.need y))) [
        | inl e ↦ simp e (
          omega (arith, one_more tmp x),
          rounds-AllWithin c.max_content_len [] y rest (unfold total in omega arith) fits_y small,
        )
        | inr e ↦ simp e (
            rounds-AllWithin (c.spend left x) (tmp ++ x ∷ []) y rest
              (omega (arith, one_more tmp x, now)) (ground (arith, now, ahead)) small)
      ]

  pub pages-AllWithin :
      (xs : List A)
      → EachWithin size c.max_content_len xs
      → AllWithin size c.max_content_len (pages c xs)
  unfolding pages
  pages-AllWithin [] small = (unfold total in omega arith, tt)
  pages-AllWithin (x ∷ rest) (fits, small) =
      rounds-AllWithin c.max_content_len [] x rest (unfold total in omega arith) fits small
