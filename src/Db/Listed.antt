-- ===== src/Db/Listed.antt =====
-- Which rows the queries of src/db.cpp list.
use feeds_service.Prelude.{
  ℕ, zero, suc, ◌^◌, ◌≡◌, refl, sym, ◌∙◌, ap, Bool, true, false, ◌&&◌, ◌||◌, none, some, List, [],
  ◌∷◌, arith, inl, inr,
}
use mathlib.Core.Option
use feeds_service.Prelude.Tests.{◌==◌, leb, Bool-cases, Option-cases}
use feeds_service.Prelude.Lists.{take}
use feeds_service.Prelude.Rows.{has_row}
use feeds_service.Db.Tables.{Db, PostRow}
use feeds_service.Db.Listings.{
  QryFld, by_none, by_id, by_upd_at, by_created_at, QryCriteria, Columns, Orders, query_column,
  in_bounds, matching, limit, order_by, select_rows, post_columns, is_listed, db_iter_posts,
}

module _ {ℓ} {R : Type ℓ} where
  -- An order of SQLite's has the rows that it is given, and no others.
  pub record KeepsRows (orders : Orders R) : Type ℓ where
    pub scan : (f : R → Bool) (rs : List R) → has_row f (orders.scan rs) ≡ has_row f rs
    pub asc :
        (f : R → Bool) (col : R → ℕ) (rs : List R) → has_row f (orders.asc col rs) ≡ has_row f rs
    pub desc :
        (f : R → Bool) (col : R → ℕ) (rs : List R) → has_row f (orders.desc col rs) ≡ has_row f rs

  has_row-matching :
      (p f : R → Bool) (rs : List R) → has_row f (matching p rs) ≡ has_row (λ r. p r && f r) rs
  unfolding has_row matching
  has_row-matching p f [] = refl
  has_row-matching p f (r ∷ rs) = ground (arith, has_row-matching p f rs)

  has_row-take :
      (f : R → Bool) (n : ℕ) (rs : List R) → has_row f (take n rs) ≡ true → has_row f rs ≡ true
  unfolding has_row take
  has_row-take f zero rs h = ground arith
  has_row-take f (suc n) [] h = h
  has_row-take f (suc n) (r ∷ rs) h = ground (arith, has_row-take f n rs)

  pub has_row-weaken :
      (p q : R → Bool) (rs : List R)
      → ((r : R) → p r ≡ true → q r ≡ true)
      → has_row p rs ≡ true
      → has_row q rs ≡ true
  unfolding has_row
  has_row-weaken p q [] w h = h
  has_row-weaken p q (r ∷ rs) w h = ground (arith, w r, has_row-weaken p q rs w)

  has_row-limit :
      (f : R → Bool) (qc : QryCriteria) (rs : List R)
      → has_row f (limit qc rs) ≡ true
      → has_row f rs ≡ true
  has_row-limit f qc rs h = elim (Bool-cases (qc.maxcnt == 0 || leb (2 ^ 63) qc.maxcnt)) [
    | inl e ↦ simp e at h
    | inr e ↦ has_row-take f qc.maxcnt rs (simp e at h)
  ]

  has_row-order_by :
      (orders : Orders R) (by : QryFld) (col : R → ℕ) (f : R → Bool) (rs : List R)
      → KeepsRows orders
      → has_row f (order_by orders by col rs) ≡ has_row f rs
  has_row-order_by orders by_none col f rs keeps = keeps.desc f col rs
  has_row-order_by orders by_id col f rs keeps = keeps.asc f col rs
  has_row-order_by orders by_upd_at col f rs keeps = keeps.desc f col rs
  has_row-order_by orders by_created_at col f rs keeps = keeps.desc f col rs

  module _ (orders : Orders R) (keeps : KeepsRows orders) (cols : Columns R) (qc : QryCriteria)
      (p : R → Bool) (rs : List R) where
    -- Every row listed is one of the table that the query asks for.
    pub select_rows_sound :
        (f : R → Bool) (out : List R)
        → select_rows orders cols qc p rs ≡ some out
        → has_row f out ≡ true
        → has_row (λ r. p r && f r) rs ≡ true
    unfolding select_rows
    select_rows_sound f out e h = elim (Option-cases (query_column cols qc.by)) [
      | inl idle ↦ elim (Bool-cases (qc.lower == 0 && qc.upper == 0)) [
        | inl b ↦
            let same : limit qc (orders.scan (matching p rs)) ≡ out =
              Option.some-injective _ _ (simp b at (rw (idle, select_rows) at e)) in
            sym (has_row-matching p f rs)
            ∙ sym (keeps.scan f (matching p rs))
            ∙ has_row-limit f qc _ (rw same h)
        | inr b ↦
            let refused : none ≡ some out = simp b at (rw (idle, select_rows) at e) in ground arith
      ]
      | inr (col, is) ↦
          let same : limit qc
                (order_by orders qc.by col (matching (λ r. p r && in_bounds qc col r) rs))
              ≡ out =
            Option.some-injective _ _ (rw (is, select_rows) at e) in
          let all : has_row f (matching (λ r. p r && in_bounds qc col r) rs) ≡ true =
            sym (has_row-order_by orders qc.by col f _ keeps) ∙ has_row-limit f qc _ (rw same h) in
          has_row-weaken (λ r. (p r && in_bounds qc col r) && f r) (λ r. p r && f r) rs
            (λ r g. ground arith)
            (sym (has_row-matching (λ r. p r && in_bounds qc col r) f rs) ∙ all)
    ]

    -- Without a limit every such row within the bounds is listed.
    pub select_rows_whole :
        (col : R → ℕ) (f : R → Bool) (out : List R)
        → query_column cols qc.by ≡ some col
        → qc.maxcnt ≡ 0
        → select_rows orders cols qc p rs ≡ some out
        → has_row f out ≡ has_row (λ r. (p r && in_bounds qc col r) && f r) rs
    unfolding select_rows
    select_rows_whole col f out is all e =
        let same : limit qc
              (order_by orders qc.by col (matching (λ r. p r && in_bounds qc col r) rs))
            ≡ out =
          Option.some-injective _ _ (rw (is, select_rows) at e) in
        sym (ap (has_row f) same)
        ∙ simp all (
            has_row-order_by orders qc.by col f _ keeps
            ∙ has_row-matching (λ r. p r && in_bounds qc col r) f rs)

-- What db_iter_posts asks for, but for the bounds of the criteria.
abbrev pub is_listed_in : ℕ → PostRow → Bool
is_listed_in chan_id r = r.channel_id == chan_id && is_listed r.status

db_iter_posts-select_rows :
    (done : Bool) (orders : Orders PostRow) (chan_id : ℕ) (qc : QryCriteria) (db : Db)
    (rows : List PostRow)
    → db_iter_posts done orders chan_id qc db ≡ some rows
    → select_rows orders post_columns qc (is_listed_in chan_id) db.posts ≡ some rows
unfolding db_iter_posts
db_iter_posts-select_rows true orders chan_id qc db rows e = e
db_iter_posts-select_rows false orders chan_id qc db rows e = ground arith

module _ (done : Bool) (orders : Orders PostRow) (keeps : KeepsRows orders) (chan_id : ℕ)
    (qc : QryCriteria) (db : Db) (f : PostRow → Bool) (rows : List PostRow)
    (found : db_iter_posts done orders chan_id qc db ≡ some rows) where
  pub db_iter_posts_sound :
      has_row f rows ≡ true → has_row (λ r. is_listed_in chan_id r && f r) db.posts ≡ true
  db_iter_posts_sound =
      select_rows_sound orders keeps post_columns qc (is_listed_in chan_id) db.posts f rows
        (db_iter_posts-select_rows done orders chan_id qc db rows found)

  pub db_iter_posts_whole :
      (col : PostRow → ℕ)
      → query_column post_columns qc.by ≡ some col
      → qc.maxcnt ≡ 0
      → has_row f rows
        ≡ has_row (λ r. (is_listed_in chan_id r && in_bounds qc col r) && f r) db.posts
  db_iter_posts_whole col by all =
      select_rows_whole orders keeps post_columns qc (is_listed_in chan_id) db.posts col f rows by
        all (db_iter_posts-select_rows done orders chan_id qc db rows found)

-- With a column the query runs.
pub db_iter_posts_found :
    (orders : Orders PostRow) (chan_id : ℕ) (qc : QryCriteria) (db : Db) (col : PostRow → ℕ)
    → query_column post_columns qc.by ≡ some col
    → (rows : List PostRow) × (db_iter_posts true orders chan_id qc db ≡ some rows)
unfolding db_iter_posts select_rows
db_iter_posts_found orders chan_id qc db col by = (
  limit qc (
      order_by orders qc.by col
        (matching (λ r. is_listed_in chan_id r && in_bounds qc col r) db.posts)),
  rw (by, select_rows) refl,
)

-- With a column a query runs.
pub select_rows_found {ℓ} :
    {R : Type ℓ} (orders : Orders R) (cols : Columns R) (qc : QryCriteria) (p : R → Bool)
    (rs : List R) (col : R → ℕ)
    → query_column cols qc.by ≡ some col
    → (out : List R) × (select_rows orders cols qc p rs ≡ some out)
unfolding select_rows
select_rows_found orders cols qc p rs col by = (
  limit qc (order_by orders qc.by col (matching (λ r. p r && in_bounds qc col r) rs)),
  rw (by, select_rows) refl,
)
