-- ===== src/Db/Shown.antt =====
-- What a list of posts may show of the rows of a channel, written apart from the queries of
-- src/db.cpp and from row2post.
use feeds_service.Prelude.{
  ℕ, ◌<◌, ◌^◌, ◌≡◌, refl, ◌∙◌, ap, Bool, true, false, not, ◌&&◌, ◌||◌, some, List, [], ◌∷◌, arith,
}
use feeds_service.Prelude.Tests.{◌==◌, leb}
use feeds_service.Prelude.Words.{dec64}
use feeds_service.Prelude.Rows.{has_row}
use feeds_service.Obj.{Blob, PostInfo, PostStat, post_available, post_deleted, post_declared}
use feeds_service.Db.Tables.{PostRow}
use feeds_service.Db.Listings.{
  QryFld, by_id, by_upd_at, by_created_at, QryCriteria, query_column, post_columns, in_bounds,
  listed_post, le64,
}
use feeds_service.Db.Listed.{is_listed_in}

-- A row with some content and some thumbnails.
abbrev with_bytes : PostRow → Blob → Blob → PostInfo
with_bytes r content thumbnails = record {
  chan_id = r.channel_id;
  post_id = r.post_id;
  stat = r.status;
  created_at = r.created_at;
  upd_at = r.updated_at;
  cmts = dec64 r.next_comment_id;
  likes = r.likes;
  content = content;
  thumbnails = thumbnails;
  hash_id = r.hash_id;
  proof = r.proof;
  origin_post_url = r.origin_post_url;
}

-- The bytes of an available post, and of no other.
unfoldable pub shown : PostRow → PostInfo
shown r = elim r.status [
  | post_available ↦ with_bytes r r.content r.thumbnails
  | post_deleted ↦ with_bytes r [] []
  | post_declared ↦ with_bytes r [] []
]

abbrev pub is_declared : PostStat → Bool
is_declared post_available = false
is_declared post_deleted = false
is_declared post_declared = true

-- A row of the channel that is no declared post.
abbrev pub is_public_in : ℕ → PostRow → Bool
is_public_in chan_id r = r.channel_id == chan_id && not (is_declared r.status)

-- The column that a request orders by.
pub data ColumnOf : QryFld → (PostRow → ℕ) → Type 0 where
  ids : ColumnOf by_id (λ r. r.post_id)
  updates : ColumnOf by_upd_at (λ r. r.updated_at)
  creations : ColumnOf by_created_at (λ r. r.created_at)

-- A bound of 0 is none.
abbrev pub is_between : ℕ → ℕ → ℕ → Bool
is_between lower upper x = leb lower x && (upper == 0 || leb x upper)

-- The column of every row is below 2 ^ 63.
abbrev pub AllPositive : (PostRow → ℕ) → List PostRow → Type 0
AllPositive col rs = has_row (λ r. leb (2 ^ 63) (col r)) rs ≡ false

listed_post-shown : (r : PostRow) → listed_post r ≡ shown r
unfolding shown
listed_post-shown r = by_status r.status r
  where
    by_status :
        (st : PostStat) (r : PostRow)
        → listed_post (record r { status = st }) ≡ shown (record r { status = st })
    by_status post_available r = refl
    by_status post_deleted r = refl
    by_status post_declared r = refl

is_listed_in-is_public_in :
    (chan_id : ℕ) (r : PostRow) → is_listed_in chan_id r ≡ is_public_in chan_id r
is_listed_in-is_public_in chan_id r = by_status r.status r
  where
    by_status :
        (st : PostStat) (r : PostRow)
        → is_listed_in chan_id (record r { status = st })
          ≡ is_public_in chan_id (record r { status = st })
    by_status post_available r = refl
    by_status post_deleted r = refl
    by_status post_declared r = refl

-- A listed row passes a test as a public one does.
pub is_listed_in-shown :
    (chan_id : ℕ) (r : PostRow) (f : PostInfo → Bool)
    → (is_listed_in chan_id r && f (listed_post r)) ≡ (is_public_in chan_id r && f (shown r))
is_listed_in-shown chan_id r f =
    ap (◌&& f (listed_post r)) (is_listed_in-is_public_in chan_id r)
    ∙ ap (λ pi. is_public_in chan_id r && f pi) (listed_post-shown r)

pub ColumnOf-query_column :
    {by : QryFld} {col : PostRow → ℕ} → ColumnOf by col → query_column post_columns by ≡ some col
ColumnOf-query_column ids = refl
ColumnOf-query_column updates = refl
ColumnOf-query_column creations = refl

le64-leb : (a b : ℕ) → a < 2 ^ 63 → b < 2 ^ 63 → le64 a b ≡ leb a b
le64-leb a b ha hb = ground arith

-- Numbers below 2 ^ 63 compare as they are.
in_bounds-is_between :
    (qc : QryCriteria) (col : PostRow → ℕ) (r : PostRow)
    → qc.lower < 2 ^ 63
    → qc.upper < 2 ^ 63
    → leb (2 ^ 63) (col r) ≡ false
    → in_bounds qc col r ≡ is_between qc.lower qc.upper (col r)
in_bounds-is_between qc col r low up small = ground arith

-- A row listed within the bounds passes a test as a public one between them does.
pub is_listed_in-is_between :
    (chan_id : ℕ) (qc : QryCriteria) (col : PostRow → ℕ) (f : PostInfo → Bool)
    → qc.lower < 2 ^ 63
    → qc.upper < 2 ^ 63
    → (r : PostRow) → leb (2 ^ 63) (col r) ≡ false
    → ((is_listed_in chan_id r && in_bounds qc col r) && f (listed_post r))
      ≡ ((is_public_in chan_id r && is_between qc.lower qc.upper (col r)) && f (shown r))
is_listed_in-is_between chan_id qc col f low up r small =
    ap (λ b. (is_listed_in chan_id r && b) && f (listed_post r))
      (in_bounds-is_between qc col r low up small)
    ∙ ap (λ b. (b && is_between qc.lower qc.upper (col r)) && f (listed_post r))
        (is_listed_in-is_public_in chan_id r)
    ∙ ap (λ pi. (is_public_in chan_id r && is_between qc.lower qc.upper (col r)) && f pi)
        (listed_post-shown r)

module _ {ℓ} {R : Type ℓ} (out p q : R → Bool) (h : (r : R) → out r ≡ false → p r ≡ q r) where
  -- Tests that agree on every row of a list agree on the list.
  pub has_row_agree : (rs : List R) → has_row out rs ≡ false → has_row p rs ≡ has_row q rs
  unfolding has_row
  has_row_agree [] none_out = refl
  has_row_agree (r ∷ rs) none_out = ground (arith, h r, has_row_agree rs)
