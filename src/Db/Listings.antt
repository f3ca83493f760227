-- ===== src/Db/Listings.antt =====
-- src/db.cpp: the queries behind the requests that list channels, posts and comments. A query is
-- prepared, bound and stepped through as a whole: `done` says whether SQLite does all that.
use feeds_service.Prelude.{
  ℕ, ◌+◌, ◌%◌, ◌^◌, Bool, true, false, ◌&&◌, ◌||◌, Option, none, some, List, [], ◌∷◌,
}
use feeds_service.Prelude.Tests.{◌==◌, leb, if◌then◌else◌}
use feeds_service.Prelude.Words.{dec64}
use feeds_service.Prelude.Lists.{take}
use feeds_service.Prelude.Rows.{select}
use feeds_service.Prelude.Options.{◌>>◌, guard}
use feeds_service.Obj.{
  Blob, PostInfo, CmtInfo, CmtStat, cmt_available, PostStat, post_available, post_deleted,
  post_declared,
}
use feeds_service.Db.Tables.{Db, ChanRow, PostRow, CmtRow, UserRow}

-- QryFld
pub data QryFld : Type 0 where
  by_none by_id by_upd_at by_created_at : QryFld

-- The unmarshalling refuses any other `by`.
pub record QryCriteria : Type 0 where
  pub by : QryFld
  pub upper : ℕ
  pub lower : ℕ
  pub maxcnt : ℕ

-- The columns that a query may be ordered by.
pub record Columns {ℓ} (R : Type ℓ) : Type ℓ where
  pub id : R → ℕ
  pub updated_at : R → ℕ
  pub created_at : R → ℕ

-- SQLite's order of the rows: as the tables give them, and by a column, up or down. Which of the
-- rows with one value of the column comes first is SQLite's choice as well.
pub record Orders {ℓ} (R : Type ℓ) : Type ℓ where
  pub scan : List R → List R
  pub asc : (R → ℕ) → List R → List R
  pub desc : (R → ℕ) → List R → List R

-- The order on the 64-bit integers with a sign.
abbrev pub le64 : ℕ → ℕ → Bool
le64 a b = leb ((a + 2 ^ 63) % 2 ^ 64) ((b + 2 ^ 63) % 2 ^ 64)

module _ {ℓ} {R : Type ℓ} where
  abbrev pub query_column : Columns R → QryFld → Option (R → ℕ)
  query_column cols by_none = none
  query_column cols by_id = some cols.id
  query_column cols by_upd_at = some cols.updated_at
  query_column cols by_created_at = some cols.created_at

  -- >= :lower and <= :upper, each only if it is not 0
  abbrev pub in_bounds : QryCriteria → (R → ℕ) → R → Bool
  in_bounds qc col r =
      (qc.lower == 0 || le64 qc.lower (col r)) && (qc.upper == 0 || le64 (col r) qc.upper)

  unfoldable pub matching : (R → Bool) → List R → List R
  matching p [] = []
  matching p (r ∷ rs) = let rest = matching p rs in if p r then r ∷ rest else rest

  -- LIMIT :maxcnt, which stands only if it is not 0; a negative number is no limit.
  abbrev pub limit : QryCriteria → List R → List R
  limit qc rs = if qc.maxcnt == 0 || leb (2 ^ 63) qc.maxcnt then rs else take qc.maxcnt rs

  abbrev pub order_by : Orders R → QryFld → (R → ℕ) → List R → List R
  order_by orders by_id col rs = orders.asc col rs
  order_by orders _ col rs = orders.desc col rs

  -- WHERE p, with what the criteria add. Without a column :lower and :upper are not in the
  -- statement, so that binding them is refused.
  unfoldable pub select_rows :
      Orders R → Columns R → QryCriteria → (R → Bool) → List R → Option (List R)
  select_rows orders cols qc p rs = elim (query_column cols qc.by) [
    | none ↦
        if qc.lower == 0 && qc.upper == 0
        then some (limit qc (orders.scan (matching p rs)))
        else none
    | some col ↦
        some (limit qc (order_by orders qc.by col (matching (λ r. p r && in_bounds qc col r) rs)))
  ]

abbrev pub chan_columns : Columns ChanRow
chan_columns = record {
  id = λ r. r.channel_id;
  updated_at = λ r. r.updated_at;
  created_at = λ r. r.created_at;
}

abbrev pub post_columns : Columns PostRow
post_columns = record {
  id = λ r. r.post_id;
  updated_at = λ r. r.updated_at;
  created_at = λ r. r.created_at;
}

unfoldable pub db_iter_chans : Bool → Orders ChanRow → QryCriteria → Db → Option (List ChanRow)
db_iter_chans done orders qc db = do
  guard done
  select_rows orders chan_columns qc (λ r. true) db.channels

-- WHERE channel_id = :channel_id AND (status = POST_AVAILABLE OR status = POST_DELETED)
abbrev pub is_listed : PostStat → Bool
is_listed post_available = true
is_listed post_deleted = true
is_listed post_declared = false

unfoldable pub db_iter_posts : Bool → Orders PostRow → ℕ → QryCriteria → Db → Option (List PostRow)
db_iter_posts done orders chan_id qc db = do
  guard done
  select_rows orders post_columns qc (λ r. r.channel_id == chan_id && is_listed r.status) db.posts

abbrev if_available : PostStat → Blob → Blob
if_available post_available bytes = bytes
if_available _ bytes = []

-- row2post
abbrev pub listed_post : PostRow → PostInfo
listed_post r = record {
  chan_id = r.channel_id;
  post_id = r.post_id;
  stat = r.status;
  created_at = r.created_at;
  upd_at = r.updated_at;
  cmts = dec64 r.next_comment_id;
  likes = r.likes;
  content = if_available r.status r.content;
  thumbnails = if_available r.status r.thumbnails;
  hash_id = r.hash_id;
  proof = r.proof;
  origin_post_url = r.origin_post_url;
}

-- comments JOIN users USING (user_id)
pub record CmtUser : Type 0 where
  pub cmt : CmtRow
  pub user : UserRow

unfoldable pub join_users : List UserRow → List CmtRow → List CmtUser
join_users users [] = []
join_users users (c ∷ cs) =
    let rest = join_users users cs in
    elim (select (λ u. u.user_id == c.user_id) users) [
      | none ↦ rest
      | some u ↦ record { cmt = c; user = u } ∷ rest
    ]

abbrev pub cmt_columns : Columns CmtUser
cmt_columns = record {
  id = λ x. x.cmt.comment_id;
  updated_at = λ x. x.cmt.updated_at;
  created_at = λ x. x.cmt.created_at;
}

-- WHERE channel_id = :channel_id AND post_id = :post_id
abbrev pub is_cmt_on : ℕ → ℕ → CmtUser → Bool
is_cmt_on chan_id post_id x = x.cmt.channel_id == chan_id && x.cmt.post_id == post_id

unfoldable pub db_iter_cmts :
    Bool → Orders CmtUser → ℕ → ℕ → QryCriteria → Db → Option (List CmtUser)
db_iter_cmts done orders chan_id post_id qc db = do
  guard done
  select_rows orders cmt_columns qc (is_cmt_on chan_id post_id) (join_users db.users db.comments)

abbrev if_cmt_available : CmtStat → Blob → Blob
if_cmt_available cmt_available bytes = bytes
if_cmt_available _ bytes = []

-- row2cmt, on zeroed memory
abbrev pub listed_cmt : CmtUser → CmtInfo
listed_cmt x = record {
  chan_id = x.cmt.channel_id;
  post_id = x.cmt.post_id;
  cmt_id = x.cmt.comment_id;
  stat = x.cmt.status;
  user = record {
    uid = 0;
    did = x.user.did;
    name = x.user.name;
    email = "";
    display_name = "";
    upd_at = 0;
    avatar = [];
  };
  reply_to_cmt = x.cmt.refcomment_id;
  content = if_cmt_available x.cmt.status x.cmt.content;
  created_at = x.cmt.created_at;
  upd_at = x.cmt.updated_at;
  likes = x.cmt.likes;
  thumbnails = if_cmt_available x.cmt.status x.cmt.thumbnails;
  hash_id = x.cmt.hash_id;
  proof = x.cmt.proof;
}
