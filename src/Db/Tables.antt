-- ===== src/Db/Tables.antt =====
-- The tables that src/db.cpp creates, each as a list of rows, and the tests of its WHERE clauses.
-- Columns that the program only ever fills with 'NA' (iid, memo) are left out.
use feeds_service.Prelude.{ℕ, String, Bool, ◌&&◌, List}
use feeds_service.Prelude.Tests.{◌==◌}
use feeds_service.Obj.{Blob, PostStat, CmtStat}

pub record ChanRow : Type 0 where
  pub channel_id : ℕ
  pub created_at : ℕ
  pub updated_at : ℕ
  pub name : String
  pub intro : String
  pub next_post_id : ℕ
  pub subscribers : ℕ
  pub status : ℕ
  pub tip_methods : String
  pub proof : String
  pub avatar : Blob

pub record PostRow : Type 0 where
  pub channel_id : ℕ
  pub post_id : ℕ
  pub created_at : ℕ
  pub updated_at : ℕ
  pub next_comment_id : ℕ
  pub likes : ℕ
  pub status : PostStat
  pub hash_id : String
  pub proof : String
  pub origin_post_url : String
  pub thumbnails : Blob
  pub content : Blob

pub record CmtRow : Type 0 where
  pub channel_id : ℕ
  pub post_id : ℕ
  pub comment_id : ℕ
  pub refcomment_id : ℕ
  pub user_id : ℕ
  pub created_at : ℕ
  pub updated_at : ℕ
  pub likes : ℕ
  pub status : CmtStat
  pub hash_id : String
  pub proof : String
  pub thumbnails : Blob
  pub content : Blob

pub record UserRow : Type 0 where
  pub user_id : ℕ
  pub did : String
  pub name : String
  pub email : String
  pub display_name : String
  pub update_at : ℕ
  pub avatar : Blob

pub record SubRow : Type 0 where
  pub user_id : ℕ
  pub channel_id : ℕ
  pub create_at : ℕ
  pub proof : String

pub record LikeRow : Type 0 where
  pub channel_id : ℕ
  pub post_id : ℕ
  pub comment_id : ℕ
  pub user_id : ℕ
  pub created_at : ℕ
  pub proof : String

pub record ReportRow : Type 0 where
  pub channel_id : ℕ
  pub post_id : ℕ
  pub comment_id : ℕ
  pub reporter_id : ℕ
  pub created_at : ℕ
  pub reasons : String

-- `chan_seq` is the AUTOINCREMENT sequence of `channels`: the largest id ever given out.
pub record Db : Type 0 where
  pub channels : List ChanRow
  pub posts : List PostRow
  pub comments : List CmtRow
  pub users : List UserRow
  pub subscriptions : List SubRow
  pub likes : List LikeRow
  pub reports : List ReportRow
  pub chan_seq : ℕ

-- WHERE channel_id = c
abbrev pub is_chan : ℕ → ChanRow → Bool
is_chan c r = r.channel_id == c

-- WHERE channel_id = c AND post_id = p
abbrev pub is_post : ℕ → ℕ → PostRow → Bool
is_post c p r = r.channel_id == c && r.post_id == p

-- WHERE channel_id = c AND post_id = p AND comment_id = m
abbrev pub is_cmt : ℕ → ℕ → ℕ → CmtRow → Bool
is_cmt c p m r = r.channel_id == c && (r.post_id == p && r.comment_id == m)

-- WHERE user_id = u AND channel_id = c
abbrev pub is_sub : ℕ → ℕ → SubRow → Bool
is_sub u c r = r.user_id == u && r.channel_id == c

-- WHERE user_id = u AND channel_id = c AND post_id = p AND comment_id = m
abbrev pub is_like : ℕ → ℕ → ℕ → ℕ → LikeRow → Bool
is_like u c p m r = r.user_id == u && (r.channel_id == c && (r.post_id == p && r.comment_id == m))

-- PRIMARY KEY(channel_id, post_id, comment_id, reporter_id)
abbrev pub is_report : ℕ → ℕ → ℕ → ℕ → ReportRow → Bool
is_report c p m u r =
    r.channel_id == c && (r.post_id == p && (r.comment_id == m && r.reporter_id == u))
