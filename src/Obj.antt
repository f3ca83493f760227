-- ===== src/Obj.antt =====
-- src/obj.h and src/err.h: the objects that the handlers pass around, and the error codes.
-- A pointer with a length (`content` and `con_len`) is one byte list; a C string is a `String`.
use feeds_service.Prelude.{ℕ, String, Bool, Option, none, some, List}
use feeds_service.Prelude.Tests.{◌==◌}

abbrev pub Blob : Type 0
Blob = List ℕ

-- CHAN_ID_START, POST_ID_START, CMT_ID_START, USER_ID_START and OWNER_USER_ID are all 1.
abbrev pub chan_id_start : ℕ
chan_id_start = 1

abbrev pub post_id_start : ℕ
post_id_start = 1

abbrev pub cmt_id_start : ℕ
cmt_id_start = 1

abbrev pub owner_user_id : ℕ
owner_user_id = 1

unfoldable pub user_id_is_owner : ℕ → Bool
user_id_is_owner id = id == 1

pub record UserInfo : Type 0 where
  pub uid : ℕ
  pub did : String
  pub name : String
  pub email : String
  pub display_name : String
  pub upd_at : ℕ
  pub avatar : Blob

-- `owner` always points to the one `feeds_owner_info`, so it is no field.
pub record ChanInfo : Type 0 where
  pub chan_id : ℕ
  pub name : String
  pub intro : String
  pub created_at : ℕ
  pub upd_at : ℕ
  pub subs : ℕ
  pub next_post_id : ℕ
  pub avatar : Blob
  pub tip_methods : String
  pub proof : String
  pub status : ℕ

-- The bounds POST_WRONG_STAT and CMT_WRONG_STAT, which no object has, are left out.
pub data PostStat : Type 0 where
  post_available post_deleted post_declared : PostStat

pub record PostInfo : Type 0 where
  pub chan_id : ℕ
  pub post_id : ℕ
  pub stat : PostStat
  pub created_at : ℕ
  pub upd_at : ℕ
  pub cmts : ℕ
  pub likes : ℕ
  pub content : Blob
  pub thumbnails : Blob
  pub hash_id : String
  pub proof : String
  pub origin_post_url : String

pub data CmtStat : Type 0 where
  cmt_available cmt_deleted cmt_blocked : CmtStat

-- `none` is the call of `abort()` in the `default` branch.
unfoldable pub cmt_stat_str : CmtStat → Option String
cmt_stat_str cmt_available = some "available"
cmt_stat_str cmt_deleted = some "deleted"
cmt_stat_str cmt_blocked = none

pub record CmtInfo : Type 0 where
  pub chan_id : ℕ
  pub post_id : ℕ
  pub cmt_id : ℕ
  pub stat : CmtStat
  pub user : UserInfo
  pub reply_to_cmt : ℕ
  pub content : Blob
  pub created_at : ℕ
  pub upd_at : ℕ
  pub likes : ℕ
  pub thumbnails : Blob
  pub hash_id : String
  pub proof : String

-- `created_at` is "for read only in 2.0" and no handler here sets or reads it.
pub record LikeInfo : Type 0 where
  pub chan_id : ℕ
  pub post_id : ℕ
  pub cmt_id : ℕ
  pub user : UserInfo
  pub total_cnt : ℕ
  pub proof : String

-- `reasons` may be a null pointer.
pub record ReportedCmtInfo : Type 0 where
  pub chan_id : ℕ
  pub post_id : ℕ
  pub cmt_id : ℕ
  pub reporter : UserInfo
  pub reasons : Option String
  pub created_at : ℕ

pub data Error : Type 0 where
  already_exists not_exist not_authorized wrong_state access_token_exp internal_error : Error
  invalid_params invalid_chal_resp invalid_vc : Error
  unknown_method db_error max_feeds_limit : Error
