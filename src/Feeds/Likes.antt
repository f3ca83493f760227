-- ===== src/Feeds/Likes.antt =====
-- src/feeds.c: likes, and reports of comments.
use feeds_service.Prelude.{ℕ, String, ◌||◌}
use feeds_service.Prelude.Tests.{◌==◌, ltb}
use feeds_service.Obj.{
  UserInfo, LikeInfo, ReportedCmtInfo, access_token_exp, internal_error, not_exist, wrong_state,
}
use feeds_service.Db.Comments.{
  db_cmt_exists, db_like_exists, db_add_like, db_rm_like, db_add_reported_cmts,
}
use feeds_service.Feeds.State.{
  Server, Env, ret, ◌>>=◌, ◌>>◌, require, or_fail, holds, is_clear, ready, finish, cmt_exists,
  like_exists, add_like, rm_like, add_reported_cmts, post_like_resp, post_unlike_resp,
  report_cmt_resp, new_like_notif, report_cmt_notif, chan_get_by_id, notify_subers, notify_owner,
}

-- The parameters of post_like and post_unlike (which has no proof).
pub record LikeReq : Type 0 where
  pub tsx_id : ℕ
  pub tk : String
  pub chan_id : ℕ
  pub post_id : ℕ
  pub cmt_id : ℕ
  pub proof : String

abbrev pub like_info : LikeReq → UserInfo → ℕ → LikeInfo
like_info req user total = record {
  chan_id = req.chan_id;
  post_id = req.post_id;
  cmt_id = req.cmt_id;
  user = user;
  total_cnt = total;
  proof = req.proof;
}

unfoldable pub hdl_post_like_req : Env → String → LikeReq → Server → Server
hdl_post_like_req env from req s = finish env from req.tsx_id do
  ready env s
  uinfo ← or_fail (env.uinfo_of_token req.tk) s access_token_exp
  chan ← or_fail (chan_get_by_id s req.chan_id) s not_exist
  require (ltb req.post_id chan.info.next_post_id) s not_exist
  let known = db_cmt_exists (env.db_ok cmt_exists) req.chan_id req.post_id req.cmt_id s.db
  require (req.cmt_id == 0 || holds known) s not_exist
  let liked =
      db_like_exists (env.db_ok like_exists) uinfo.uid req.chan_id req.post_id req.cmt_id s.db
  require (is_clear liked) s wrong_state
  (db, total) ←
      or_fail
        (db_add_like (env.db_ok add_like) env.db_now uinfo.uid req.chan_id req.post_id req.cmt_id
          req.proof s.db)
        s internal_error
  let s1 : Server = record s { db = db }
  ret (
    notify_subers env (new_like_notif (like_info req uinfo total)) chan.aspcs s1,
    post_like_resp req.tsx_id,
  )

unfoldable pub hdl_post_unlike_req : Env → String → LikeReq → Server → Server
hdl_post_unlike_req env from req s = finish env from req.tsx_id do
  ready env s
  uinfo ← or_fail (env.uinfo_of_token req.tk) s access_token_exp
  chan ← or_fail (chan_get_by_id s req.chan_id) s not_exist
  let liked =
      db_like_exists (env.db_ok like_exists) uinfo.uid req.chan_id req.post_id req.cmt_id s.db
  require (holds liked) s wrong_state
  db ←
      or_fail (db_rm_like (env.db_ok rm_like) uinfo.uid req.chan_id req.post_id req.cmt_id s.db) s
        internal_error
  ret (record s { db = db }, post_unlike_resp req.tsx_id)

pub record ReportReq : Type 0 where
  pub tsx_id : ℕ
  pub tk : String
  pub chan_id : ℕ
  pub post_id : ℕ
  pub cmt_id : ℕ
  pub reasons : String

-- The handler sets neither `reasons` nor `created_at` of the object that it sends: the pointer
-- `reasons` is what the stack happens to hold, null or a string.
abbrev pub report_info : Env → ReportReq → UserInfo → ReportedCmtInfo
report_info env req user = record {
  chan_id = req.chan_id;
  post_id = req.post_id;
  cmt_id = req.cmt_id;
  reporter = user;
  reasons = env.stale_reasons;
  created_at = env.stale_created_at;
}

unfoldable pub hdl_report_illegal_cmt_req : Env → String → ReportReq → Server → Server
hdl_report_illegal_cmt_req env from req s = finish env from req.tsx_id do
  ready env s
  uinfo ← or_fail (env.uinfo_of_token req.tk) s access_token_exp
  chan ← or_fail (chan_get_by_id s req.chan_id) s not_exist
  require (ltb req.post_id chan.info.next_post_id) s not_exist
  let known = db_cmt_exists (env.db_ok cmt_exists) req.chan_id req.post_id req.cmt_id s.db
  require (req.cmt_id == 0 || holds known) s not_exist
  let liked =
      db_like_exists (env.db_ok like_exists) uinfo.uid req.chan_id req.post_id req.cmt_id s.db
  require (is_clear liked) s wrong_state
  db ←
      or_fail
        (db_add_reported_cmts (env.db_ok add_reported_cmts) env.db_now req.chan_id req.post_id
          req.cmt_id uinfo.uid req.reasons s.db)
        s internal_error
  let s1 : Server = record s { db = db }
  ret (
    notify_owner env (report_cmt_notif (report_info env req uinfo)) s1,
    report_cmt_resp req.tsx_id,
  )
