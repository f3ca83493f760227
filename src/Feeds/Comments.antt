-- ===== src/Feeds/Comments.antt =====
-- src/feeds.c: the requests on comments.
use feeds_service.Prelude.{ℕ, String, Bool, false, Option, none, some, List, [], ◌∷◌, ◌||◌}
use feeds_service.Prelude.Tests.{◌==◌, ltb, if◌then◌else◌}
use feeds_service.Obj.{
  Blob, UserInfo, CmtInfo, CmtStat, cmt_available, cmt_deleted, cmt_blocked, cmt_stat_str,
  access_token_exp, not_authorized, internal_error, not_exist,
}
use feeds_service.Db.Comments.{
  db_cmt_exists, db_cmt_is_avail, db_cmt_uid, db_add_cmt, db_upd_cmt, db_set_cmt_status,
}
use feeds_service.Feeds.State.{
  Server, Env, Exit, ret, abort, ◌>>=◌, ◌>>◌, require, or_fail, holds, ready, finish, Msg,
  cmt_exists, cmt_is_avail, cmt_uid, add_cmt, upd_cmt, set_cmt_status, post_cmt_resp, edit_cmt_resp,
  del_cmt_resp, block_cmt_resp, unblock_cmt_resp, new_cmt_notif, cmt_upd_notif, chan_get_by_id,
  nodes_of, notify_subers, send,
}

-- memset(&cmt, 0, sizeof(cmt)), then what every handler sets. CMT_AVAILABLE is 0.
abbrev pub blank_cmt : ℕ → ℕ → ℕ → CmtStat → UserInfo → CmtInfo
blank_cmt chan_id post_id cmt_id stat user = record {
  chan_id = chan_id;
  post_id = post_id;
  cmt_id = cmt_id;
  stat = stat;
  user = user;
  reply_to_cmt = 0;
  content = [];
  created_at = 0;
  upd_at = 0;
  likes = 0;
  thumbnails = [];
  hash_id = "";
  proof = "";
}

-- The log line of the notification calls `cmt_stat_str`, which may abort the process.
unfoldable pub notify_of_cmt_upd : Env → CmtInfo → String → Server → Exit Server
notify_of_cmt_upd env ci peer s =
    if env.marshal_ok (cmt_upd_notif ci)
    then (elim (cmt_stat_str ci.stat) [
      | none ↦ abort s
      | some _ ↦ ret (send env peer (cmt_upd_notif ci) s)
    ])
    else ret s

unfoldable pub notify_cmt_nodes : Env → CmtInfo → List String → Server → Exit Server
notify_cmt_nodes env ci [] s = ret s
notify_cmt_nodes env ci (node ∷ nodes) s =
    notify_of_cmt_upd env ci node s >>= λ s1. notify_cmt_nodes env ci nodes s1

unfoldable pub notify_cmt_subers : Env → CmtInfo → List ℕ → Server → Exit Server
notify_cmt_subers env ci [] s = ret s
notify_cmt_subers env ci (uid ∷ uids) s =
    notify_cmt_nodes env ci (nodes_of s.ass uid) s >>= λ s1. notify_cmt_subers env ci uids s1

-- `db_cmt_uid(…) < 0 || cmt_uid != uinfo->uid` is an error
abbrev pub is_author : Option ℕ → ℕ → Bool
is_author none uid = false
is_author (some author) uid = author == uid

pub record PostCmtReq : Type 0 where
  pub tsx_id : ℕ
  pub tk : String
  pub chan_id : ℕ
  pub post_id : ℕ
  pub cmt_id : ℕ
  pub content : Blob
  pub thumbnails : Blob
  pub hash_id : String
  pub proof : String

abbrev pub new_cmt : Env → PostCmtReq → UserInfo → CmtInfo
new_cmt env req user = record (blank_cmt req.chan_id req.post_id 0 cmt_available user) {
  reply_to_cmt = req.cmt_id;
  content = req.content;
  created_at = env.now;
  upd_at = env.now;
  thumbnails = req.thumbnails;
  hash_id = req.hash_id;
  proof = req.proof;
}

unfoldable pub hdl_post_cmt_req : Env → String → PostCmtReq → Server → Server
hdl_post_cmt_req env from req s = finish env from req.tsx_id do
  ready env s
  uinfo ← or_fail (env.uinfo_of_token req.tk) s access_token_exp
  chan ← or_fail (chan_get_by_id s req.chan_id) s not_exist
  require (ltb req.post_id chan.info.next_post_id) s not_exist
  let known = db_cmt_exists (env.db_ok cmt_exists) req.chan_id req.post_id req.cmt_id s.db
  require (req.cmt_id == 0 || holds known) s not_exist
  (db, id) ← or_fail (db_add_cmt (env.db_ok add_cmt) (new_cmt env req uinfo) s.db) s internal_error
  let cmt : CmtInfo = record (new_cmt env req uinfo) { cmt_id = id }
  let s1 : Server = record s { db = db }
  ret (notify_subers env (new_cmt_notif cmt) chan.aspcs s1, post_cmt_resp req.tsx_id id)

pub record EditCmtReq : Type 0 where
  pub tsx_id : ℕ
  pub tk : String
  pub chan_id : ℕ
  pub post_id : ℕ
  pub id : ℕ
  pub cmt_id : ℕ
  pub content : Blob
  pub thumbnails : Blob
  pub hash_id : String
  pub proof : String

abbrev pub edited_cmt : Env → EditCmtReq → UserInfo → CmtInfo
edited_cmt env req user = record (blank_cmt req.chan_id req.post_id req.id cmt_available user) {
  reply_to_cmt = req.cmt_id;
  content = req.content;
  upd_at = env.now;
  thumbnails = req.thumbnails;
  hash_id = req.hash_id;
  proof = req.proof;
}

unfoldable pub hdl_edit_cmt_req : Env → String → EditCmtReq → Server → Server
hdl_edit_cmt_req env from req s = finish env from req.tsx_id do
  ready env s
  uinfo ← or_fail (env.uinfo_of_token req.tk) s access_token_exp
  chan ← or_fail (chan_get_by_id s req.chan_id) s not_exist
  require (ltb req.post_id chan.info.next_post_id) s not_exist
  let avail = db_cmt_is_avail (env.db_ok cmt_is_avail) req.chan_id req.post_id req.id s.db
  require (holds avail) s not_exist
  let author = db_cmt_uid (env.db_ok cmt_uid) req.chan_id req.post_id req.id s.db
  require (is_author author uinfo.uid) s not_authorized
  let known = db_cmt_exists (env.db_ok cmt_exists) req.chan_id req.post_id req.cmt_id s.db
  require (req.cmt_id == 0 || holds known) s not_exist
  (db, cmt) ←
      or_fail (db_upd_cmt (env.db_ok upd_cmt) (edited_cmt env req uinfo) s.db) s internal_error
  s1 ← notify_cmt_subers env cmt chan.aspcs (record s { db = db })
  ret (s1, edit_cmt_resp req.tsx_id)

-- The parameters of delete_comment (where `cmt_id` is called `id`), block_comment and
-- unblock_comment.
pub record CmtIdReq : Type 0 where
  pub tsx_id : ℕ
  pub tk : String
  pub chan_id : ℕ
  pub post_id : ℕ
  pub cmt_id : ℕ

abbrev pub cmt_to : Env → CmtIdReq → CmtStat → UserInfo → CmtInfo
cmt_to env req stat user = record (blank_cmt req.chan_id req.post_id req.cmt_id stat user) {
  upd_at = env.now;
}

-- The end that delete_comment, block_comment and unblock_comment share, from the author's test on.
unfoldable pub set_cmt_stat :
    Env → CmtIdReq → CmtStat → UserInfo → List ℕ → Msg → Server → Exit (Server × Msg)
set_cmt_stat env req stat uinfo aspcs resp s = do
  let author = db_cmt_uid (env.db_ok cmt_uid) req.chan_id req.post_id req.cmt_id s.db
  require (is_author author uinfo.uid) s not_authorized
  (db, cmt) ←
      or_fail (db_set_cmt_status (env.db_ok set_cmt_status) (cmt_to env req stat uinfo) s.db) s
        internal_error
  s1 ← notify_cmt_subers env cmt aspcs (record s { db = db })
  ret (s1, resp)

unfoldable pub hdl_del_cmt_req : Env → String → CmtIdReq → Server → Server
hdl_del_cmt_req env from req s = finish env from req.tsx_id do
  ready env s
  uinfo ← or_fail (env.uinfo_of_token req.tk) s access_token_exp
  chan ← or_fail (chan_get_by_id s req.chan_id) s not_exist
  require (ltb req.post_id chan.info.next_post_id) s not_exist
  let avail = db_cmt_is_avail (env.db_ok cmt_is_avail) req.chan_id req.post_id req.cmt_id s.db
  require (holds avail) s not_exist
  set_cmt_stat env req cmt_deleted uinfo chan.aspcs (del_cmt_resp req.tsx_id) s

unfoldable pub hdl_block_cmt_req : Env → String → CmtIdReq → Server → Server
hdl_block_cmt_req env from req s = finish env from req.tsx_id do
  ready env s
  uinfo ← or_fail (env.uinfo_of_token req.tk) s access_token_exp
  chan ← or_fail (chan_get_by_id s req.chan_id) s not_exist
  require (ltb req.post_id chan.info.next_post_id) s not_exist
  let known = db_cmt_exists (env.db_ok cmt_exists) req.chan_id req.post_id req.cmt_id s.db
  require (holds known) s not_exist
  set_cmt_stat env req cmt_blocked uinfo chan.aspcs (block_cmt_resp req.tsx_id) s

unfoldable pub hdl_unblock_cmt_req : Env → String → CmtIdReq → Server → Server
hdl_unblock_cmt_req env from req s = finish env from req.tsx_id do
  ready env s
  uinfo ← or_fail (env.uinfo_of_token req.tk) s access_token_exp
  chan ← or_fail (chan_get_by_id s req.chan_id) s not_exist
  require (ltb req.post_id chan.info.next_post_id) s not_exist
  let known = db_cmt_exists (env.db_ok cmt_exists) req.chan_id req.post_id req.cmt_id s.db
  require (holds known) s not_exist
  set_cmt_stat env req cmt_available uinfo chan.aspcs (unblock_cmt_resp req.tsx_id) s
