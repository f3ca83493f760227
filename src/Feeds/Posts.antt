-- ===== src/Feeds/Posts.antt =====
-- src/feeds.c: the requests on posts.
use feeds_service.Prelude.{ℕ, String, Bool, true, false, [], not}
use feeds_service.Prelude.Tests.{if◌then◌else◌}
use feeds_service.Prelude.Words.{inc64}
use feeds_service.Obj.{
  Blob, ChanInfo, PostInfo, PostStat, post_available, post_deleted, post_declared, user_id_is_owner,
  access_token_exp, not_authorized, internal_error, not_exist, wrong_state,
}
use feeds_service.Db.Posts.{
  db_add_post, db_post_is_avail, db_upd_post, db_set_post_status, db_get_post_status, db_get_post,
}
use feeds_service.Feeds.State.{
  Server, Env, Chan, ret, ◌>>=◌, ◌>>◌, require, or_fail, holds, ready, finish, add_post,
  post_is_avail, upd_post, set_post_status, get_post_status, get_post, pub_post_resp,
  declare_post_resp, notify_post_resp, edit_post_resp, del_post_resp, new_post_notif,
  post_upd_notif, chan_get_by_id, chan_write, notify_subers,
}

-- memset(&post, 0, sizeof(post)), then the ids and the status. A null string is "".
abbrev pub blank_post : ℕ → ℕ → PostStat → PostInfo
blank_post chan_id post_id stat = record {
  chan_id = chan_id;
  post_id = post_id;
  stat = stat;
  created_at = 0;
  upd_at = 0;
  cmts = 0;
  likes = 0;
  content = [];
  thumbnails = [];
  hash_id = "";
  proof = "";
  origin_post_url = "";
}

-- ++chan->info.next_post_id
abbrev pub count_post : Chan → Chan
count_post c = record c { info = record c.info { next_post_id = inc64 c.info.next_post_id } }

pub record PubPostReq : Type 0 where
  pub tsx_id : ℕ
  pub tk : String
  pub chan_id : ℕ
  pub content : Blob
  pub thumbnails : Blob
  pub hash_id : String
  pub proof : String
  pub origin_post_url : String

abbrev pub new_post : Env → PubPostReq → PostStat → ChanInfo → PostInfo
new_post env req stat info = record (blank_post req.chan_id info.next_post_id stat) {
  created_at = env.now;
  upd_at = env.now;
  content = req.content;
  thumbnails = req.thumbnails;
  hash_id = req.hash_id;
  proof = req.proof;
  origin_post_url = req.origin_post_url;
}

unfoldable pub hdl_pub_post_req : Env → String → PubPostReq → Server → Server
hdl_pub_post_req env from req s = finish env from req.tsx_id do
  ready env s
  uinfo ← or_fail (env.uinfo_of_token req.tk) s access_token_exp
  require (user_id_is_owner uinfo.uid) s not_authorized
  chan ← or_fail (chan_get_by_id s req.chan_id) s not_exist
  let post = new_post env req post_available chan.info
  db ← or_fail (db_add_post (env.db_ok add_post) post s.db) s internal_error
  let s1 = chan_write req.chan_id count_post (record s { db = db })
  ret (notify_subers env (new_post_notif post) chan.aspcs s1, pub_post_resp req.tsx_id post.post_id)

pub record DeclarePostReq : Type 0 where
  pub base : PubPostReq
  pub open base use *
  pub with_notify : Bool

-- A post that is declared with no notification can be notified later.
abbrev pub declared_stat : Bool → PostStat
declared_stat true = post_available
declared_stat false = post_declared

unfoldable pub hdl_declare_post_req : Env → String → DeclarePostReq → Server → Server
hdl_declare_post_req env from req s = finish env from req.tsx_id do
  ready env s
  uinfo ← or_fail (env.uinfo_of_token req.tk) s access_token_exp
  require (user_id_is_owner uinfo.uid) s not_authorized
  chan ← or_fail (chan_get_by_id s req.chan_id) s not_exist
  let post = new_post env req.base (declared_stat req.with_notify) chan.info
  db ← or_fail (db_add_post (env.db_ok add_post) post s.db) s internal_error
  let s1 = chan_write req.chan_id count_post (record s { db = db })
  let s2 = if req.with_notify then notify_subers env (new_post_notif post) chan.aspcs s1 else s1
  ret (s2, declare_post_resp req.tsx_id post.post_id)

pub record PostIdReq : Type 0 where
  pub tsx_id : ℕ
  pub tk : String
  pub chan_id : ℕ
  pub post_id : ℕ

abbrev pub is_deleted : PostStat → Bool
is_deleted post_available = false
is_deleted post_deleted = true
is_deleted post_declared = false

-- The read at the end can fail when the status has been written already.
unfoldable pub hdl_notify_post_req : Env → String → PostIdReq → Server → Server
hdl_notify_post_req env from req s = finish env from req.tsx_id do
  ready env s
  uinfo ← or_fail (env.uinfo_of_token req.tk) s access_token_exp
  require (user_id_is_owner uinfo.uid) s not_authorized
  chan ← or_fail (chan_get_by_id s req.chan_id) s not_exist
  stat ←
      or_fail (db_get_post_status (env.db_ok get_post_status) req.chan_id req.post_id s.db) s
        not_exist
  require (not (is_deleted stat)) s wrong_state
  let post = blank_post req.chan_id req.post_id post_available
  (db, _) ← or_fail (db_set_post_status (env.db_ok set_post_status) post s.db) s internal_error
  let s1 : Server = record s { db = db }
  got ← or_fail (db_get_post (env.db_ok get_post) req.chan_id req.post_id db) s1 internal_error
  ret (notify_subers env (post_upd_notif got) chan.aspcs s1, notify_post_resp req.tsx_id)

pub record EditPostReq : Type 0 where
  pub tsx_id : ℕ
  pub tk : String
  pub chan_id : ℕ
  pub post_id : ℕ
  pub content : Blob
  pub thumbnails : Blob
  pub hash_id : String
  pub proof : String
  pub origin_post_url : String

abbrev pub edited_post : Env → EditPostReq → PostInfo
edited_post env req = record (blank_post req.chan_id req.post_id post_available) {
  upd_at = env.now;
  content = req.content;
  thumbnails = req.thumbnails;
  hash_id = req.hash_id;
  proof = req.proof;
  origin_post_url = req.origin_post_url;
}

unfoldable pub hdl_edit_post_req : Env → String → EditPostReq → Server → Server
hdl_edit_post_req env from req s = finish env from req.tsx_id do
  ready env s
  uinfo ← or_fail (env.uinfo_of_token req.tk) s access_token_exp
  require (user_id_is_owner uinfo.uid) s not_authorized
  chan ← or_fail (chan_get_by_id s req.chan_id) s not_exist
  require (holds (db_post_is_avail (env.db_ok post_is_avail) req.chan_id req.post_id s.db)) s
      not_exist
  (db, post) ←
      or_fail (db_upd_post (env.db_ok upd_post) (edited_post env req) s.db) s internal_error
  let s1 : Server = record s { db = db }
  ret (notify_subers env (post_upd_notif post) chan.aspcs s1, edit_post_resp req.tsx_id)

abbrev pub deleted_post : Env → PostIdReq → PostInfo
deleted_post env req = record (blank_post req.chan_id req.post_id post_deleted) { upd_at = env.now }

unfoldable pub hdl_del_post_req : Env → String → PostIdReq → Server → Server
hdl_del_post_req env from req s = finish env from req.tsx_id do
  ready env s
  uinfo ← or_fail (env.uinfo_of_token req.tk) s access_token_exp
  require (user_id_is_owner uinfo.uid) s not_authorized
  chan ← or_fail (chan_get_by_id s req.chan_id) s not_exist
  require (holds (db_post_is_avail (env.db_ok post_is_avail) req.chan_id req.post_id s.db)) s
      not_exist
  (db, post) ←
      or_fail (db_set_post_status (env.db_ok set_post_status) (deleted_post env req) s.db) s
        internal_error
  let s1 : Server = record s { db = db }
  ret (notify_subers env (post_upd_notif post) chan.aspcs s1, del_post_resp req.tsx_id)
