-- ===== src/Feeds/Channels.antt =====
-- src/feeds.c: the requests on channels and on the user's own record.
use feeds_service.Prelude.{ℕ, String, [], not, ◌&&◌, str_eq}
use feeds_service.Prelude.Tests.{leb}
use feeds_service.Prelude.Words.{inc64}
use feeds_service.Obj.{
  Blob, ChanInfo, UserInfo, user_id_is_owner, access_token_exp, not_authorized, already_exists,
  internal_error, max_feeds_limit, db_error, not_exist,
}
use feeds_service.Db.Channels.{db_count_channels, db_create_chan, db_upd_chan, db_update_user_info}
use feeds_service.Feeds.State.{
  Server, Env, Chan, ret, ◌>>=◌, ◌>>◌, require, or_fail, ready, finish, get_count, create_chan,
  upd_chan, update_user_info, new_chan, create_chan_resp, upd_chan_resp, upd_user_info_resp,
  chan_upd_notif, chan_put, chan_sub, chan_get_by_id, chan_exist_by_name, notify_subers,
}

pub record CreateChanReq : Type 0 where
  pub tsx_id : ℕ
  pub tk : String
  pub name : String
  pub intro : String
  pub avatar : Blob
  pub tipm : String
  pub proof : String

-- `.upd_at = ci.created_at` reads a member of the object that is being initialised.
abbrev pub new_chan_info : Env → CreateChanReq → Server → ChanInfo
new_chan_info env req s = record {
  chan_id = s.nxt_chan_id;
  name = req.name;
  intro = req.intro;
  created_at = env.now;
  upd_at = env.stale_upd_at;
  subs = 0;
  next_post_id = 1;
  avatar = req.avatar;
  tip_methods = req.tipm;
  proof = req.proof;
  status = 0;
}

-- The channel count is tested before the token.
unfoldable pub hdl_create_chan_req : Env → String → CreateChanReq → Server → Server
hdl_create_chan_req env from req s = finish env from req.tsx_id do
  total ← or_fail (db_count_channels (env.db_ok get_count) s.db) s db_error
  require (leb total 4) s max_feeds_limit
  ready env s
  uinfo ← or_fail (env.uinfo_of_token req.tk) s access_token_exp
  require (user_id_is_owner uinfo.uid) s not_authorized
  require (not (chan_exist_by_name s req.name)) s already_exists
  require (env.alloc_ok new_chan) s internal_error
  let ci = new_chan_info env req s
  db ← or_fail (db_create_chan (env.db_ok create_chan) ci s.db) s internal_error
  let chan : Chan = record { info = ci; aspcs = [] }
  let s1 = chan_put chan (record s { db = db; nxt_chan_id = inc64 s.nxt_chan_id })
  ret (s1, create_chan_resp req.tsx_id ci.chan_id)

pub record UpdChanReq : Type 0 where
  pub tsx_id : ℕ
  pub tk : String
  pub chan_id : ℕ
  pub name : String
  pub intro : String
  pub avatar : Blob
  pub tipm : String
  pub proof : String

abbrev pub upd_chan_info : Env → UpdChanReq → ChanInfo → ChanInfo
upd_chan_info env req info = record info {
  chan_id = req.chan_id;
  name = req.name;
  intro = req.intro;
  upd_at = env.now;
  avatar = req.avatar;
  tip_methods = req.tipm;
  proof = req.proof;
}

unfoldable pub hdl_upd_chan_req : Env → String → UpdChanReq → Server → Server
hdl_upd_chan_req env from req s = finish env from req.tsx_id do
  ready env s
  uinfo ← or_fail (env.uinfo_of_token req.tk) s access_token_exp
  require (user_id_is_owner uinfo.uid) s not_authorized
  chan ← or_fail (chan_get_by_id s req.chan_id) s not_exist
  require (not (not (str_eq chan.info.name req.name) && chan_exist_by_name s req.name)) s
      already_exists
  let ci = upd_chan_info env req chan.info
  let chan_upd : Chan = record { info = ci; aspcs = chan.aspcs }
  require (env.alloc_ok new_chan) s internal_error
  db ← or_fail (db_upd_chan (env.db_ok upd_chan) ci s.db) s internal_error
  let s1 = chan_sub chan_upd chan (record s { db = db })
  ret (notify_subers env (chan_upd_notif ci) chan.aspcs s1, upd_chan_resp req.tsx_id)

pub record UpdUserInfoReq : Type 0 where
  pub tsx_id : ℕ
  pub tk : String
  pub name : String
  pub email : String
  pub display_name : String
  pub avatar : Blob

abbrev pub upd_user : Env → UpdUserInfoReq → UserInfo → UserInfo
upd_user env req uinfo = record uinfo {
  name = req.name;
  email = req.email;
  display_name = req.display_name;
  upd_at = env.now;
  avatar = req.avatar;
}

unfoldable pub hdl_upd_user_info_req : Env → String → UpdUserInfoReq → Server → Server
hdl_upd_user_info_req env from req s = finish env from req.tsx_id do
  ready env s
  uinfo ← or_fail (env.uinfo_of_token req.tk) s access_token_exp
  db ←
      or_fail
        (db_update_user_info (env.db_ok update_user_info) env.db_now (upd_user env req uinfo) s.db)
        s internal_error
  ret (record s { db = db }, upd_user_info_resp req.tsx_id)
