-- ===== src/Feeds/Rules/Channels.antt =====
-- The rules of the requests on channels and on the user's own record.
use feeds_service.Prelude.{ℕ, String, ◌≡◌, true, some, not, [], ◌&&◌, str_eq}
use feeds_service.Prelude.Tests.{leb}
use feeds_service.Prelude.Words.{inc64}
use feeds_service.Obj.{UserInfo, user_id_is_owner}
use feeds_service.Db.Tables.{Db}
use feeds_service.Db.Channels.{db_count_channels, db_create_chan, db_upd_chan, db_update_user_info}
use feeds_service.Feeds.State.{
  Server, Env, Chan, new_chan, get_count, create_chan, upd_chan, update_user_info, chan_put,
  chan_sub, chan_get_by_id, chan_exist_by_name,
}
use feeds_service.Feeds.Channels.{
  CreateChanReq, UpdChanReq, UpdUserInfoReq, hdl_create_chan_req, hdl_upd_chan_req,
  hdl_upd_user_info_req, new_chan_info, upd_chan_info, upd_user,
}
use feeds_service.Feeds.Rules.Exits.{
  IgnoresOutbox, Leaves-ret, Leaves-ready, Leaves-require, Leaves-or_fail, finish_keeps,
  notify_subers_keeps,
}

module _ {κ} {P : Server → Type κ} (ign : IgnoresOutbox P) (env : Env) (from : String) {s : Server}
    (h : P s) where
  pub hdl_create_chan_req_keeps :
      (req : CreateChanReq)
      → ((total : ℕ) (u : UserInfo) (db : Db)
          → db_count_channels (env.db_ok get_count) s.db ≡ some total
          → leb total 4 ≡ true
          → env.uinfo_of_token req.tk ≡ some u
          → user_id_is_owner u.uid ≡ true
          → not (chan_exist_by_name s req.name) ≡ true
          → db_create_chan (env.db_ok create_chan) (new_chan_info env req s) s.db ≡ some db
          → P (
              chan_put
                (record { info = new_chan_info env req s; aspcs = [] })
                (record s { db = db; nxt_chan_id = inc64 s.nxt_chan_id })))
      → P (hdl_create_chan_req env from req s)
  unfolding hdl_create_chan_req
  hdl_create_chan_req_keeps req k = finish_keeps ign env from req.tsx_id _ (
      Leaves-or_fail _ s _ _ h λ total counted. Leaves-require _ s _ _ h λ few.
        Leaves-ready env s _ h (
          Leaves-or_fail _ s _ _ h λ u token. Leaves-require _ s _ _ h λ owner.
            Leaves-require _ s _ _ h λ fresh. Leaves-require (env.alloc_ok new_chan) s _ _ h λ _.
              Leaves-or_fail _ s _ _ h
                λ db created. Leaves-ret _ (k total u db counted few token owner fresh created)))

  pub hdl_upd_chan_req_keeps :
      (req : UpdChanReq)
      → ((u : UserInfo) (c : Chan) (db : Db)
          → env.uinfo_of_token req.tk ≡ some u
          → user_id_is_owner u.uid ≡ true
          → chan_get_by_id s req.chan_id ≡ some c
          → not (not (str_eq c.info.name req.name) && chan_exist_by_name s req.name) ≡ true
          → db_upd_chan (env.db_ok upd_chan) (upd_chan_info env req c.info) s.db ≡ some db
          → P (
              chan_sub
                (record { info = upd_chan_info env req c.info; aspcs = c.aspcs })
                c
                (record s { db = db })))
      → P (hdl_upd_chan_req env from req s)
  unfolding hdl_upd_chan_req
  hdl_upd_chan_req_keeps req k = finish_keeps ign env from req.tsx_id _ (
      Leaves-ready env s _ h (
        Leaves-or_fail _ s _ _ h λ u token. Leaves-require _ s _ _ h λ owner.
          Leaves-or_fail _ s _ _ h λ c found. Leaves-require _ s _ _ h λ free.
            Leaves-require (env.alloc_ok new_chan) s _ _ h λ _.
              Leaves-or_fail _ s _ _ h λ db updated.
                Leaves-ret _
                  (notify_subers_keeps ign env _ _ _ (k u c db token owner found free updated))))

  pub hdl_upd_user_info_req_keeps :
      (req : UpdUserInfoReq)
      → ((u : UserInfo) (db : Db)
          → env.uinfo_of_token req.tk ≡ some u
          → db_update_user_info (env.db_ok update_user_info) env.db_now (upd_user env req u) s.db
            ≡ some db
          → P (record s { db = db }))
      → P (hdl_upd_user_info_req env from req s)
  unfolding hdl_upd_user_info_req
  hdl_upd_user_info_req_keeps req k = finish_keeps ign env from req.tsx_id _ (
      Leaves-ready env s _ h (
        Leaves-or_fail _ s _ _ h
          λ u token. Leaves-or_fail _ s _ _ h λ db updated. Leaves-ret _ (k u db token updated)))
