-- ===== src/Feeds/Rules/Posts.antt =====
-- The rules of the requests on posts.
use feeds_service.Prelude.{String, ◌≡◌, Bool, true, false, some, not}
use feeds_service.Prelude.Tests.{if◌then◌else◌}
use feeds_service.Obj.{UserInfo, PostInfo, PostStat, post_available, user_id_is_owner}
use feeds_service.Db.Tables.{Db}
use feeds_service.Db.Posts.{
  db_add_post, db_post_is_avail, db_upd_post, db_set_post_status, db_get_post_status, db_get_post,
}
use feeds_service.Feeds.State.{
  Server, Env, Msg, Chan, holds, add_post, post_is_avail, upd_post, set_post_status,
  get_post_status, get_post, chan_get_by_id, chan_write, notify_subers,
}
use feeds_service.Feeds.Posts.{
  PubPostReq, DeclarePostReq, PostIdReq, EditPostReq, hdl_pub_post_req, hdl_declare_post_req,
  hdl_notify_post_req, hdl_edit_post_req, hdl_del_post_req, new_post, count_post, declared_stat,
  blank_post, is_deleted, edited_post, deleted_post,
}
use feeds_service.Feeds.Rules.Exits.{
  IgnoresOutbox, Leaves-ret, Leaves-ready, Leaves-require, Leaves-or_fail, finish_keeps,
  notify_subers_keeps,
}

module _ {κ} {P : Server → Type κ} (ign : IgnoresOutbox P) (env : Env) (from : String) {s : Server}
    (h : P s) where
  -- ready, a valid token, the owner
  pub hdl_pub_post_req_keeps :
      (req : PubPostReq)
      → ((u : UserInfo) (c : Chan) (db : Db)
          → env.uinfo_of_token req.tk ≡ some u
          → user_id_is_owner u.uid ≡ true
          → chan_get_by_id s req.chan_id ≡ some c
          → db_add_post (env.db_ok add_post) (new_post env req post_available c.info) s.db ≡ some db
          → P (chan_write req.chan_id count_post (record s { db = db })))
      → P (hdl_pub_post_req env from req s)
  unfolding hdl_pub_post_req
  hdl_pub_post_req_keeps req k = finish_keeps ign env from req.tsx_id _ (
      Leaves-ready env s _ h (
        Leaves-or_fail _ s _ _ h λ u token. Leaves-require _ s _ _ h λ owner.
          Leaves-or_fail _ s _ _ h λ c found. Leaves-or_fail _ s _ _ h λ db added.
            Leaves-ret _ (notify_subers_keeps ign env _ _ _ (k u c db token owner found added))))

  pub hdl_declare_post_req_keeps :
      (req : DeclarePostReq)
      → ((u : UserInfo) (c : Chan) (db : Db)
          → env.uinfo_of_token req.tk ≡ some u
          → user_id_is_owner u.uid ≡ true
          → chan_get_by_id s req.chan_id ≡ some c
          → db_add_post
              (env.db_ok add_post)
              (new_post env req.base (declared_stat req.with_notify) c.info)
              s.db
            ≡ some db
          → P (chan_write req.chan_id count_post (record s { db = db })))
      → P (hdl_declare_post_req env from req s)
  unfolding hdl_declare_post_req
  hdl_declare_post_req_keeps req k = finish_keeps ign env from req.tsx_id _ (
      Leaves-ready env s _ h (
        Leaves-or_fail _ s _ _ h λ u token. Leaves-require _ s _ _ h λ owner.
          Leaves-or_fail _ s _ _ h λ c found. Leaves-or_fail _ s _ _ h λ db added.
            Leaves-ret _ (notified req.with_notify _ c _ (k u c db token owner found added))))
    where
      notified :
          (b : Bool) (msg : Msg) (c : Chan) (t : Server)
          → P t
          → P (if b then notify_subers env msg c.aspcs t else t)
      notified true msg c t p = notify_subers_keeps ign env msg c.aspcs t p
      notified false msg c t p = p

  pub hdl_notify_post_req_keeps :
      (req : PostIdReq)
      → ((u : UserInfo) (c : Chan) (stat : PostStat) (db : Db) (pi : PostInfo)
          → env.uinfo_of_token req.tk ≡ some u
          → user_id_is_owner u.uid ≡ true
          → chan_get_by_id s req.chan_id ≡ some c
          → db_get_post_status (env.db_ok get_post_status) req.chan_id req.post_id s.db ≡ some stat
          → not (is_deleted stat) ≡ true
          → db_set_post_status
              (env.db_ok set_post_status)
              (blank_post req.chan_id req.post_id post_available)
              s.db
            ≡ some (db, pi)
          → P (record s { db = db }))
      → P (hdl_notify_post_req env from req s)
  unfolding hdl_notify_post_req
  hdl_notify_post_req_keeps req k = finish_keeps ign env from req.tsx_id _ (
      Leaves-ready env s _ h (
        Leaves-or_fail _ s _ _ h λ u token. Leaves-require _ s _ _ h λ owner.
          Leaves-or_fail _ s _ _ h λ c found. Leaves-or_fail _ s _ _ h λ stat was.
            Leaves-require _ s _ _ h λ live. Leaves-or_fail _ s _ _ h λ w written.
              let left = k u c stat w.0 w.1 token owner found was live written in
              Leaves-or_fail (db_get_post (env.db_ok get_post) req.chan_id req.post_id w.0) _ _ _
                left λ got _. Leaves-ret _ (notify_subers_keeps ign env _ _ _ left)))

  pub hdl_edit_post_req_keeps :
      (req : EditPostReq)
      → ((u : UserInfo) (c : Chan) (db : Db) (pi : PostInfo)
          → env.uinfo_of_token req.tk ≡ some u
          → user_id_is_owner u.uid ≡ true
          → chan_get_by_id s req.chan_id ≡ some c
          → holds (db_post_is_avail (env.db_ok post_is_avail) req.chan_id req.post_id s.db) ≡ true
          → db_upd_post (env.db_ok upd_post) (edited_post env req) s.db ≡ some (db, pi)
          → P (record s { db = db }))
      → P (hdl_edit_post_req env from req s)
  unfolding hdl_edit_post_req
  hdl_edit_post_req_keeps req k = finish_keeps ign env from req.tsx_id _ (
      Leaves-ready env s _ h (
        Leaves-or_fail _ s _ _ h λ u token. Leaves-require _ s _ _ h λ owner.
          Leaves-or_fail _ s _ _ h λ c found. Leaves-require _ s _ _ h λ avail.
            Leaves-or_fail _ s _ _ h λ w written.
              Leaves-ret _ (
                notify_subers_keeps ign env _ _ _ (k u c w.0 w.1 token owner found avail written))))

  pub hdl_del_post_req_keeps :
      (req : PostIdReq)
      → ((u : UserInfo) (c : Chan) (db : Db) (pi : PostInfo)
          → env.uinfo_of_token req.tk ≡ some u
          → user_id_is_owner u.uid ≡ true
          → chan_get_by_id s req.chan_id ≡ some c
          → holds (db_post_is_avail (env.db_ok post_is_avail) req.chan_id req.post_id s.db) ≡ true
          → db_set_post_status (env.db_ok set_post_status) (deleted_post env req) s.db
            ≡ some (db, pi)
          → P (record s { db = db }))
      → P (hdl_del_post_req env from req s)
  unfolding hdl_del_post_req
  hdl_del_post_req_keeps req k = finish_keeps ign env from req.tsx_id _ (
      Leaves-ready env s _ h (
        Leaves-or_fail _ s _ _ h λ u token. Leaves-require _ s _ _ h λ owner.
          Leaves-or_fail _ s _ _ h λ c found. Leaves-require _ s _ _ h λ avail.
            Leaves-or_fail _ s _ _ h λ w written.
              Leaves-ret _ (
                notify_subers_keeps ign env _ _ _ (k u c w.0 w.1 token owner found avail written))))
