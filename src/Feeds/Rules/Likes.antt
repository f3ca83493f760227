-- ===== src/Feeds/Rules/Likes.antt =====
-- The rules of likes and reports.
use feeds_service.Prelude.{ℕ, String, ◌≡◌, true, some, ◌||◌}
use feeds_service.Prelude.Tests.{ltb, ◌==◌}
use feeds_service.Obj.{UserInfo}
use feeds_service.Db.Tables.{Db}
use feeds_service.Db.Comments.{
  db_cmt_exists, db_like_exists, db_add_like, db_rm_like, db_add_reported_cmts,
}
use feeds_service.Feeds.State.{
  Server, Env, holds, is_clear, cmt_exists, like_exists, add_like, rm_like, add_reported_cmts,
  chan_get_by_id,
}
use feeds_service.Feeds.Likes.{
  LikeReq, ReportReq, hdl_post_like_req, hdl_post_unlike_req, hdl_report_illegal_cmt_req,
}
use feeds_service.Feeds.Rules.Exits.{
  IgnoresOutbox, Leaves-ret, Leaves-ready, Leaves-require, Leaves-or_fail, finish_keeps,
  notify_subers_keeps, notify_owner_keeps,
}

module _ {κ} {P : Server → Type κ} (ign : IgnoresOutbox P) (env : Env) (from : String) {s : Server}
    (h : P s) where
  pub hdl_post_like_req_keeps :
      (req : LikeReq)
      → ((u : UserInfo) (db : Db) (total : ℕ)
          → env.uinfo_of_token req.tk ≡ some u
          → is_clear
              (db_like_exists (env.db_ok like_exists) u.uid req.chan_id req.post_id req.cmt_id s.db)
            ≡ true
          → db_add_like
              (env.db_ok add_like)
              env.db_now
              u.uid
              req.chan_id
              req.post_id
              req.cmt_id
              req.proof
              s.db
            ≡ some (db, total)
          → P (record s { db = db }))
      → P (hdl_post_like_req env from req s)
  unfolding hdl_post_like_req
  hdl_post_like_req_keeps req k = finish_keeps ign env from req.tsx_id _ (
      Leaves-ready env s _ h (
        Leaves-or_fail _ s _ _ h λ u token.
          Leaves-or_fail (chan_get_by_id s req.chan_id) s _ _ h λ c _.
            Leaves-require (ltb req.post_id c.info.next_post_id) s _ _ h λ _.
              Leaves-require
                (req.cmt_id == 0
                  || holds (
                      db_cmt_exists (env.db_ok cmt_exists) req.chan_id req.post_id req.cmt_id s.db))
                s _ _ h
                λ _. Leaves-require _ s _ _ h λ clear. Leaves-or_fail _ s _ _ h λ w added.
                  Leaves-ret _ (notify_subers_keeps ign env _ _ _ (k u w.0 w.1 token clear added))))

  pub hdl_post_unlike_req_keeps :
      (req : LikeReq)
      → ((u : UserInfo) (db : Db)
          → env.uinfo_of_token req.tk ≡ some u
          → holds
              (db_like_exists (env.db_ok like_exists) u.uid req.chan_id req.post_id req.cmt_id s.db)
            ≡ true
          → db_rm_like (env.db_ok rm_like) u.uid req.chan_id req.post_id req.cmt_id s.db ≡ some db
          → P (record s { db = db }))
      → P (hdl_post_unlike_req env from req s)
  unfolding hdl_post_unlike_req
  hdl_post_unlike_req_keeps req k = finish_keeps ign env from req.tsx_id _ (
      Leaves-ready env s _ h (
        Leaves-or_fail _ s _ _ h λ u token.
          Leaves-or_fail (chan_get_by_id s req.chan_id) s _ _ h λ c _.
            Leaves-require _ s _ _ h λ liked.
              Leaves-or_fail _ s _ _ h λ db removed. Leaves-ret _ (k u db token liked removed)))

  pub hdl_report_illegal_cmt_req_keeps :
      (req : ReportReq)
      → ((u : UserInfo) (db : Db)
          → env.uinfo_of_token req.tk ≡ some u
          → db_add_reported_cmts
              (env.db_ok add_reported_cmts)
              env.db_now
              req.chan_id
              req.post_id
              req.cmt_id
              u.uid
              req.reasons
              s.db
            ≡ some db
          → P (record s { db = db }))
      → P (hdl_report_illegal_cmt_req env from req s)
  unfolding hdl_report_illegal_cmt_req
  hdl_report_illegal_cmt_req_keeps req k = finish_keeps ign env from req.tsx_id _ (
      Leaves-ready env s _ h (
        Leaves-or_fail _ s _ _ h λ u token.
          Leaves-or_fail (chan_get_by_id s req.chan_id) s _ _ h λ c _.
            Leaves-require (ltb req.post_id c.info.next_post_id) s _ _ h λ _.
              Leaves-require
                (req.cmt_id == 0
                  || holds (
                      db_cmt_exists (env.db_ok cmt_exists) req.chan_id req.post_id req.cmt_id s.db))
                s _ _ h
                λ _.
                  Leaves-require
                    (is_clear (
                      db_like_exists (env.db_ok like_exists) u.uid req.chan_id req.post_id
                        req.cmt_id s.db))
                    s _ _ h
                    λ _. Leaves-or_fail _ s _ _ h λ db added.
                      Leaves-ret _ (notify_owner_keeps ign env _ _ (k u db token added))))
