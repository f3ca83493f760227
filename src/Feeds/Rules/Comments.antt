-- ===== src/Feeds/Rules/Comments.antt =====
-- The rules of the requests on comments.
use feeds_service.Prelude.{ℕ, String, ◌≡◌, true, some, ◌||◌}
use feeds_service.Prelude.Tests.{ltb, ◌==◌}
use feeds_service.Obj.{UserInfo, CmtInfo, CmtStat, cmt_available, cmt_deleted, cmt_blocked}
use feeds_service.Db.Tables.{Db}
use feeds_service.Db.Comments.{
  db_cmt_exists, db_cmt_is_avail, db_cmt_uid, db_add_cmt, db_upd_cmt, db_set_cmt_status,
}
use feeds_service.Feeds.State.{
  Server, Env, Msg, Chan, holds, cmt_exists, cmt_is_avail, cmt_uid, add_cmt, upd_cmt,
  set_cmt_status, chan_get_by_id,
}
use feeds_service.Feeds.Comments.{
  PostCmtReq, EditCmtReq, CmtIdReq, hdl_post_cmt_req, hdl_edit_cmt_req, hdl_del_cmt_req,
  hdl_block_cmt_req, hdl_unblock_cmt_req, set_cmt_stat, new_cmt, edited_cmt, cmt_to, is_author,
}
use feeds_service.Feeds.Rules.Exits.{
  IgnoresOutbox, Leaves, Leaves-ret, Leaves-ready, Leaves-require, Leaves-or_fail, Leaves-bind,
  finish_keeps, notify_subers_keeps, notify_cmt_subers_keeps,
}

module _ {κ} {P : Server → Type κ} (ign : IgnoresOutbox P) (env : Env) (from : String) {s : Server}
    (h : P s) where
  pub hdl_post_cmt_req_keeps :
      (req : PostCmtReq)
      → ((u : UserInfo) (c : Chan) (db : Db) (id : ℕ)
          → env.uinfo_of_token req.tk ≡ some u
          → chan_get_by_id s req.chan_id ≡ some c
          → ltb req.post_id c.info.next_post_id ≡ true
          → db_add_cmt (env.db_ok add_cmt) (new_cmt env req u) s.db ≡ some (db, id)
          → P (record s { db = db }))
      → P (hdl_post_cmt_req env from req s)
  unfolding hdl_post_cmt_req
  hdl_post_cmt_req_keeps req k = finish_keeps ign env from req.tsx_id _ (
      Leaves-ready env s _ h (
        Leaves-or_fail _ s _ _ h λ u token. Leaves-or_fail _ s _ _ h λ c found.
          Leaves-require _ s _ _ h λ posted.
            Leaves-require
              (req.cmt_id == 0
                || holds
                    (db_cmt_exists (env.db_ok cmt_exists) req.chan_id req.post_id req.cmt_id s.db))
              s _ _ h
              λ _. Leaves-or_fail _ s _ _ h λ w added.
                Leaves-ret _
                  (notify_subers_keeps ign env _ _ _ (k u c w.0 w.1 token found posted added))))

  pub hdl_edit_cmt_req_keeps :
      (req : EditCmtReq)
      → ((u : UserInfo) (c : Chan) (db : Db) (ci : CmtInfo)
          → env.uinfo_of_token req.tk ≡ some u
          → chan_get_by_id s req.chan_id ≡ some c
          → is_author (db_cmt_uid (env.db_ok cmt_uid) req.chan_id req.post_id req.id s.db) u.uid
            ≡ true
          → db_upd_cmt (env.db_ok upd_cmt) (edited_cmt env req u) s.db ≡ some (db, ci)
          → P (record s { db = db }))
      → P (hdl_edit_cmt_req env from req s)
  unfolding hdl_edit_cmt_req
  hdl_edit_cmt_req_keeps req k = finish_keeps ign env from req.tsx_id _ (
      Leaves-ready env s _ h (
        Leaves-or_fail _ s _ _ h λ u token. Leaves-or_fail _ s _ _ h λ c found.
          Leaves-require (ltb req.post_id c.info.next_post_id) s _ _ h λ _.
            Leaves-require
              (holds (db_cmt_is_avail (env.db_ok cmt_is_avail) req.chan_id req.post_id req.id s.db))
              s _ _ h
              λ _. Leaves-require _ s _ _ h λ author.
                Leaves-require
                  (req.cmt_id == 0
                    || holds (
                        db_cmt_exists (env.db_ok cmt_exists) req.chan_id req.post_id req.cmt_id
                          s.db))
                  s _ _ h
                  λ _. Leaves-or_fail _ s _ _ h λ w written.
                    Leaves-bind _ _
                      (notify_cmt_subers_keeps ign env _ _ _
                        (k u c w.0 w.1 token found author written))
                      (λ t left. Leaves-ret _ left)))

  -- What the three changes of a comment's status need.
  abbrev pub StatusKeeps : CmtIdReq → CmtStat → Type κ
  StatusKeeps req stat =
      (u : UserInfo) (c : Chan) (db : Db) (ci : CmtInfo)
      → env.uinfo_of_token req.tk ≡ some u
      → chan_get_by_id s req.chan_id ≡ some c
      → is_author (db_cmt_uid (env.db_ok cmt_uid) req.chan_id req.post_id req.cmt_id s.db) u.uid
        ≡ true
      → db_set_cmt_status (env.db_ok set_cmt_status) (cmt_to env req stat u) s.db ≡ some (db, ci)
      → P (record s { db = db })

  set_cmt_stat_keeps :
      (req : CmtIdReq) (stat : CmtStat) (u : UserInfo) (c : Chan) (resp : Msg)
      → env.uinfo_of_token req.tk ≡ some u
      → chan_get_by_id s req.chan_id ≡ some c
      → StatusKeeps req stat
      → Leaves P (λ r. P r.0) (set_cmt_stat env req stat u c.aspcs resp s)
  unfolding set_cmt_stat
  set_cmt_stat_keeps req stat u c resp token found k = Leaves-require _ s _ _ h λ author.
      Leaves-or_fail _ s _ _ h λ w written.
        Leaves-bind _ _
          (notify_cmt_subers_keeps ign env _ _ _ (k u c w.0 w.1 token found author written))
          (λ t left. Leaves-ret _ left)

  pub hdl_del_cmt_req_keeps :
      (req : CmtIdReq) → StatusKeeps req cmt_deleted → P (hdl_del_cmt_req env from req s)
  unfolding hdl_del_cmt_req
  hdl_del_cmt_req_keeps req k = finish_keeps ign env from req.tsx_id _ (
      Leaves-ready env s _ h (
        Leaves-or_fail _ s _ _ h λ u token. Leaves-or_fail _ s _ _ h λ c found.
          Leaves-require (ltb req.post_id c.info.next_post_id) s _ _ h λ _.
            Leaves-require
              (holds
                (db_cmt_is_avail (env.db_ok cmt_is_avail) req.chan_id req.post_id req.cmt_id s.db))
              s _ _ h λ _. set_cmt_stat_keeps req _ u c _ token found k))

  pub hdl_block_cmt_req_keeps :
      (req : CmtIdReq) → StatusKeeps req cmt_blocked → P (hdl_block_cmt_req env from req s)
  unfolding hdl_block_cmt_req
  hdl_block_cmt_req_keeps req k = finish_keeps ign env from req.tsx_id _ (
      Leaves-ready env s _ h (
        Leaves-or_fail _ s _ _ h λ u token. Leaves-or_fail _ s _ _ h λ c found.
          Leaves-require (ltb req.post_id c.info.next_post_id) s _ _ h λ _.
            Leaves-require
              (holds (db_cmt_exists (env.db_ok cmt_exists) req.chan_id req.post_id req.cmt_id s.db))
              s _ _ h λ _. set_cmt_stat_keeps req _ u c _ token found k))

  pub hdl_unblock_cmt_req_keeps :
      (req : CmtIdReq) → StatusKeeps req cmt_available → P (hdl_unblock_cmt_req env from req s)
  unfolding hdl_unblock_cmt_req
  hdl_unblock_cmt_req_keeps req k = finish_keeps ign env from req.tsx_id _ (
      Leaves-ready env s _ h (
        Leaves-or_fail _ s _ _ h λ u token. Leaves-or_fail _ s _ _ h λ c found.
          Leaves-require (ltb req.post_id c.info.next_post_id) s _ _ h λ _.
            Leaves-require
              (holds (db_cmt_exists (env.db_ok cmt_exists) req.chan_id req.post_id req.cmt_id s.db))
              s _ _ h λ _. set_cmt_stat_keeps req _ u c _ token found k))
