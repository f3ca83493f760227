-- ===== src/Feeds/Requests/Reported.antt =====
-- src/feeds.c: what a like leaves its user to ask for.
use feeds_service.Prelude.{ℕ, String, ◌≡◌, refl, Bool, true, ◌||◌, some, arith}
use feeds_service.Prelude.Tests.{◌==◌, ltb}
use feeds_service.Prelude.Rows.{has_row-hit}
use feeds_service.Obj.{UserInfo, wrong_state}
use feeds_service.Db.Tables.{Db, LikeRow, is_like}
use feeds_service.Db.Frames.{db_add_like_frame}
use feeds_service.Db.Comments.{db_cmt_exists, db_like_exists, db_add_like}
use feeds_service.Feeds.State.{
  Server, Env, Chan, holds, chan_get_by_id, cmt_exists, like_exists, send, err_resp, finish,
}
use feeds_service.Feeds.Likes.{ReportReq, hdl_report_illegal_cmt_req}

db_like_exists-db_add_like :
    (done : Bool) (now uid c p m : ℕ) (proof : String) (db db' : Db) {total : ℕ}
    → db_add_like done now uid c p m proof db ≡ some (db', total)
    → db_like_exists true uid c p m db' ≡ some true
unfolding db_like_exists
db_like_exists-db_add_like done now uid c p m proof db db' e =
    let row : LikeRow = record {
      channel_id = c;
      post_id = p;
      comment_id = m;
      user_id = uid;
      created_at = now;
      proof = proof;
    } in
    let same : is_like uid c p m row ≡ true = ground arith in
    simp
      (
        db_add_like_frame done db now uid c p m proof e,
        has_row-hit (is_like uid c p m) row db.likes same,
      )
      refl

-- A user whose like of a post or comment is the last write of the database cannot report it: the
-- report is answered with wrong_state and changes nothing, although the channel and the post are
-- there, and the comment if one is named.
pub hdl_report_illegal_cmt_req-db_add_like :
    (env : Env) (from : String) (s : Server) (req : ReportReq) (u : UserInfo) (c : Chan)
    (done : Bool) (now total : ℕ) (proof : String) (db : Db)
    → env.did_is_ready ≡ true
    → env.uinfo_of_token req.tk ≡ some u
    → chan_get_by_id s req.chan_id ≡ some c
    → ltb req.post_id c.info.next_post_id ≡ true
    → (req.cmt_id == 0
        || holds (db_cmt_exists (env.db_ok cmt_exists) req.chan_id req.post_id req.cmt_id s.db))
      ≡ true
    → env.db_ok like_exists ≡ true
    → db_add_like done now u.uid req.chan_id req.post_id req.cmt_id proof db ≡ some (s.db, total)
    → hdl_report_illegal_cmt_req env from req s ≡ send env from (err_resp req.tsx_id wrong_state) s
unfolding hdl_report_illegal_cmt_req finish
hdl_report_illegal_cmt_req-db_add_like env from s req u c done now total proof db did token found
      posted known can_read liked =
    let exists =
      db_like_exists-db_add_like done now u.uid req.chan_id req.post_id req.cmt_id proof db s.db
        liked in
    simp (did, token, found, posted, known, can_read, exists) refl
