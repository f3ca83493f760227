-- ===== src/Db/Frames.antt =====
-- What a successful write leaves alone: it is a change of the tables that it names, and no other.
use feeds_service.Prelude.{ℕ, String, ◌≡◌, Bool, some, ◌∷◌, arith}
use feeds_service.Prelude.Rows.{update, delete}
use feeds_service.Obj.{PostInfo, CmtInfo, ChanInfo, UserInfo}
use feeds_service.Prelude.Words.{inc64}
use feeds_service.Db.Tables.{Db, is_chan, is_post, is_cmt, is_sub, is_like}
use feeds_service.Db.Channels.{
  db_create_chan, db_upd_chan, db_add_sub, db_unsub, db_update_user_info, new_chan_row,
  upd_chan_row, count_subscriber, discount_subscriber,
}
use feeds_service.Db.Posts.{
  db_add_post, db_upd_post, db_set_post_status, new_post_row, count_post, upd_post_row,
  set_post_row_status,
}
use feeds_service.Db.Comments.{
  db_add_cmt, db_upd_cmt, db_set_cmt_status, db_add_like, db_rm_like, db_add_reported_cmts,
  update_likes, upd_cmt_row, set_cmt_row_status, count_cmt, like_post, like_cmt, unlike_post,
  unlike_cmt,
}

module _ (done : Bool) (db : Db) where
  pub db_add_post_frame :
      (pi : PostInfo) {db' : Db}
      → db_add_post done pi db ≡ some db'
      → db' ≡ record db {
        posts = new_post_row pi ∷ db.posts;
        channels = update (is_chan pi.chan_id) count_post db.channels;
      }
  unfolding db_add_post
  db_add_post_frame pi h = ground arith

  pub db_upd_post_frame :
      (pi : PostInfo) {db' : Db} {pi' : PostInfo}
      → db_upd_post done pi db ≡ some (db', pi')
      → db'
        ≡ record db { posts = update (is_post pi.chan_id pi.post_id) (upd_post_row pi) db.posts }
  unfolding db_upd_post
  db_upd_post_frame pi h = ground arith

  pub db_set_post_status_frame :
      (pi : PostInfo) {db' : Db} {pi' : PostInfo}
      → db_set_post_status done pi db ≡ some (db', pi')
      → db' ≡ record db {
        posts = update (is_post pi.chan_id pi.post_id) (set_post_row_status pi.stat) db.posts;
      }
  unfolding db_set_post_status
  db_set_post_status_frame pi h = ground arith

  pub db_add_cmt_frame :
      (ci : CmtInfo) {db' : Db} {id : ℕ}
      → db_add_cmt done ci db ≡ some (db', id)
      → db' ≡ record db {
        comments = db'.comments;
        posts = update (is_post ci.chan_id ci.post_id) count_cmt db.posts;
      }
  unfolding db_add_cmt
  db_add_cmt_frame ci h = ground arith

  pub db_upd_cmt_frame :
      (ci : CmtInfo) {db' : Db} {ci' : CmtInfo}
      → db_upd_cmt done ci db ≡ some (db', ci')
      → db' ≡ record db {
        comments = update (is_cmt ci.chan_id ci.post_id ci.cmt_id) (upd_cmt_row ci) db.comments;
      }
  unfolding db_upd_cmt
  db_upd_cmt_frame ci h = ground arith

  pub db_set_cmt_status_frame :
      (ci : CmtInfo) {db' : Db} {ci' : CmtInfo}
      → db_set_cmt_status done ci db ≡ some (db', ci')
      → db' ≡ record db {
        comments =
            update (is_cmt ci.chan_id ci.post_id ci.cmt_id) (set_cmt_row_status ci) db.comments;
      }
  unfolding db_set_cmt_status
  db_set_cmt_status_frame ci h = ground arith

  pub db_add_like_frame :
      (now uid c p m : ℕ) (proof : String) {db' : Db} {total : ℕ}
      → db_add_like done now uid c p m proof db ≡ some (db', total)
      → db' ≡ record (update_likes like_post like_cmt c p m db) {
        likes =
            record {
              channel_id = c;
              post_id = p;
              comment_id = m;
              user_id = uid;
              created_at = now;
              proof = proof;
            }
            ∷ db.likes;
      }
  unfolding db_add_like
  db_add_like_frame now uid c p m proof h = ground arith

  pub db_rm_like_frame :
      (uid c p m : ℕ) {db' : Db}
      → db_rm_like done uid c p m db ≡ some db'
      → db' ≡ record (update_likes unlike_post unlike_cmt c p m db) {
        likes = delete (is_like uid c p m) db.likes;
      }
  unfolding db_rm_like
  db_rm_like_frame uid c p m h = ground arith

  pub db_add_reported_cmts_frame :
      (now c p m uid : ℕ) (reason : String) {db' : Db}
      → db_add_reported_cmts done now c p m uid reason db ≡ some db'
      → db' ≡ record db { reports = db'.reports }
  unfolding db_add_reported_cmts
  db_add_reported_cmts_frame now c p m uid reason h = ground arith

  pub db_create_chan_frame :
      (ci : ChanInfo) {db' : Db}
      → db_create_chan done ci db ≡ some db'
      → db' ≡ record db {
        channels = new_chan_row (inc64 db.chan_seq) ci ∷ db.channels;
        chan_seq = inc64 db.chan_seq;
      }
  unfolding db_create_chan
  db_create_chan_frame ci h = ground arith

  pub db_upd_chan_frame :
      (ci : ChanInfo) {db' : Db}
      → db_upd_chan done ci db ≡ some db'
      → db' ≡ record db { channels = update (is_chan ci.chan_id) (upd_chan_row ci) db.channels }
  unfolding db_upd_chan
  db_upd_chan_frame ci h = ground arith

  pub db_add_sub_frame :
      (now uid c : ℕ) (proof : String) {db' : Db}
      → db_add_sub done now uid c proof db ≡ some db'
      → db' ≡ record db {
        subscriptions =
            record { user_id = uid; channel_id = c; create_at = now; proof = proof }
            ∷ db.subscriptions;
        channels = update (is_chan c) count_subscriber db.channels;
      }
  unfolding db_add_sub
  db_add_sub_frame now uid c proof h = ground arith

  pub db_unsub_frame :
      (uid c : ℕ) {db' : Db}
      → db_unsub done uid c db ≡ some db'
      → db' ≡ record db {
        subscriptions = delete (is_sub uid c) db.subscriptions;
        channels = update (is_chan c) discount_subscriber db.channels;
      }
  unfolding db_unsub
  db_unsub_frame uid c h = ground arith

  pub db_update_user_info_frame :
      (now : ℕ) (ui : UserInfo) {db' : Db}
      → db_update_user_info done now ui db ≡ some db'
      → db' ≡ record db { users = db'.users }
  unfolding db_update_user_info
  db_update_user_info_frame now ui h = ground arith
