-- ===== src/Feeds/Transactions/Defs.antt =====
-- The writes of src/db.cpp as a relation between the database before and after.
use feeds_service.Prelude.{ℕ, String, ◌≡◌, ◌≤◌, ◌⊎◌, Bool, true, not, ◌&&◌, Option, some}
use mathlib.Core.Option
use feeds_service.Prelude.Rows.{has_row, count, select}
use feeds_service.Obj.{ChanInfo, PostInfo, CmtInfo, UserInfo}
use feeds_service.Db.Tables.{Db, PostRow, CmtRow, is_post, is_cmt, is_sub, is_like}
use feeds_service.Db.Channels.{
  db_create_chan, db_upd_chan, db_add_sub, db_unsub, db_update_user_info,
}
use feeds_service.Db.Posts.{is_available, db_add_post, db_upd_post, db_set_post_status}
use feeds_service.Db.Comments.{
  db_add_cmt, db_upd_cmt, db_set_cmt_status, db_add_like, db_rm_like, db_add_reported_cmts,
}
use feeds_service.Feeds.Posts.{is_deleted}

-- A post that is not deleted.
abbrev pub is_live_post : ℕ → ℕ → PostRow → Bool
is_live_post c p r = is_post c p r && not (is_deleted r.status)

-- The user by whom a comment stands in the database.
abbrev pub author_of : ℕ → ℕ → ℕ → Db → Option ℕ
author_of c p m db = Option.map (λ (r : CmtRow). r.user_id) (select (is_cmt c p m) db.comments)

-- One successful write, with what the handler has tested before it.
pub data Transaction (db db' : Db) : Type 0 where
  chan_created :
      (done : Bool) (ci : ChanInfo)
      → count (λ _. true) db.channels ≤ 4
      → db_create_chan done ci db ≡ some db'
      → Transaction db db'
  chan_updated :
      (done : Bool) (ci : ChanInfo) → db_upd_chan done ci db ≡ some db' → Transaction db db'
  user_updated :
      (done : Bool) (now : ℕ) (ui : UserInfo)
      → db_update_user_info done now ui db ≡ some db'
      → Transaction db db'
  post_added :
      (done : Bool) (pi : PostInfo) → db_add_post done pi db ≡ some db' → Transaction db db'
  post_updated :
      (done : Bool) (pi : PostInfo) {pi' : PostInfo}
      → has_row (λ r. is_post pi.chan_id pi.post_id r && is_available r.status) db.posts ≡ true
      → db_upd_post done pi db ≡ some (db', pi')
      → Transaction db db'
  post_status_set :
      (done : Bool) (pi : PostInfo) {pi' : PostInfo}
      → has_row (is_live_post pi.chan_id pi.post_id) db.posts ≡ true
      → db_set_post_status done pi db ≡ some (db', pi')
      → Transaction db db'
  cmt_added :
      (done : Bool) (ci : CmtInfo) {id : ℕ}
      → db_add_cmt done ci db ≡ some (db', id)
      → Transaction db db'
  cmt_updated :
      (done : Bool) (ci : CmtInfo) {ci' : CmtInfo}
      → author_of ci.chan_id ci.post_id ci.cmt_id db ≡ some ci.user.uid
      → db_upd_cmt done ci db ≡ some (db', ci')
      → Transaction db db'
  cmt_status_set :
      (done : Bool) (ci : CmtInfo) {ci' : CmtInfo}
      → author_of ci.chan_id ci.post_id ci.cmt_id db ≡ some ci.user.uid
      → db_set_cmt_status done ci db ≡ some (db', ci')
      → Transaction db db'
  like_added :
      (done : Bool) (now uid c p m : ℕ) (proof : String) {total : ℕ}
      → db_add_like done now uid c p m proof db ≡ some (db', total)
      → Transaction db db'
  like_removed :
      (done : Bool) (uid c p m : ℕ)
      → has_row (is_like uid c p m) db.likes ≡ true
      → db_rm_like done uid c p m db ≡ some db'
      → Transaction db db'
  sub_added :
      (done : Bool) (now uid c : ℕ) (proof : String)
      → db_add_sub done now uid c proof db ≡ some db'
      → Transaction db db'
  sub_removed :
      (done : Bool) (uid c : ℕ)
      → has_row (is_sub uid c) db.subscriptions ≡ true
      → db_unsub done uid c db ≡ some db'
      → Transaction db db'
  cmt_reported :
      (done : Bool) (now c p m uid : ℕ) (reason : String)
      → db_add_reported_cmts done now c p m uid reason db ≡ some db'
      → Transaction db db'

abbrev pub Writes : Db → Db → Type 0
Writes db db' = (db' ≡ db) ⊎ Transaction db db'
