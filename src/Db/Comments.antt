-- ===== src/Db/Comments.antt =====
-- src/db.cpp: comments, likes and reports. The first argument says whether SQLite succeeds.
use feeds_service.Prelude.{ℕ, String, Bool, true, false, not, ◌&&◌, Option, some, ◌∷◌}
use feeds_service.Prelude.Tests.{◌==◌, if◌then◌else◌}
use feeds_service.Prelude.Words.{inc64, dec64}
use feeds_service.Prelude.Rows.{select, has_row, update, delete}
use feeds_service.Prelude.Options.{◌>>=◌, ◌>>◌, guard}
use feeds_service.Obj.{CmtInfo, CmtStat, cmt_available, cmt_deleted, cmt_blocked}
use feeds_service.Db.Tables.{
  Db, PostRow, CmtRow, LikeRow, ReportRow, is_post, is_cmt, is_like, is_report,
}

unfoldable pub db_cmt_exists : Bool → ℕ → ℕ → ℕ → Db → Option Bool
db_cmt_exists done channel_id post_id comment_id db = do
  guard done
  some (has_row (is_cmt channel_id post_id comment_id) db.comments)

abbrev pub is_available : CmtStat → Bool
is_available cmt_available = true
is_available cmt_deleted = false
is_available cmt_blocked = false

unfoldable pub db_cmt_is_avail : Bool → ℕ → ℕ → ℕ → Db → Option Bool
db_cmt_is_avail done channel_id post_id comment_id db = do
  guard done
  some (has_row (λ r. is_cmt channel_id post_id comment_id r && is_available r.status) db.comments)

unfoldable pub db_cmt_uid : Bool → ℕ → ℕ → ℕ → Db → Option ℕ
db_cmt_uid done channel_id post_id comment_id db = do
  guard done
  r ← select (is_cmt channel_id post_id comment_id) db.comments
  some r.user_id

abbrev pub new_cmt_row : ℕ → CmtInfo → CmtRow
new_cmt_row id ci = record {
  channel_id = ci.chan_id;
  post_id = ci.post_id;
  comment_id = id;
  refcomment_id = ci.reply_to_cmt;
  user_id = ci.user.uid;
  created_at = ci.created_at;
  updated_at = ci.created_at;
  likes = 0;
  status = cmt_available;
  hash_id = ci.hash_id;
  proof = ci.proof;
  thumbnails = ci.thumbnails;
  content = ci.content;
}

abbrev pub count_cmt : PostRow → PostRow
count_cmt r = record r { next_comment_id = inc64 r.next_comment_id }

-- The id is the post's `next_comment_id`: with no such post it is NULL, which the table refuses.
unfoldable pub db_add_cmt : Bool → CmtInfo → Db → Option (Db × ℕ)
db_add_cmt done ci db = do
  guard done
  p ← select (is_post ci.chan_id ci.post_id) db.posts
  guard (not (has_row (is_cmt ci.chan_id ci.post_id p.next_comment_id) db.comments))
  let posts = update (is_post ci.chan_id ci.post_id) count_cmt db.posts
  q ← select (is_post ci.chan_id ci.post_id) posts
  some (
    record db { comments = new_cmt_row p.next_comment_id ci ∷ db.comments; posts = posts },
    dec64 q.next_comment_id,
  )

abbrev pub upd_cmt_row : CmtInfo → CmtRow → CmtRow
upd_cmt_row ci r = record r {
  updated_at = ci.upd_at;
  content = ci.content;
  refcomment_id = ci.reply_to_cmt;
  hash_id = ci.hash_id;
  proof = ci.proof;
  thumbnails = ci.thumbnails;
}

unfoldable pub db_upd_cmt : Bool → CmtInfo → Db → Option (Db × CmtInfo)
db_upd_cmt done ci db = do
  guard done
  let comments = update (is_cmt ci.chan_id ci.post_id ci.cmt_id) (upd_cmt_row ci) db.comments
  r ← select (is_cmt ci.chan_id ci.post_id ci.cmt_id) comments
  some (record db { comments = comments }, record ci { likes = r.likes; created_at = r.created_at })

abbrev pub set_cmt_row_status : CmtInfo → CmtRow → CmtRow
set_cmt_row_status ci r = record r { updated_at = ci.upd_at; status = ci.stat }

unfoldable pub db_set_cmt_status : Bool → CmtInfo → Db → Option (Db × CmtInfo)
db_set_cmt_status done ci db = do
  guard done
  let comments = update (is_cmt ci.chan_id ci.post_id ci.cmt_id) (set_cmt_row_status ci) db.comments
  r ← select (is_cmt ci.chan_id ci.post_id ci.cmt_id) comments
  some (
    record db { comments = comments },
    record ci { reply_to_cmt = r.refcomment_id; likes = r.likes; created_at = r.created_at },
  )

unfoldable pub db_like_exists : Bool → ℕ → ℕ → ℕ → ℕ → Db → Option Bool
db_like_exists done uid channel_id post_id comment_id db = do
  guard done
  some (has_row (is_like uid channel_id post_id comment_id) db.likes)

abbrev pub like_post : PostRow → PostRow
like_post r = record r { likes = inc64 r.likes }

abbrev pub unlike_post : PostRow → PostRow
unlike_post r = record r { likes = dec64 r.likes }

abbrev pub like_cmt : CmtRow → CmtRow
like_cmt r = record r { likes = inc64 r.likes }

abbrev pub unlike_cmt : CmtRow → CmtRow
unlike_cmt r = record r { likes = dec64 r.likes }

-- The first UPDATE of db_add_like and of db_rm_like: on the post if the comment id is 0.
unfoldable pub update_likes : (PostRow → PostRow) → (CmtRow → CmtRow) → ℕ → ℕ → ℕ → Db → Db
update_likes f g c p m db =
    if m == 0
    then record db { posts = update (is_post c p) f db.posts }
    else record db { comments = update (is_cmt c p m) g db.comments }

-- The last SELECT of db_add_like.
unfoldable pub select_likes : ℕ → ℕ → ℕ → Db → Option ℕ
select_likes c p m db =
    if m == 0
    then (do r ← select (is_post c p) db.posts; some r.likes)
    else (do r ← select (is_cmt c p m) db.comments; some r.likes)

-- PRIMARY KEY(user_id, channel_id, post_id, comment_id); `now` is the statement's `time(NULL)`.
unfoldable pub db_add_like : Bool → ℕ → ℕ → ℕ → ℕ → ℕ → String → Db → Option (Db × ℕ)
db_add_like done now uid channel_id post_id comment_id proof db = do
  guard done
  guard (not (has_row (is_like uid channel_id post_id comment_id) db.likes))
  let row : LikeRow = record {
    channel_id = channel_id;
    post_id = post_id;
    comment_id = comment_id;
    user_id = uid;
    created_at = now;
    proof = proof;
  }
  let counted = update_likes like_post like_cmt channel_id post_id comment_id db
  likes ← select_likes channel_id post_id comment_id counted
  some (record counted { likes = row ∷ db.likes }, likes)

unfoldable pub db_rm_like : Bool → ℕ → ℕ → ℕ → ℕ → Db → Option Db
db_rm_like done uid channel_id post_id comment_id db = do
  guard done
  let counted = update_likes unlike_post unlike_cmt channel_id post_id comment_id db
  some (record counted { likes = delete (is_like uid channel_id post_id comment_id) db.likes })

-- INSERT OR REPLACE
unfoldable pub db_add_reported_cmts : Bool → ℕ → ℕ → ℕ → ℕ → ℕ → String → Db → Option Db
db_add_reported_cmts done now channel_id post_id comment_id reporter_id reason db = do
  guard done
  let row : ReportRow = record {
    channel_id = channel_id;
    post_id = post_id;
    comment_id = comment_id;
    reporter_id = reporter_id;
    created_at = now;
    reasons = reason;
  }
  some (record db {
    reports = row ∷ delete (is_report channel_id post_id comment_id reporter_id) db.reports;
  })
