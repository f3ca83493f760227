-- ===== src/Db/Posts.antt =====
-- src/db.cpp: posts. As in `Channels`, the first argument says whether SQLite succeeds.
use feeds_service.Prelude.{ℕ, Bool, true, false, not, ◌&&◌, Option, some, ◌∷◌}
use feeds_service.Prelude.Words.{inc64, dec64}
use feeds_service.Prelude.Rows.{select, has_row, update}
use feeds_service.Prelude.Options.{◌>>=◌, ◌>>◌, guard}
use feeds_service.Obj.{PostInfo, PostStat, post_available, post_deleted, post_declared}
use feeds_service.Db.Tables.{Db, ChanRow, PostRow, is_chan, is_post}

abbrev pub new_post_row : PostInfo → PostRow
new_post_row pi = record {
  channel_id = pi.chan_id;
  post_id = pi.post_id;
  created_at = pi.created_at;
  updated_at = pi.created_at;
  next_comment_id = 1;
  likes = 0;
  status = pi.stat;
  hash_id = pi.hash_id;
  proof = pi.proof;
  origin_post_url = pi.origin_post_url;
  thumbnails = pi.thumbnails;
  content = pi.content;
}

abbrev pub count_post : ChanRow → ChanRow
count_post r = record r { next_post_id = inc64 r.next_post_id }

-- PRIMARY KEY(channel_id, post_id)
unfoldable pub db_add_post : Bool → PostInfo → Db → Option Db
db_add_post done pi db = do
  guard done
  guard (not (has_row (is_post pi.chan_id pi.post_id) db.posts))
  some (record db {
    posts = new_post_row pi ∷ db.posts;
    channels = update (is_chan pi.chan_id) count_post db.channels;
  })

abbrev pub is_available : PostStat → Bool
is_available post_available = true
is_available post_deleted = false
is_available post_declared = false

unfoldable pub db_post_is_avail : Bool → ℕ → ℕ → Db → Option Bool
db_post_is_avail done chan_id post_id db = do
  guard done
  some (has_row (λ r. is_post chan_id post_id r && is_available r.status) db.posts)

-- The columns that an update reads back into `pi`.
abbrev pub read_counts : PostRow → PostInfo → PostInfo
read_counts r pi = record pi {
  cmts = dec64 r.next_comment_id;
  likes = r.likes;
  created_at = r.created_at;
}

abbrev pub upd_post_row : PostInfo → PostRow → PostRow
upd_post_row pi r = record r {
  updated_at = pi.upd_at;
  content = pi.content;
  hash_id = pi.hash_id;
  proof = pi.proof;
  origin_post_url = pi.origin_post_url;
  thumbnails = pi.thumbnails;
}

-- UPDATE, then SELECT of the same row: with no such row the SELECT fails.
unfoldable pub db_upd_post : Bool → PostInfo → Db → Option (Db × PostInfo)
db_upd_post done pi db = do
  guard done
  let posts = update (is_post pi.chan_id pi.post_id) (upd_post_row pi) db.posts
  r ← select (is_post pi.chan_id pi.post_id) posts
  some (record db { posts = posts }, read_counts r pi)

-- Only `status` is written: `pi.upd_at` is not used.
abbrev pub set_post_row_status : PostStat → PostRow → PostRow
set_post_row_status stat r = record r { status = stat }

unfoldable pub db_set_post_status : Bool → PostInfo → Db → Option (Db × PostInfo)
db_set_post_status done pi db = do
  guard done
  let posts = update (is_post pi.chan_id pi.post_id) (set_post_row_status pi.stat) db.posts
  r ← select (is_post pi.chan_id pi.post_id) posts
  some (record db { posts = posts }, read_counts r pi)

unfoldable pub db_get_post_status : Bool → ℕ → ℕ → Db → Option PostStat
db_get_post_status done chan_id post_id db = do
  guard done
  r ← select (is_post chan_id post_id) db.posts
  some r.status

abbrev pub row2post : PostRow → PostInfo
row2post r = record {
  chan_id = r.channel_id;
  post_id = r.post_id;
  stat = r.status;
  created_at = r.created_at;
  upd_at = r.updated_at;
  cmts = dec64 r.next_comment_id;
  likes = r.likes;
  content = r.content;
  thumbnails = r.thumbnails;
  hash_id = r.hash_id;
  proof = r.proof;
  origin_post_url = r.origin_post_url;
}

-- Every field of `*pi` but the two ids is read from the row that has these ids.
unfoldable pub db_get_post : Bool → ℕ → ℕ → Db → Option PostInfo
db_get_post done chan_id post_id db = do
  guard done
  r ← select (is_post chan_id post_id) db.posts
  some (row2post r)
