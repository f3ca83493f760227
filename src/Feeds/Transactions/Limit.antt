-- ===== src/Feeds/Transactions/Limit.antt =====
-- The number of channels.
use feeds_service.Prelude.{ℕ, ◌≡◌, ◌≤◌, refl, ap, true, List, arith}
use feeds_service.Prelude.Rows.{count, update, count-update}
use feeds_service.Db.Tables.{Db, ChanRow, is_chan}
use feeds_service.Db.Frames.{
  db_add_post_frame, db_upd_post_frame, db_set_post_status_frame, db_add_cmt_frame,
  db_upd_cmt_frame, db_set_cmt_status_frame, db_add_like_frame, db_rm_like_frame,
  db_add_reported_cmts_frame, db_create_chan_frame, db_upd_chan_frame, db_add_sub_frame,
  db_unsub_frame, db_update_user_info_frame,
}
use feeds_service.Db.Comments.{like_post, like_cmt, unlike_post, unlike_cmt, update_likes}
use feeds_service.Feeds.State.{Server}
use feeds_service.Feeds.Dispatch.{Event, run}
use feeds_service.Feeds.Transactions.Defs.{
  Transaction, chan_created, chan_updated, user_updated, post_added, post_updated, post_status_set,
  cmt_added, cmt_updated, cmt_status_set, like_added, like_removed, sub_added, sub_removed,
  cmt_reported,
}
use feeds_service.Feeds.Transactions.Run.{run-db_keeps}

abbrev pub channel_count : Db → ℕ
channel_count db = count (λ _. true) db.channels

same_count :
    (f : ChanRow → ChanRow) (i : ℕ) (rows : List ChanRow)
    → count (λ _. true) (update (is_chan i) f rows) ≡ count (λ _. true) rows
same_count f i rows = count-update (is_chan i) (λ _. true) f (λ r. refl) rows

-- `update_likes` does not touch the channels.
likes_count :
    (db : Db) (f : _) (g : _) (c p m : ℕ) → (update_likes f g c p m db).channels ≡ db.channels
unfolding update_likes
likes_count db f g c p m = ground arith

limit_kept : (db db' : Db) → Transaction db db' → channel_count db ≤ 5 → channel_count db' ≤ 5
unfolding count
limit_kept db db' (chan_created done ci few e) h =
    rw (db_create_chan_frame done db ci e) (omega arith)
limit_kept db db' (chan_updated done ci e) h =
    rw (db_upd_chan_frame done db ci e, same_count _ _ _) h
limit_kept db db' (user_updated done now ui e) h =
    rw (ap (λ (d : Db). d.channels) (db_update_user_info_frame done db now ui e)) h
limit_kept db db' (post_added done pi e) h = rw (db_add_post_frame done db pi e, same_count _ _ _) h
limit_kept db db' (post_updated done pi _ e) h = rw (db_upd_post_frame done db pi e) h
limit_kept db db' (post_status_set done pi _ e) h = rw (db_set_post_status_frame done db pi e) h
limit_kept db db' (cmt_added done ci e) h =
    rw (ap (λ (d : Db). d.channels) (db_add_cmt_frame done db ci e)) h
limit_kept db db' (cmt_updated done ci _ e) h = rw (db_upd_cmt_frame done db ci e) h
limit_kept db db' (cmt_status_set done ci _ e) h = rw (db_set_cmt_status_frame done db ci e) h
limit_kept db db' (like_added done now uid c p m proof e) h =
    rw (db_add_like_frame done db now uid c p m proof e, likes_count db like_post like_cmt c p m) h
limit_kept db db' (like_removed done uid c p m _ e) h =
    rw (db_rm_like_frame done db uid c p m e, likes_count db unlike_post unlike_cmt c p m) h
limit_kept db db' (sub_added done now uid c proof e) h =
    rw (db_add_sub_frame done db now uid c proof e, same_count _ _ _) h
limit_kept db db' (sub_removed done uid c _ e) h =
    rw (db_unsub_frame done db uid c e, same_count _ _ _) h
limit_kept db db' (cmt_reported done now c p m uid reason e) h =
    rw (ap (λ (d : Db). d.channels) (db_add_reported_cmts_frame done db now c p m uid reason e)) h

-- A database with at most five channels has at most five after any events.
pub run-channel_count :
    (es : List Event) (s : Server) → channel_count s.db ≤ 5 → channel_count (run es s).db ≤ 5
run-channel_count = run-db_keeps (λ db. channel_count db ≤ 5) limit_kept
