-- ===== src/Feeds/Transactions/Run.antt =====
-- Every event makes at most one database transaction.
use feeds_service.Prelude.{
  not, ◌&&◌, ℕ, String, ◌≡◌, ◌≤◌, arith, refl, List, true, false, inl, inr, Bool, some, ap,
}
use feeds_service.Prelude.Tests.{if◌then◌else◌, leb, Option-cases}
use feeds_service.Db.Comments.{db_like_exists, db_cmt_uid}
use feeds_service.Feeds.Comments.{is_author}
use feeds_service.Db.Channels.{db_is_suber, db_count_channels}
use feeds_service.Prelude.Rows.{has_row, count, select, select-has_row_and, has_row_mono}
use feeds_service.Db.Tables.{Db, PostRow, is_post, is_cmt, is_like, is_sub}
use feeds_service.Feeds.State.{Server, Env, holds, as_get, chan_write, chan_put, chan_rm, chan_sub}
use feeds_service.Feeds.Dispatch
use feeds_service.Feeds.Dispatch.{Request, Event, dispatch, handle, step, run}
use feeds_service.Feeds.Subscriptions.{is_some, aspc_put, count_sub}
use feeds_service.Feeds.Rules.Exits.{IgnoresOutbox}
use feeds_service.Feeds.Rules.Run.{run_keeps}
use feeds_service.Feeds.Rules.Nodes.{
  feeds_deactivate_suber_keeps, enable_keeps, IgnoresNodes, aspc_remove_keeps,
}
use feeds_service.Feeds.Rules.Channels.{
  hdl_create_chan_req_keeps, hdl_upd_chan_req_keeps, hdl_upd_user_info_req_keeps,
}
use feeds_service.Feeds.Rules.Posts.{
  hdl_pub_post_req_keeps, hdl_declare_post_req_keeps, hdl_notify_post_req_keeps,
  hdl_edit_post_req_keeps, hdl_del_post_req_keeps,
}
use feeds_service.Feeds.Rules.Comments.{
  hdl_post_cmt_req_keeps, hdl_edit_cmt_req_keeps, hdl_del_cmt_req_keeps, hdl_block_cmt_req_keeps,
  hdl_unblock_cmt_req_keeps,
}
use feeds_service.Feeds.Rules.Likes.{
  hdl_post_like_req_keeps, hdl_post_unlike_req_keeps, hdl_report_illegal_cmt_req_keeps,
}
use feeds_service.Feeds.Rules.Subscriptions.{
  hdl_sub_chan_req_keeps, hdl_unsub_chan_req_keeps, hdl_enbl_notif_req_keeps,
  hdl_stats_changed_notify_keeps,
}
use feeds_service.Db.Posts.{db_get_post_status, db_post_is_avail, is_available}
use feeds_service.Obj.{PostStat, post_available, post_deleted, post_declared}
use feeds_service.Feeds.Posts.{is_deleted}
use feeds_service.Feeds.Transactions.Defs.{
  is_live_post, author_of, Writes, Transaction, chan_created, chan_updated, user_updated,
  post_added, post_updated, post_status_set, cmt_added, cmt_updated, cmt_status_set, like_added,
  like_removed, sub_added, sub_removed, cmt_reported,
}

from_db : (db : Db) → IgnoresOutbox (λ s. Writes db s.db)
from_db db = record { at_outbox = λ s o h. h; at_abort = λ s b h. h }

from_db_nodes : (db : Db) → IgnoresNodes (λ s. Writes db s.db)
unfolding chan_write
from_db_nodes db = record { at_ass = λ s a h. h; at_nds = λ s n h. h; at_aspcs = λ id f hf s h. h }

fits :
    (done : Bool) (total : ℕ) (db : Db)
    → db_count_channels done db ≡ some total
    → leb total 4 ≡ true
    → count (λ _. true) db.channels ≤ 4
unfolding db_count_channels
fits done total db counted few = ground arith

was_liked :
    (done : Bool) (uid c p m : ℕ) (db : Db)
    → holds (db_like_exists done uid c p m db) ≡ true
    → has_row (is_like uid c p m) db.likes ≡ true
unfolding db_like_exists
was_liked done uid c p m db h = ground arith

was_live :
    (done : Bool) (c p : ℕ) (db : Db) {stat : PostStat}
    → db_get_post_status done c p db ≡ some stat
    → not (is_deleted stat) ≡ true
    → has_row (is_live_post c p) db.posts ≡ true
unfolding db_get_post_status
was_live done c p db {stat} was live = elim (Option-cases (select (is_post c p) db.posts)) [
  | inl gone ↦ ground arith
  | inr (r, found) ↦
      let same : r.status ≡ stat = ground arith in
      select-has_row_and (is_post c p) (λ (x : PostRow). not (is_deleted x.status)) db.posts found
        (simp same live)
]

live_available : (stat : PostStat) → is_available stat ≡ true → not (is_deleted stat) ≡ true
live_available post_available e = refl
live_available post_deleted e = e
live_available post_declared e = refl

-- What the handlers test.
pub is_author-author_of :
    (done : Bool) (c p m : ℕ) (db : Db) (uid : ℕ)
    → is_author (db_cmt_uid done c p m db) uid ≡ true
    → author_of c p m db ≡ some uid
unfolding db_cmt_uid
is_author-author_of true c p m db uid h = elim (Option-cases (select (is_cmt c p m) db.comments)) [
  | inl e ↦ let no : false ≡ true = simp e at h in ground arith
  | inr (r, e) ↦ let same : r.user_id ≡ uid = ground (arith, simp e at h) in rw e (ap some same)
]
is_author-author_of false c p m db uid h = ground arith

was_listed_available :
    (done : Bool) (c p : ℕ) (db : Db)
    → holds (db_post_is_avail done c p db) ≡ true
    → has_row (λ r. is_post c p r && is_available r.status) db.posts ≡ true
unfolding db_post_is_avail
was_listed_available done c p db h = ground arith

was_available :
    (done : Bool) (c p : ℕ) (db : Db)
    → holds (db_post_is_avail done c p db) ≡ true
    → has_row (is_live_post c p) db.posts ≡ true
unfolding db_post_is_avail
was_available done c p db h =
    let found : has_row (λ r. is_post c p r && is_available r.status) db.posts ≡ true =
      ground arith in
    has_row_mono (λ r. is_post c p r && is_available r.status) (is_live_post c p)
      (λ r e. ground (arith, live_available r.status)) db.posts found

was_suber :
    (done : Bool) (uid c : ℕ) (db : Db)
    → holds (db_is_suber done uid c db) ≡ true
    → has_row (is_sub uid c) db.subscriptions ≡ true
unfolding db_is_suber
was_suber done uid c db h = ground arith

aspc_put_db :
    (active : Bool) (uid id : ℕ) (s : Server) (db : Db) {old : Db}
    → Writes old db
    → Writes old
        (chan_write id count_sub
          (if active then aspc_put uid id (record s { db = db }) else record s { db = db })).db
unfolding chan_write aspc_put
aspc_put_db true uid id s db h = h
aspc_put_db false uid id s db h = h

dispatch-Writes :
    (env : Env) (from : String) (r : Request) (s : Server) → Writes s.db (dispatch env from r s).db
unfolding dispatch chan_put chan_rm chan_sub chan_write
dispatch-Writes env from (Dispatch.create_channel req) s =
    hdl_create_chan_req_keeps (from_db s.db) env from {s = s} (inl refl) req
      (λ total u db counted few _ _ _ e. inr (chan_created _ _ (fits _ total s.db counted few) e))
dispatch-Writes env from (Dispatch.update_feedinfo req) s =
    hdl_upd_chan_req_keeps (from_db s.db) env from {s = s} (inl refl) req
      (λ u c db _ _ _ _ e. inr (chan_updated _ _ e))
dispatch-Writes env from (Dispatch.update_user_info req) s =
    hdl_upd_user_info_req_keeps (from_db s.db) env from {s = s} (inl refl) req
      (λ u db _ e. inr (user_updated _ _ _ e))
dispatch-Writes env from (Dispatch.publish_post req) s =
    hdl_pub_post_req_keeps (from_db s.db) env from {s = s} (inl refl) req
      (λ u c db _ _ _ e. inr (post_added _ _ e))
dispatch-Writes env from (Dispatch.declare_post req) s =
    hdl_declare_post_req_keeps (from_db s.db) env from {s = s} (inl refl) req
      (λ u c db _ _ _ e. inr (post_added _ _ e))
dispatch-Writes env from (Dispatch.notify_post req) s =
    hdl_notify_post_req_keeps (from_db s.db) env from {s = s} (inl refl) req
      (λ u c stat db pi _ _ _ was live e.
        inr (post_status_set _ _ (was_live _ _ _ s.db was live) e))
dispatch-Writes env from (Dispatch.edit_post req) s =
    hdl_edit_post_req_keeps (from_db s.db) env from {s = s} (inl refl) req
      (λ u c db pi _ _ _ avail e. inr (post_updated _ _ (was_listed_available _ _ _ s.db avail) e))
dispatch-Writes env from (Dispatch.delete_post req) s =
    hdl_del_post_req_keeps (from_db s.db) env from {s = s} (inl refl) req
      (λ u c db pi _ _ _ avail e. inr (post_status_set _ _ (was_available _ _ _ s.db avail) e))
dispatch-Writes env from (Dispatch.post_comment req) s =
    hdl_post_cmt_req_keeps (from_db s.db) env from {s = s} (inl refl) req
      (λ u c db id _ _ _ e. inr (cmt_added _ _ e))
dispatch-Writes env from (Dispatch.edit_comment req) s =
    hdl_edit_cmt_req_keeps (from_db s.db) env from {s = s} (inl refl) req
      (λ u c db ci _ _ author e. inr (cmt_updated _ _ (is_author-author_of _ _ _ _ _ _ author) e))
dispatch-Writes env from (Dispatch.delete_comment req) s =
    hdl_del_cmt_req_keeps (from_db s.db) env from {s = s} (inl refl) req (λ u c db ci _ _ author e.
      inr (cmt_status_set _ _ (is_author-author_of _ _ _ _ _ _ author) e))
dispatch-Writes env from (Dispatch.block_comment req) s =
    hdl_block_cmt_req_keeps (from_db s.db) env from {s = s} (inl refl) req
      (λ u c db ci _ _ author e.
        inr (cmt_status_set _ _ (is_author-author_of _ _ _ _ _ _ author) e))
dispatch-Writes env from (Dispatch.unblock_comment req) s =
    hdl_unblock_cmt_req_keeps (from_db s.db) env from {s = s} (inl refl) req
      (λ u c db ci _ _ author e.
        inr (cmt_status_set _ _ (is_author-author_of _ _ _ _ _ _ author) e))
dispatch-Writes env from (Dispatch.post_like req) s =
    hdl_post_like_req_keeps (from_db s.db) env from {s = s} (inl refl) req
      (λ u db total _ _ e. inr (like_added _ _ _ _ _ _ _ e))
dispatch-Writes env from (Dispatch.post_unlike req) s =
    hdl_post_unlike_req_keeps (from_db s.db) env from {s = s} (inl refl) req
      (λ u db _ liked e. inr (like_removed _ _ _ _ _ (was_liked _ _ _ _ _ s.db liked) e))
dispatch-Writes env from (Dispatch.subscribe_channel req) s =
    hdl_sub_chan_req_keeps (from_db s.db) env from {s = s} (inl refl) req (λ u c db _ _ _ e.
      aspc_put_db (is_some (as_get s u.uid)) u.uid req.id s db (inr (sub_added _ _ _ _ _ e)))
dispatch-Writes env from (Dispatch.unsubscribe_channel req) s =
    hdl_unsub_chan_req_keeps (from_db s.db) env from {s = s} (inl refl) req
      (λ u c db _ _ subscribed e.
        aspc_remove_keeps (from_db_nodes s.db) u.uid req.id _
          (inr (sub_removed _ _ _ (was_suber _ _ _ s.db subscribed) e)))
dispatch-Writes env from (Dispatch.enable_notification req) s =
    hdl_enbl_notif_req_keeps (from_db s.db) env from (inl refl) req
      (λ u _. enable_keeps (from_db_nodes s.db) env from u s (inl refl))
dispatch-Writes env from (Dispatch.report_illegal_comment req) s =
    hdl_report_illegal_cmt_req_keeps (from_db s.db) env from {s = s} (inl refl) req
      (λ u db _ e. inr (cmt_reported _ _ _ _ _ _ _ e))

pub handle-Writes : (e : Event) (s : Server) → Writes s.db (handle e s).db
unfolding handle
handle-Writes (Dispatch.request env from r) s = dispatch-Writes env from r s
handle-Writes (Dispatch.peer_offline node) s =
    feeds_deactivate_suber_keeps (from_db_nodes s.db) node s (inl refl)
handle-Writes (Dispatch.stats_changed env) s =
    hdl_stats_changed_notify_keeps (from_db s.db) env s (inl refl)

-- An invariant of the database that each transaction keeps holds after every run.
pub run-db_keeps {κ} :
    (I : Db → Type κ)
    → ((db db' : Db) → Transaction db db' → I db → I db')
    → (es : List Event) (s : Server) → I s.db
    → I (run es s).db
run-db_keeps I keep =
    run_keeps (λ s. I s.db) (λ e s h. kept s (handle e s).db (handle-Writes e s) h)
  where
    kept : (s : Server) (db' : Db) → Writes s.db db' → I s.db → I db'
    kept s db' (inl same) h = rw same h
    kept s db' (inr t) h = keep s.db db' t h
