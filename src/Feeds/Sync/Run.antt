-- ===== src/Feeds/Sync/Run.antt =====
-- From start to end: the channels in memory are those of the database after any events.
use feeds_service.Prelude.{ℕ, String, ◌≡◌, refl, ap, List, inl, inr}
use feeds_service.Prelude.Tests.{Bool-cases, ◌==◌}
use feeds_service.Db.Comments.{update_likes, like_post, like_cmt, unlike_post, unlike_cmt}
use feeds_service.Db.Tables.{Db, PostRow, CmtRow}
use feeds_service.Db.Frames.{
  db_upd_post_frame, db_set_post_status_frame, db_add_cmt_frame, db_upd_cmt_frame,
  db_set_cmt_status_frame, db_add_like_frame, db_rm_like_frame, db_add_reported_cmts_frame,
  db_update_user_info_frame,
}
use feeds_service.Feeds.State.{Server, Env}
use feeds_service.Feeds.Dispatch
use feeds_service.Feeds.Dispatch.{Request, Event, dispatch, handle, step, run}
use feeds_service.Feeds.Rules.Run.{run_keeps}
use feeds_service.Feeds.Rules.Nodes.{feeds_deactivate_suber_keeps, enable_keeps}
use feeds_service.Feeds.Rules.Channels.{
  hdl_create_chan_req_keeps, hdl_upd_chan_req_keeps, hdl_upd_user_info_req_keeps,
}
use feeds_service.Feeds.Rules.Posts.{
  hdl_pub_post_req_keeps, hdl_declare_post_req_keeps, hdl_notify_post_req_keeps,
  hdl_edit_post_req_keeps, hdl_del_post_req_keeps,
}
use feeds_service.Feeds.Rules.Comments.{
  hdl_post_cmt_req_keeps, hdl_edit_cmt_req_keeps, hdl_del_cmt_req_keeps, hdl_block_cmt_req_keeps,
  hdl_unblock_cmt_req_keeps,
}
use feeds_service.Feeds.Rules.Likes.{
  hdl_post_like_req_keeps, hdl_post_unlike_req_keeps, hdl_report_illegal_cmt_req_keeps,
}
use feeds_service.Feeds.Rules.Subscriptions.{
  hdl_sub_chan_req_keeps, hdl_unsub_chan_req_keeps, hdl_enbl_notif_req_keeps,
  hdl_stats_changed_notify_keeps,
}
use feeds_service.Feeds.Sync.Tables.{IsSynced}
use feeds_service.Feeds.Sync.Steps.{
  IsSynced-IgnoresOutbox, IsSynced-IgnoresNodes, same_db, post_counted, created, updated,
  subscribed, unsubscribed,
}

likes_channels :
    (f : PostRow → PostRow) (g : CmtRow → CmtRow) (c p m : ℕ) (db : Db)
    → ((update_likes f g c p m db).channels ≡ db.channels)
      × ((update_likes f g c p m db).chan_seq ≡ db.chan_seq)
unfolding update_likes
likes_channels f g c p m db = elim (Bool-cases (m == 0)) [
  | inl e ↦ rw e (refl, refl)
  | inr e ↦ rw e (refl, refl)
]

dispatch-IsSynced :
    (env : Env) (from : String) (r : Request) (s : Server)
    → IsSynced s
    → IsSynced (dispatch env from r s)
unfolding dispatch
dispatch-IsSynced env from (Dispatch.create_channel req) s h =
    hdl_create_chan_req_keeps IsSynced-IgnoresOutbox env from h req
      (λ total u db _ _ _ _ _ e. created env req s _ db e h)
dispatch-IsSynced env from (Dispatch.update_feedinfo req) s h =
    hdl_upd_chan_req_keeps IsSynced-IgnoresOutbox env from h req
      (λ u c db _ _ found _ e. updated env req s _ c db found e h)
dispatch-IsSynced env from (Dispatch.update_user_info req) s h =
    hdl_upd_user_info_req_keeps IsSynced-IgnoresOutbox env from h req
      (λ u db _ e. let f = db_update_user_info_frame _ s.db _ _ e in same_db s db (rw f) (rw f) h)
dispatch-IsSynced env from (Dispatch.publish_post req) s h =
    hdl_pub_post_req_keeps IsSynced-IgnoresOutbox env from h req
      (λ u c db _ _ _ e. post_counted s _ req.chan_id _ db refl e h)
dispatch-IsSynced env from (Dispatch.declare_post req) s h =
    hdl_declare_post_req_keeps IsSynced-IgnoresOutbox env from h req
      (λ u c db _ _ _ e. post_counted s _ req.chan_id _ db refl e h)
dispatch-IsSynced env from (Dispatch.notify_post req) s h =
    hdl_notify_post_req_keeps IsSynced-IgnoresOutbox env from h req (λ u c stat db pi _ _ _ _ _ e.
      let f = db_set_post_status_frame _ s.db _ e in same_db s db (rw f) (rw f) h)
dispatch-IsSynced env from (Dispatch.edit_post req) s h =
    hdl_edit_post_req_keeps IsSynced-IgnoresOutbox env from h req
      (λ u c db pi _ _ _ _ e. let f = db_upd_post_frame _ s.db _ e in same_db s db (rw f) (rw f) h)
dispatch-IsSynced env from (Dispatch.delete_post req) s h =
    hdl_del_post_req_keeps IsSynced-IgnoresOutbox env from h req (λ u c db pi _ _ _ _ e.
      let f = db_set_post_status_frame _ s.db _ e in same_db s db (rw f) (rw f) h)
dispatch-IsSynced env from (Dispatch.post_comment req) s h =
    hdl_post_cmt_req_keeps IsSynced-IgnoresOutbox env from h req (λ u c db id _ _ _ e.
      let f = db_add_cmt_frame _ s.db _ e in
      same_db s db (ap (λ (d : Db). d.channels) f) (ap (λ (d : Db). d.chan_seq) f) h)
dispatch-IsSynced env from (Dispatch.edit_comment req) s h =
    hdl_edit_cmt_req_keeps IsSynced-IgnoresOutbox env from h req
      (λ u c db ci _ _ _ e. let f = db_upd_cmt_frame _ s.db _ e in same_db s db (rw f) (rw f) h)
dispatch-IsSynced env from (Dispatch.delete_comment req) s h =
    hdl_del_cmt_req_keeps IsSynced-IgnoresOutbox env from h req (λ u c db ci _ _ _ e.
      let f = db_set_cmt_status_frame _ s.db _ e in same_db s db (rw f) (rw f) h)
dispatch-IsSynced env from (Dispatch.block_comment req) s h =
    hdl_block_cmt_req_keeps IsSynced-IgnoresOutbox env from h req (λ u c db ci _ _ _ e.
      let f = db_set_cmt_status_frame _ s.db _ e in same_db s db (rw f) (rw f) h)
dispatch-IsSynced env from (Dispatch.unblock_comment req) s h =
    hdl_unblock_cmt_req_keeps IsSynced-IgnoresOutbox env from h req (λ u c db ci _ _ _ e.
      let f = db_set_cmt_status_frame _ s.db _ e in same_db s db (rw f) (rw f) h)
dispatch-IsSynced env from (Dispatch.post_like req) s h =
    hdl_post_like_req_keeps IsSynced-IgnoresOutbox env from h req (λ u db total _ _ e.
      let f = db_add_like_frame _ s.db _ _ _ _ _ _ e in
      let l = likes_channels like_post like_cmt req.chan_id req.post_id req.cmt_id s.db in
      same_db s db (rw f l.0) (rw f l.1) h)
dispatch-IsSynced env from (Dispatch.post_unlike req) s h =
    hdl_post_unlike_req_keeps IsSynced-IgnoresOutbox env from h req (λ u db _ _ e.
      let f = db_rm_like_frame _ s.db _ _ _ _ e in
      let l = likes_channels unlike_post unlike_cmt req.chan_id req.post_id req.cmt_id s.db in
      same_db s db (rw f l.0) (rw f l.1) h)
dispatch-IsSynced env from (Dispatch.subscribe_channel req) s h =
    hdl_sub_chan_req_keeps IsSynced-IgnoresOutbox env from h req
      (λ u c db _ _ _ e. subscribed s _ _ _ u.uid req.id req.proof db e h)
dispatch-IsSynced env from (Dispatch.unsubscribe_channel req) s h =
    hdl_unsub_chan_req_keeps IsSynced-IgnoresOutbox env from h req
      (λ u c db _ _ _ e. unsubscribed s _ u.uid req.id db e h)
dispatch-IsSynced env from (Dispatch.enable_notification req) s h =
    hdl_enbl_notif_req_keeps IsSynced-IgnoresOutbox env from h req
      (λ u _. enable_keeps IsSynced-IgnoresNodes env from u s h)
dispatch-IsSynced env from (Dispatch.report_illegal_comment req) s h =
    hdl_report_illegal_cmt_req_keeps IsSynced-IgnoresOutbox env from h req (λ u db _ e.
      let f = db_add_reported_cmts_frame _ s.db _ _ _ _ _ _ e in
      same_db s db (ap (λ (d : Db). d.channels) f) (ap (λ (d : Db). d.chan_seq) f) h)

handle-IsSynced : (e : Event) (s : Server) → IsSynced s → IsSynced (handle e s)
unfolding handle
handle-IsSynced (Dispatch.request env from r) s h = dispatch-IsSynced env from r s h
handle-IsSynced (Dispatch.peer_offline node) s h =
    feeds_deactivate_suber_keeps IsSynced-IgnoresNodes node s h
handle-IsSynced (Dispatch.stats_changed env) s h =
    hdl_stats_changed_notify_keeps IsSynced-IgnoresOutbox env s h

-- Whatever requests, departures and broadcasts follow, and whichever calls fail on the way: if the
-- channels in memory are those of the database (the same lookup by id on both sides, up to the
-- time of the last update, and a next id in step with the sequence), then they still are.
pub run-IsSynced : (es : List Event) (s : Server) → IsSynced s → IsSynced (run es s)
run-IsSynced = run_keeps IsSynced handle-IsSynced
