-- ===== src/Feeds/Dispatch.antt =====
-- src/cmdhandler/LegacyMethod.cpp, the table `method_hdlrs` for the requests that change state,
-- and the two calls that other modules make: src/main.cpp reports a peer that went offline,
-- and the sign-in code a new user.
use feeds_service.Prelude.{String, List, [], ◌∷◌}
use feeds_service.Prelude.Tests.{if◌then◌else◌}
use feeds_service.Feeds.State.{Server, Env}
use feeds_service.Feeds.Channels.{
  CreateChanReq, UpdChanReq, UpdUserInfoReq, hdl_create_chan_req, hdl_upd_chan_req,
  hdl_upd_user_info_req,
}
use feeds_service.Feeds.Posts.{
  PubPostReq, DeclarePostReq, PostIdReq, EditPostReq, hdl_pub_post_req, hdl_declare_post_req,
  hdl_notify_post_req, hdl_edit_post_req, hdl_del_post_req,
}
use feeds_service.Feeds.Comments.{
  PostCmtReq, EditCmtReq, CmtIdReq, hdl_post_cmt_req, hdl_edit_cmt_req, hdl_del_cmt_req,
  hdl_block_cmt_req, hdl_unblock_cmt_req,
}
use feeds_service.Feeds.Likes.{
  LikeReq, ReportReq, hdl_post_like_req, hdl_post_unlike_req, hdl_report_illegal_cmt_req,
}
use feeds_service.Feeds.Subscriptions.{
  SubChanReq, UnsubChanReq, EnblNotifReq, hdl_sub_chan_req, hdl_unsub_chan_req, hdl_enbl_notif_req,
  feeds_deactivate_suber, hdl_stats_changed_notify,
}

pub data Request : Type 0 where
  create_channel : CreateChanReq → Request
  update_feedinfo : UpdChanReq → Request
  update_user_info : UpdUserInfoReq → Request
  publish_post : PubPostReq → Request
  declare_post : DeclarePostReq → Request
  notify_post : PostIdReq → Request
  edit_post : EditPostReq → Request
  delete_post : PostIdReq → Request
  post_comment : PostCmtReq → Request
  edit_comment : EditCmtReq → Request
  delete_comment : CmtIdReq → Request
  block_comment : CmtIdReq → Request
  unblock_comment : CmtIdReq → Request
  post_like : LikeReq → Request
  post_unlike : LikeReq → Request
  subscribe_channel : SubChanReq → Request
  unsubscribe_channel : UnsubChanReq → Request
  enable_notification : EnblNotifReq → Request
  report_illegal_comment : ReportReq → Request

unfoldable pub dispatch : Env → String → Request → Server → Server
dispatch env from (create_channel req) s = hdl_create_chan_req env from req s
dispatch env from (update_feedinfo req) s = hdl_upd_chan_req env from req s
dispatch env from (update_user_info req) s = hdl_upd_user_info_req env from req s
dispatch env from (publish_post req) s = hdl_pub_post_req env from req s
dispatch env from (declare_post req) s = hdl_declare_post_req env from req s
dispatch env from (notify_post req) s = hdl_notify_post_req env from req s
dispatch env from (edit_post req) s = hdl_edit_post_req env from req s
dispatch env from (delete_post req) s = hdl_del_post_req env from req s
dispatch env from (post_comment req) s = hdl_post_cmt_req env from req s
dispatch env from (edit_comment req) s = hdl_edit_cmt_req env from req s
dispatch env from (delete_comment req) s = hdl_del_cmt_req env from req s
dispatch env from (block_comment req) s = hdl_block_cmt_req env from req s
dispatch env from (unblock_comment req) s = hdl_unblock_cmt_req env from req s
dispatch env from (post_like req) s = hdl_post_like_req env from req s
dispatch env from (post_unlike req) s = hdl_post_unlike_req env from req s
dispatch env from (subscribe_channel req) s = hdl_sub_chan_req env from req s
dispatch env from (unsubscribe_channel req) s = hdl_unsub_chan_req env from req s
dispatch env from (enable_notification req) s = hdl_enbl_notif_req env from req s
dispatch env from (report_illegal_comment req) s = hdl_report_illegal_cmt_req env from req s

pub data Event : Type 0 where
  request : Env → String → Request → Event
  peer_offline : String → Event
  stats_changed : Env → Event

unfoldable pub handle : Event → Server → Server
handle (request env from req) s = dispatch env from req s
handle (peer_offline node) s = feeds_deactivate_suber node s
handle (stats_changed env) s = hdl_stats_changed_notify env s

-- Nothing happens in a process that has aborted.
unfoldable pub step : Event → Server → Server
step e s = if s.aborted then s else handle e s

unfoldable pub run : List Event → Server → Server
run [] s = s
run (e ∷ es) s = run es (step e s)
