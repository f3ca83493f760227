-- ===== src/Rpc/Marshal/Messages.antt =====
-- src/rpc.c: every message that the writing handlers send, and whether what is marshalled for it is
-- an object that its receiver can decode.
use feeds_service.Prelude.{
  ◌≡◌, refl, Bool, true, false, ◌&&◌, ◌||◌, not, arith, String, Option, none, some, inl, inr,
}
use feeds_service.Prelude.Tests.{Option-cases}
use feeds_service.Obj.{UserInfo}
use feeds_service.Feeds.State.{
  Msg, err_resp, create_chan_resp, pub_post_resp, declare_post_resp, post_cmt_resp, upd_chan_resp,
  upd_user_info_resp, notify_post_resp, edit_post_resp, del_post_resp, edit_cmt_resp, del_cmt_resp,
  block_cmt_resp, unblock_cmt_resp, post_like_resp, post_unlike_resp, unsub_chan_resp,
  enbl_notif_resp, report_cmt_resp, sub_chan_resp, chan_upd_notif, new_post_notif, post_upd_notif,
  new_cmt_notif, cmt_upd_notif, new_like_notif, new_sub_notif, stats_changed_notif,
  report_cmt_notif,
}
use feeds_service.Feeds.Posts.{is_deleted}
use feeds_service.Rpc.Objects.{has_bytes}
use feeds_service.Rpc.Marshal.{Tokens}
use feeds_service.Rpc.Marshal.Notifs.{
  is_cmt_available, rpc_marshal_chan_upd_notif, rpc_marshal_new_post_notif,
  rpc_marshal_post_upd_notif, rpc_marshal_new_cmt_notif, rpc_marshal_cmt_upd_notif,
  rpc_marshal_new_like_notif, rpc_marshal_new_sub_notif, rpc_marshal_stats_changed_notif,
  rpc_marshal_report_cmt_notif,
}
use feeds_service.Rpc.Marshal.Responses.{
  rpc_marshal_err, rpc_marshal_err_resp, rpc_marshal_create_chan_resp, rpc_marshal_pub_post_resp,
  rpc_marshal_declare_post_resp, rpc_marshal_post_cmt_resp, rpc_marshal_upd_chan_resp,
  rpc_marshal_upd_user_info_resp, rpc_marshal_notify_post_resp, rpc_marshal_edit_post_resp,
  rpc_marshal_del_post_resp, rpc_marshal_edit_cmt_resp, rpc_marshal_del_cmt_resp,
  rpc_marshal_block_cmt_resp, rpc_marshal_unblock_cmt_resp, rpc_marshal_post_like_resp,
  rpc_marshal_post_unlike_resp, rpc_marshal_unsub_chan_resp, rpc_marshal_enbl_notif_resp,
  rpc_marshal_report_illegal_cmt_resp, rpc_marshal_sub_chan_resp,
}
use feeds_service.Rpc.Marshal.Objects.{is_object, are_objects}

-- `owner` is the variable feeds_owner_info.
unfoldable pub rpc_marshal : UserInfo → Msg → Tokens
rpc_marshal owner (err_resp tsx ec) = rpc_marshal_err_resp tsx ec
rpc_marshal owner (create_chan_resp tsx id) = rpc_marshal_create_chan_resp tsx id
rpc_marshal owner (pub_post_resp tsx id) = rpc_marshal_pub_post_resp tsx id
rpc_marshal owner (declare_post_resp tsx id) = rpc_marshal_declare_post_resp tsx id
rpc_marshal owner (post_cmt_resp tsx id) = rpc_marshal_post_cmt_resp tsx id
rpc_marshal owner (upd_chan_resp tsx) = rpc_marshal_upd_chan_resp tsx
rpc_marshal owner (upd_user_info_resp tsx) = rpc_marshal_upd_user_info_resp tsx
rpc_marshal owner (notify_post_resp tsx) = rpc_marshal_notify_post_resp tsx
rpc_marshal owner (edit_post_resp tsx) = rpc_marshal_edit_post_resp tsx
rpc_marshal owner (del_post_resp tsx) = rpc_marshal_del_post_resp tsx
rpc_marshal owner (edit_cmt_resp tsx) = rpc_marshal_edit_cmt_resp tsx
rpc_marshal owner (del_cmt_resp tsx) = rpc_marshal_del_cmt_resp tsx
rpc_marshal owner (block_cmt_resp tsx) = rpc_marshal_block_cmt_resp tsx
rpc_marshal owner (unblock_cmt_resp tsx) = rpc_marshal_unblock_cmt_resp tsx
rpc_marshal owner (post_like_resp tsx) = rpc_marshal_post_like_resp tsx
rpc_marshal owner (post_unlike_resp tsx) = rpc_marshal_post_unlike_resp tsx
rpc_marshal owner (unsub_chan_resp tsx) = rpc_marshal_unsub_chan_resp tsx
rpc_marshal owner (enbl_notif_resp tsx) = rpc_marshal_enbl_notif_resp tsx
rpc_marshal owner (report_cmt_resp tsx) = rpc_marshal_report_illegal_cmt_resp tsx
rpc_marshal owner (sub_chan_resp tsx ci) = rpc_marshal_sub_chan_resp owner tsx true ci
rpc_marshal owner (chan_upd_notif ci) = rpc_marshal_chan_upd_notif owner ci
rpc_marshal owner (new_post_notif pi) = rpc_marshal_new_post_notif pi
rpc_marshal owner (post_upd_notif pi) = rpc_marshal_post_upd_notif pi
rpc_marshal owner (new_cmt_notif ci) = rpc_marshal_new_cmt_notif ci
rpc_marshal owner (cmt_upd_notif ci) = rpc_marshal_cmt_upd_notif ci
rpc_marshal owner (new_like_notif li) = rpc_marshal_new_like_notif li
rpc_marshal owner (new_sub_notif chan_id uinfo) = rpc_marshal_new_sub_notif chan_id uinfo
rpc_marshal owner (stats_changed_notif total_cs) = rpc_marshal_stats_changed_notif total_cs
rpc_marshal owner (report_cmt_notif li) = rpc_marshal_report_cmt_notif li

abbrev is_null : Option String → Bool
is_null none = true
is_null (some s) = false

-- The counts of pairs are written down in the source for messages whose byte sequences are not
-- empty, and pack_kv_bin leaves an empty one out. The count for a report is one too low, unless the
-- report has no reasons.
unfoldable pub is_packable : Msg → Bool
is_packable (err_resp tsx ec) = true
is_packable (create_chan_resp tsx id) = true
is_packable (pub_post_resp tsx id) = true
is_packable (declare_post_resp tsx id) = true
is_packable (post_cmt_resp tsx id) = true
is_packable (upd_chan_resp tsx) = true
is_packable (upd_user_info_resp tsx) = true
is_packable (notify_post_resp tsx) = true
is_packable (edit_post_resp tsx) = true
is_packable (del_post_resp tsx) = true
is_packable (edit_cmt_resp tsx) = true
is_packable (del_cmt_resp tsx) = true
is_packable (block_cmt_resp tsx) = true
is_packable (unblock_cmt_resp tsx) = true
is_packable (post_like_resp tsx) = true
is_packable (post_unlike_resp tsx) = true
is_packable (unsub_chan_resp tsx) = true
is_packable (enbl_notif_resp tsx) = true
is_packable (report_cmt_resp tsx) = true
is_packable (sub_chan_resp tsx ci) = has_bytes ci.avatar
is_packable (chan_upd_notif ci) = has_bytes ci.avatar
is_packable (new_post_notif pi) = has_bytes pi.content && has_bytes pi.thumbnails
is_packable (post_upd_notif pi) = is_deleted pi.stat || has_bytes pi.content
is_packable (new_cmt_notif ci) = has_bytes ci.content && has_bytes ci.thumbnails
is_packable (cmt_upd_notif ci) = not (is_cmt_available ci.stat) || has_bytes ci.content
is_packable (new_like_notif li) = true
is_packable (new_sub_notif chan_id uinfo) = true
is_packable (stats_changed_notif total_cs) = true
is_packable (report_cmt_notif li) = is_null li.reasons

-- A message is marshalled into exactly one object if and only if it is not a report with
-- reasons, and has no empty byte
-- sequence but for the content of a post that is deleted or of a comment that is not available.
pub rpc_marshal-is_object :
    (owner : UserInfo) (msg : Msg) → is_object (rpc_marshal owner msg) ≡ is_packable msg
unfolding rpc_marshal is_packable are_objects rpc_marshal_chan_upd_notif rpc_marshal_new_post_notif
    rpc_marshal_post_upd_notif rpc_marshal_new_cmt_notif rpc_marshal_cmt_upd_notif
    rpc_marshal_new_like_notif rpc_marshal_new_sub_notif rpc_marshal_stats_changed_notif
    rpc_marshal_report_cmt_notif rpc_marshal_err_resp rpc_marshal_create_chan_resp
    rpc_marshal_pub_post_resp rpc_marshal_declare_post_resp rpc_marshal_post_cmt_resp
    rpc_marshal_upd_chan_resp rpc_marshal_upd_user_info_resp rpc_marshal_notify_post_resp
    rpc_marshal_edit_post_resp rpc_marshal_del_post_resp rpc_marshal_edit_cmt_resp
    rpc_marshal_del_cmt_resp rpc_marshal_block_cmt_resp rpc_marshal_unblock_cmt_resp
    rpc_marshal_post_like_resp rpc_marshal_post_unlike_resp rpc_marshal_unsub_chan_resp
    rpc_marshal_enbl_notif_resp rpc_marshal_report_illegal_cmt_resp rpc_marshal_sub_chan_resp
    rpc_marshal_err
rpc_marshal-is_object owner (err_resp tsx ec) = refl
rpc_marshal-is_object owner (create_chan_resp tsx id) = refl
rpc_marshal-is_object owner (pub_post_resp tsx id) = refl
rpc_marshal-is_object owner (declare_post_resp tsx id) = refl
rpc_marshal-is_object owner (post_cmt_resp tsx id) = refl
rpc_marshal-is_object owner (upd_chan_resp tsx) = refl
rpc_marshal-is_object owner (upd_user_info_resp tsx) = refl
rpc_marshal-is_object owner (notify_post_resp tsx) = refl
rpc_marshal-is_object owner (edit_post_resp tsx) = refl
rpc_marshal-is_object owner (del_post_resp tsx) = refl
rpc_marshal-is_object owner (edit_cmt_resp tsx) = refl
rpc_marshal-is_object owner (del_cmt_resp tsx) = refl
rpc_marshal-is_object owner (block_cmt_resp tsx) = refl
rpc_marshal-is_object owner (unblock_cmt_resp tsx) = refl
rpc_marshal-is_object owner (post_like_resp tsx) = refl
rpc_marshal-is_object owner (post_unlike_resp tsx) = refl
rpc_marshal-is_object owner (unsub_chan_resp tsx) = refl
rpc_marshal-is_object owner (enbl_notif_resp tsx) = refl
rpc_marshal-is_object owner (report_cmt_resp tsx) = refl
rpc_marshal-is_object owner (sub_chan_resp tsx ci) = ground arith
rpc_marshal-is_object owner (chan_upd_notif ci) = ground arith
rpc_marshal-is_object owner (new_post_notif pi) = ground arith
rpc_marshal-is_object owner (post_upd_notif pi) = ground arith
rpc_marshal-is_object owner (new_cmt_notif ci) = ground arith
rpc_marshal-is_object owner (cmt_upd_notif ci) = ground arith
rpc_marshal-is_object owner (new_like_notif li) = refl
rpc_marshal-is_object owner (new_sub_notif chan_id uinfo) = refl
rpc_marshal-is_object owner (stats_changed_notif total_cs) = refl
rpc_marshal-is_object owner (report_cmt_notif li) = elim (Option-cases li.reasons) [
  | inl e ↦ rw e refl
  | inr (reasons, e) ↦ rw e refl
]
