-- ===== src/Rpc/RoundTrip.antt =====
-- src/rpc.c: every valid request is read from its encoding of version 2.0.
use Prim.Native.String.{len}
use feeds_service.Prelude.{ℕ, String, ◌≡◌, refl, ap, true, some}
use feeds_service.Feeds.Dispatch.{
  create_channel, update_feedinfo, update_user_info, publish_post, declare_post, notify_post,
  edit_post, delete_post, post_comment, edit_comment, delete_comment, block_comment,
  unblock_comment, post_like, post_unlike, subscribe_channel, unsubscribe_channel,
  enable_notification, report_illegal_comment,
}
use feeds_service.Rpc.Objects.{map, Entries, header, map_nxt_val, is_full}
use feeds_service.Rpc.Requests.{
  unnamed_update_user_info, Req, declare_owner, import_did, issue_credential, update_credential,
  signin_request_challenge, signin_confirm_challenge, writes, get_my_channels,
  get_my_channels_metadata, get_channels, get_subscribed_channels, get_liked_posts, get_liked_data,
  get_reported_comments, get_channel_detail, get_posts, get_posts_likes_and_comments, get_comments,
  get_comments_likes, get_statistics, set_binary, get_binary, get_service_version,
}
use feeds_service.Rpc.Parsers.{
  request, result_of, req_parsers_2_0, find_parser, by_version, check_header, strncpy,
  rpc_unmarshal_req,
}
use feeds_service.Rpc.Valid.{is_valid, method_of}
use feeds_service.Rpc.Encoded.{message, tsx_id_of, params_of, encode, carried}
use feeds_service.Rpc.Encoded.Accounts.{
  unmarshal_decl_owner_req-Reads, unmarshal_imp_did_req-Reads, unmarshal_iss_vc_req-Reads,
  unmarshal_update_vc_req-Reads, unmarshal_signin_req_chal_req-Reads,
  unmarshal_signin_conf_chal_req-Reads, unmarshal_set_binary_req-Reads,
  unmarshal_get_binary_req-Reads, unmarshal_get_srv_ver_req-Reads,
}
use feeds_service.Rpc.Encoded.Channels.{
  unmarshal_create_chan_req_2-Reads, unmarshal_upd_chan_req_2-Reads,
  unmarshal_upd_user_info_req-Reads, unmarshal_sub_chan_req_2-Reads, unmarshal_unsub_chan_req-Reads,
  unmarshal_enbl_notif_req-Reads,
}
use feeds_service.Rpc.Encoded.Posts.{
  unmarshal_pub_post_req_2-Reads, unmarshal_declare_post_req_2-Reads,
  unmarshal_notify_post_req-Reads, unmarshal_edit_post_req_2-Reads, unmarshal_del_post_req-Reads,
}
use feeds_service.Rpc.Encoded.Comments.{
  unmarshal_post_cmt_req_2-Reads, unmarshal_edit_cmt_req_2-Reads, unmarshal_del_cmt_req-Reads,
  unmarshal_block_cmt_req-Reads, unmarshal_unblock_cmt_req-Reads, unmarshal_post_like_req_2-Reads,
  unmarshal_post_unlike_req-Reads, unmarshal_report_illegal_cmt_req-Reads,
}
use feeds_service.Rpc.Encoded.Queries.{
  unmarshal_get_my_chans_req-Reads, unmarshal_get_my_chans_meta_req-Reads,
  unmarshal_get_chans_req-Reads, unmarshal_get_chan_dtl_req-Reads,
  unmarshal_get_sub_chans_req-Reads, unmarshal_get_posts_req-Reads,
  unmarshal_get_posts_lac_req-Reads, unmarshal_get_liked_posts_req-Reads,
  unmarshal_get_liked_data_req-Reads, unmarshal_get_cmts_req-Reads,
  unmarshal_get_cmts_likes_req-Reads, unmarshal_get_stats_req-Reads,
  unmarshal_get_reported_cmts_req-Reads,
}

-- The header of a message of version 2.0 is accepted, and the table's row is asked.
opened :
    (v : ℕ) (method : String) (tsx_id : ℕ) (params : Entries) (req : Req)
    → is_full method ≡ true
    → {left : ℕ} → strncpy 1024 (len method) ≡ some left
    → find_parser true req_parsers_2_0 method tsx_id params ≡ request req
    → rpc_unmarshal_req true v (map (message "2.0" method tsx_id params)) ≡ (request req, 2)
unfolding rpc_unmarshal_req check_header by_version header map_nxt_val
opened v method tsx_id params req full short found = rw (full, short, found) refl

module _ (v : ℕ) where
  pub rpc_unmarshal_req-encode :
      (req : Req)
      → is_valid req ≡ true
      → rpc_unmarshal_req true v (encode req) ≡ (request (carried req), 2)
  unfolding encode method_of find_parser req_parsers_2_0 strncpy is_valid tsx_id_of params_of
      carried
  rpc_unmarshal_req-encode (declare_owner r) valid =
      let req = declare_owner r in
      opened v "declare_owner" (tsx_id_of req) (params_of req) (carried req) refl refl
        (ap result_of (unmarshal_decl_owner_req-Reads r valid).at)
  rpc_unmarshal_req-encode (import_did r) valid =
      let req = import_did r in
      opened v "import_did" (tsx_id_of req) (params_of req) (carried req) refl refl
        (ap result_of (unmarshal_imp_did_req-Reads r).at)
  rpc_unmarshal_req-encode (issue_credential r) valid =
      let req = issue_credential r in
      opened v "issue_credential" (tsx_id_of req) (params_of req) (carried req) refl refl
        (ap result_of (unmarshal_iss_vc_req-Reads r valid).at)
  rpc_unmarshal_req-encode (update_credential r) valid =
      let req = update_credential r in
      opened v "update_credential" (tsx_id_of req) (params_of req) (carried req) refl refl
        (ap result_of (unmarshal_update_vc_req-Reads r valid).at)
  rpc_unmarshal_req-encode (signin_request_challenge r) valid =
      let req = signin_request_challenge r in
      opened v "signin_request_challenge" (tsx_id_of req) (params_of req) (carried req) refl refl
        (ap result_of (unmarshal_signin_req_chal_req-Reads r valid).at)
  rpc_unmarshal_req-encode (signin_confirm_challenge r) valid =
      let req = signin_confirm_challenge r in
      opened v "signin_confirm_challenge" (tsx_id_of req) (params_of req) (carried req) refl refl
        (ap result_of (unmarshal_signin_conf_chal_req-Reads r valid).at)
  rpc_unmarshal_req-encode (writes (create_channel r)) valid =
      let req = writes (create_channel r) in
      opened v "create_channel" (tsx_id_of req) (params_of req) (carried req) refl refl
        (ap result_of (unmarshal_create_chan_req_2-Reads r valid).at)
  rpc_unmarshal_req-encode (writes (update_feedinfo r)) valid =
      let req = writes (update_feedinfo r) in
      opened v "update_feedinfo" (tsx_id_of req) (params_of req) (carried req) refl refl
        (ap result_of (unmarshal_upd_chan_req_2-Reads r valid).at)
  rpc_unmarshal_req-encode (writes (update_user_info r)) valid =
      let req = writes (update_user_info r) in
      opened v "update_user_info" (tsx_id_of req) (params_of req) (carried req) refl refl
        (ap result_of (unmarshal_upd_user_info_req-Reads r valid).at)
  rpc_unmarshal_req-encode (unnamed_update_user_info r) valid =
      let req = unnamed_update_user_info r in
      opened v "update_user_info" (tsx_id_of req) (params_of req) (carried req) refl refl
        (ap result_of (unmarshal_upd_user_info_req-Reads r valid).at)
  rpc_unmarshal_req-encode (writes (publish_post r)) valid =
      let req = writes (publish_post r) in
      opened v "publish_post" (tsx_id_of req) (params_of req) (carried req) refl refl
        (ap result_of (unmarshal_pub_post_req_2-Reads r valid).at)
  rpc_unmarshal_req-encode (writes (declare_post r)) valid =
      let req = writes (declare_post r) in
      opened v "declare_post" (tsx_id_of req) (params_of req) (carried req) refl refl
        (ap result_of (unmarshal_declare_post_req_2-Reads r valid).at)
  rpc_unmarshal_req-encode (writes (notify_post r)) valid =
      let req = writes (notify_post r) in
      opened v "notify_post" (tsx_id_of req) (params_of req) (carried req) refl refl
        (ap result_of (unmarshal_notify_post_req-Reads r valid).at)
  rpc_unmarshal_req-encode (writes (edit_post r)) valid =
      let req = writes (edit_post r) in
      opened v "edit_post" (tsx_id_of req) (params_of req) (carried req) refl refl
        (ap result_of (unmarshal_edit_post_req_2-Reads r valid).at)
  rpc_unmarshal_req-encode (writes (delete_post r)) valid =
      let req = writes (delete_post r) in
      opened v "delete_post" (tsx_id_of req) (params_of req) (carried req) refl refl
        (ap result_of (unmarshal_del_post_req-Reads r valid).at)
  rpc_unmarshal_req-encode (writes (post_comment r)) valid =
      let req = writes (post_comment r) in
      opened v "post_comment" (tsx_id_of req) (params_of req) (carried req) refl refl
        (ap result_of (unmarshal_post_cmt_req_2-Reads r valid).at)
  rpc_unmarshal_req-encode (writes (edit_comment r)) valid =
      let req = writes (edit_comment r) in
      opened v "edit_comment" (tsx_id_of req) (params_of req) (carried req) refl refl
        (ap result_of (unmarshal_edit_cmt_req_2-Reads r valid).at)
  rpc_unmarshal_req-encode (writes (delete_comment r)) valid =
      let req = writes (delete_comment r) in
      opened v "delete_comment" (tsx_id_of req) (params_of req) (carried req) refl refl
        (ap result_of (unmarshal_del_cmt_req-Reads r valid).at)
  rpc_unmarshal_req-encode (writes (block_comment r)) valid =
      let req = writes (block_comment r) in
      opened v "block_comment" (tsx_id_of req) (params_of req) (carried req) refl refl
        (ap result_of (unmarshal_block_cmt_req-Reads r valid).at)
  rpc_unmarshal_req-encode (writes (unblock_comment r)) valid =
      let req = writes (unblock_comment r) in
      opened v "unblock_comment" (tsx_id_of req) (params_of req) (carried req) refl refl
        (ap result_of (unmarshal_unblock_cmt_req-Reads r valid).at)
  rpc_unmarshal_req-encode (writes (post_like r)) valid =
      let req = writes (post_like r) in
      opened v "post_like" (tsx_id_of req) (params_of req) (carried req) refl refl
        (ap result_of (unmarshal_post_like_req_2-Reads r valid).at)
  rpc_unmarshal_req-encode (writes (post_unlike r)) valid =
      let req = writes (post_unlike r) in
      opened v "post_unlike" (tsx_id_of req) (params_of req) (carried req) refl refl
        (ap result_of (unmarshal_post_unlike_req-Reads r valid).at)
  rpc_unmarshal_req-encode (get_my_channels r) valid =
      let req = get_my_channels r in
      opened v "get_my_channels" (tsx_id_of req) (params_of req) (carried req) refl refl
        (ap result_of (unmarshal_get_my_chans_req-Reads r valid).at)
  rpc_unmarshal_req-encode (get_my_channels_metadata r) valid =
      let req = get_my_channels_metadata r in
      opened v "get_my_channels_metadata" (tsx_id_of req) (params_of req) (carried req) refl refl
        (ap result_of (unmarshal_get_my_chans_meta_req-Reads r valid).at)
  rpc_unmarshal_req-encode (get_channels r) valid =
      let req = get_channels r in
      opened v "get_channels" (tsx_id_of req) (params_of req) (carried req) refl refl
        (ap result_of (unmarshal_get_chans_req-Reads r valid).at)
  rpc_unmarshal_req-encode (get_channel_detail r) valid =
      let req = get_channel_detail r in
      opened v "get_channel_detail" (tsx_id_of req) (params_of req) (carried req) refl refl
        (ap result_of (unmarshal_get_chan_dtl_req-Reads r valid).at)
  rpc_unmarshal_req-encode (get_subscribed_channels r) valid =
      let req = get_subscribed_channels r in
      opened v "get_subscribed_channels" (tsx_id_of req) (params_of req) (carried req) refl refl
        (ap result_of (unmarshal_get_sub_chans_req-Reads r valid).at)
  rpc_unmarshal_req-encode (get_posts r) valid =
      let req = get_posts r in
      opened v "get_posts" (tsx_id_of req) (params_of req) (carried req) refl refl
        (ap result_of (unmarshal_get_posts_req-Reads r valid).at)
  rpc_unmarshal_req-encode (get_posts_likes_and_comments r) valid =
      let req = get_posts_likes_and_comments r in
      opened v "get_posts_likes_and_comments" (tsx_id_of req) (params_of req) (carried req) refl
        refl (ap result_of (unmarshal_get_posts_lac_req-Reads r valid).at)
  rpc_unmarshal_req-encode (get_liked_posts r) valid =
      let req = get_liked_posts r in
      opened v "get_liked_posts" (tsx_id_of req) (params_of req) (carried req) refl refl
        (ap result_of (unmarshal_get_liked_posts_req-Reads r valid).at)
  rpc_unmarshal_req-encode (get_liked_data r) valid =
      let req = get_liked_data r in
      opened v "get_liked_data" (tsx_id_of req) (params_of req) (carried req) refl refl
        (ap result_of (unmarshal_get_liked_data_req-Reads r valid).at)
  rpc_unmarshal_req-encode (get_comments r) valid =
      let req = get_comments r in
      opened v "get_comments" (tsx_id_of req) (params_of req) (carried req) refl refl
        (ap result_of (unmarshal_get_cmts_req-Reads r valid).at)
  rpc_unmarshal_req-encode (get_comments_likes r) valid =
      let req = get_comments_likes r in
      opened v "get_comments_likes" (tsx_id_of req) (params_of req) (carried req) refl refl
        (ap result_of (unmarshal_get_cmts_likes_req-Reads r valid).at)
  rpc_unmarshal_req-encode (get_statistics r) valid =
      let req = get_statistics r in
      opened v "get_statistics" (tsx_id_of req) (params_of req) (carried req) refl refl
        (ap result_of (unmarshal_get_stats_req-Reads r valid).at)
  rpc_unmarshal_req-encode (writes (subscribe_channel r)) valid =
      let req = writes (subscribe_channel r) in
      opened v "subscribe_channel" (tsx_id_of req) (params_of req) (carried req) refl refl
        (ap result_of (unmarshal_sub_chan_req_2-Reads r valid).at)
  rpc_unmarshal_req-encode (writes (unsubscribe_channel r)) valid =
      let req = writes (unsubscribe_channel r) in
      opened v "unsubscribe_channel" (tsx_id_of req) (params_of req) (carried req) refl refl
        (ap result_of (unmarshal_unsub_chan_req-Reads r valid).at)
  rpc_unmarshal_req-encode (writes (enable_notification r)) valid =
      let req = writes (enable_notification r) in
      opened v "enable_notification" (tsx_id_of req) (params_of req) (carried req) refl refl
        (ap result_of (unmarshal_enbl_notif_req-Reads r valid).at)
  rpc_unmarshal_req-encode (set_binary r) valid =
      let req = set_binary r in
      opened v "set_binary" (tsx_id_of req) (params_of req) (carried req) refl refl
        (ap result_of (unmarshal_set_binary_req-Reads r valid).at)
  rpc_unmarshal_req-encode (get_binary r) valid =
      let req = get_binary r in
      opened v "get_binary" (tsx_id_of req) (params_of req) (carried req) refl refl
        (ap result_of (unmarshal_get_binary_req-Reads r valid).at)
  rpc_unmarshal_req-encode (get_service_version tsx_id) valid =
      let req = get_service_version tsx_id in
      opened v "get_service_version" (tsx_id_of req) (params_of req) (carried req) refl refl
        (ap result_of (unmarshal_get_srv_ver_req-Reads tsx_id valid).at)
  rpc_unmarshal_req-encode (writes (report_illegal_comment r)) valid =
      let req = writes (report_illegal_comment r) in
      opened v "report_illegal_comment" (tsx_id_of req) (params_of req) (carried req) refl refl
        (ap result_of (unmarshal_report_illegal_cmt_req-Reads r valid).at)
  rpc_unmarshal_req-encode (get_reported_comments r) valid =
      let req = get_reported_comments r in
      opened v "get_reported_comments" (tsx_id_of req) (params_of req) (carried req) refl refl
        (ap result_of (unmarshal_get_reported_cmts_req-Reads r valid).at)
