-- ===== src/Rpc/Parsers.antt =====
-- src/rpc.c: the tables of the requests, and rpc_unmarshal_req.
use Prim.Native.String.{len}
use text.Mathlib.Text.{starts_with}
use feeds_service.Prelude.{
  ℕ, zero, suc, String, str_eq, Bool, not, ◌&&◌, Option, none, some, List, [], ◌∷◌,
}
use feeds_service.Prelude.Tests.{if◌then◌else◌}
use feeds_service.Rpc.Objects.{
  Obj, Entries, Reader, Parsed, accepted, refused, null_pointer, header, as_map, is_full,
}
use feeds_service.Rpc.Requests.{Req}
use feeds_service.Rpc.Unmarshal.Accounts.{
  unmarshal_decl_owner_req, unmarshal_imp_did_req, unmarshal_iss_vc_req, unmarshal_update_vc_req,
  unmarshal_signin_req_chal_req, unmarshal_signin_conf_chal_req, unmarshal_set_binary_req,
  unmarshal_get_binary_req, unmarshal_get_srv_ver_req,
}
use feeds_service.Rpc.Unmarshal.Channels.{
  unmarshal_create_chan_req, unmarshal_create_chan_req_2, unmarshal_upd_user_info_req,
  unmarshal_upd_chan_req, unmarshal_upd_chan_req_2, unmarshal_sub_chan_req,
  unmarshal_sub_chan_req_2, unmarshal_unsub_chan_req, unmarshal_enbl_notif_req,
}
use feeds_service.Rpc.Unmarshal.Posts.{
  unmarshal_pub_post_req, unmarshal_pub_post_req_2, unmarshal_declare_post_req,
  unmarshal_declare_post_req_2, unmarshal_notify_post_req, unmarshal_edit_post_req,
  unmarshal_edit_post_req_2, unmarshal_del_post_req,
}
use feeds_service.Rpc.Unmarshal.Comments.{
  unmarshal_post_cmt_req, unmarshal_post_cmt_req_2, unmarshal_edit_cmt_req,
  unmarshal_edit_cmt_req_2, unmarshal_del_cmt_req, unmarshal_block_cmt_req,
  unmarshal_unblock_cmt_req, unmarshal_post_like_req, unmarshal_post_like_req_2,
  unmarshal_post_unlike_req, unmarshal_report_illegal_cmt_req,
}
use feeds_service.Rpc.Unmarshal.Queries.{
  unmarshal_get_my_chans_req, unmarshal_get_my_chans_meta_req, unmarshal_get_chans_req,
  unmarshal_get_chan_dtl_req, unmarshal_get_sub_chans_req, unmarshal_get_posts_req,
  unmarshal_get_posts_lac_req, unmarshal_get_liked_posts_req, unmarshal_get_liked_data_req,
  unmarshal_get_cmts_req, unmarshal_get_cmts_likes_req, unmarshal_get_stats_req,
  unmarshal_get_reported_cmts_req,
}

-- struct ReqParser
pub record ReqParser : Type 0 where
  pub method : String
  pub parser : Bool → ℕ → Reader Req

unfoldable pub req_parsers_1_0 : List ReqParser
req_parsers_1_0 =
    record { method = "declare_owner"; parser = unmarshal_decl_owner_req }
    ∷ record { method = "import_did"; parser = unmarshal_imp_did_req }
    ∷ record { method = "issue_credential"; parser = unmarshal_iss_vc_req }
    ∷ record { method = "update_credential"; parser = unmarshal_update_vc_req }
    ∷ record { method = "signin_request_challenge"; parser = unmarshal_signin_req_chal_req }
    ∷ record { method = "signin_confirm_challenge"; parser = unmarshal_signin_conf_chal_req }
    ∷ record { method = "create_channel"; parser = unmarshal_create_chan_req }
    ∷ record { method = "update_feedinfo"; parser = unmarshal_upd_chan_req }
    ∷ record { method = "update_user_info"; parser = unmarshal_upd_user_info_req }
    ∷ record { method = "publish_post"; parser = unmarshal_pub_post_req }
    ∷ record { method = "declare_post"; parser = unmarshal_declare_post_req }
    ∷ record { method = "notify_post"; parser = unmarshal_notify_post_req }
    ∷ record { method = "edit_post"; parser = unmarshal_edit_post_req }
    ∷ record { method = "delete_post"; parser = unmarshal_del_post_req }
    ∷ record { method = "post_comment"; parser = unmarshal_post_cmt_req }
    ∷ record { method = "edit_comment"; parser = unmarshal_edit_cmt_req }
    ∷ record { method = "delete_comment"; parser = unmarshal_del_cmt_req }
    ∷ record { method = "block_comment"; parser = unmarshal_block_cmt_req }
    ∷ record { method = "unblock_comment"; parser = unmarshal_unblock_cmt_req }
    ∷ record { method = "post_like"; parser = unmarshal_post_like_req }
    ∷ record { method = "post_unlike"; parser = unmarshal_post_unlike_req }
    ∷ record { method = "get_my_channels"; parser = unmarshal_get_my_chans_req }
    ∷ record { method = "get_my_channels_metadata"; parser = unmarshal_get_my_chans_meta_req }
    ∷ record { method = "get_channels"; parser = unmarshal_get_chans_req }
    ∷ record { method = "get_channel_detail"; parser = unmarshal_get_chan_dtl_req }
    ∷ record { method = "get_subscribed_channels"; parser = unmarshal_get_sub_chans_req }
    ∷ record { method = "get_posts"; parser = unmarshal_get_posts_req }
    ∷ record { method = "get_posts_likes_and_comments"; parser = unmarshal_get_posts_lac_req }
    ∷ record { method = "get_liked_posts"; parser = unmarshal_get_liked_posts_req }
    ∷ record { method = "get_liked_data"; parser = unmarshal_get_liked_data_req }
    ∷ record { method = "get_comments"; parser = unmarshal_get_cmts_req }
    ∷ record { method = "get_comments_likes"; parser = unmarshal_get_cmts_likes_req }
    ∷ record { method = "get_statistics"; parser = unmarshal_get_stats_req }
    ∷ record { method = "subscribe_channel"; parser = unmarshal_sub_chan_req }
    ∷ record { method = "unsubscribe_channel"; parser = unmarshal_unsub_chan_req }
    ∷ record { method = "enable_notification"; parser = unmarshal_enbl_notif_req }
    ∷ record { method = "set_binary"; parser = unmarshal_set_binary_req }
    ∷ record { method = "get_binary"; parser = unmarshal_get_binary_req }
    ∷ record { method = "get_service_version"; parser = unmarshal_get_srv_ver_req }
    ∷ record { method = "report_illegal_comment"; parser = unmarshal_report_illegal_cmt_req }
    ∷ record { method = "get_reported_comments"; parser = unmarshal_get_reported_cmts_req }
    ∷ []

unfoldable pub req_parsers_2_0 : List ReqParser
req_parsers_2_0 =
    record { method = "declare_owner"; parser = unmarshal_decl_owner_req }
    ∷ record { method = "import_did"; parser = unmarshal_imp_did_req }
    ∷ record { method = "issue_credential"; parser = unmarshal_iss_vc_req }
    ∷ record { method = "update_credential"; parser = unmarshal_update_vc_req }
    ∷ record { method = "signin_request_challenge"; parser = unmarshal_signin_req_chal_req }
    ∷ record { method = "signin_confirm_challenge"; parser = unmarshal_signin_conf_chal_req }
    ∷ record { method = "create_channel"; parser = unmarshal_create_chan_req_2 }
    ∷ record { method = "update_feedinfo"; parser = unmarshal_upd_chan_req_2 }
    ∷ record { method = "update_user_info"; parser = unmarshal_upd_user_info_req }
    ∷ record { method = "publish_post"; parser = unmarshal_pub_post_req_2 }
    ∷ record { method = "declare_post"; parser = unmarshal_declare_post_req_2 }
    ∷ record { method = "notify_post"; parser = unmarshal_notify_post_req }
    ∷ record { method = "edit_post"; parser = unmarshal_edit_post_req_2 }
    ∷ record { method = "delete_post"; parser = unmarshal_del_post_req }
    ∷ record { method = "post_comment"; parser = unmarshal_post_cmt_req_2 }
    ∷ record { method = "edit_comment"; parser = unmarshal_edit_cmt_req_2 }
    ∷ record { method = "delete_comment"; parser = unmarshal_del_cmt_req }
    ∷ record { method = "block_comment"; parser = unmarshal_block_cmt_req }
    ∷ record { method = "unblock_comment"; parser = unmarshal_unblock_cmt_req }
    ∷ record { method = "post_like"; parser = unmarshal_post_like_req_2 }
    ∷ record { method = "post_unlike"; parser = unmarshal_post_unlike_req }
    ∷ record { method = "get_my_channels"; parser = unmarshal_get_my_chans_req }
    ∷ record { method = "get_my_channels_metadata"; parser = unmarshal_get_my_chans_meta_req }
    ∷ record { method = "get_channels"; parser = unmarshal_get_chans_req }
    ∷ record { method = "get_channel_detail"; parser = unmarshal_get_chan_dtl_req }
    ∷ record { method = "get_subscribed_channels"; parser = unmarshal_get_sub_chans_req }
    ∷ record { method = "get_posts"; parser = unmarshal_get_posts_req }
    ∷ record { method = "get_posts_likes_and_comments"; parser = unmarshal_get_posts_lac_req }
    ∷ record { method = "get_liked_posts"; parser = unmarshal_get_liked_posts_req }
    ∷ record { method = "get_liked_data"; parser = unmarshal_get_liked_data_req }
    ∷ record { method = "get_comments"; parser = unmarshal_get_cmts_req }
    ∷ record { method = "get_comments_likes"; parser = unmarshal_get_cmts_likes_req }
    ∷ record { method = "get_statistics"; parser = unmarshal_get_stats_req }
    ∷ record { method = "subscribe_channel"; parser = unmarshal_sub_chan_req_2 }
    ∷ record { method = "unsubscribe_channel"; parser = unmarshal_unsub_chan_req }
    ∷ record { method = "enable_notification"; parser = unmarshal_enbl_notif_req }
    ∷ record { method = "set_binary"; parser = unmarshal_set_binary_req }
    ∷ record { method = "get_binary"; parser = unmarshal_get_binary_req }
    ∷ record { method = "get_service_version"; parser = unmarshal_get_srv_ver_req }
    ∷ record { method = "report_illegal_comment"; parser = unmarshal_report_illegal_cmt_req }
    ∷ record { method = "get_reported_comments"; parser = unmarshal_get_reported_cmts_req }
    ∷ []

-- What rpc_unmarshal_req returns: 0, -1, -2 or -3, the latter two with the request's id for the
-- error response. `crashed`: it follows a null pointer. `overflow`: it writes past the end of
-- `method_str`.
pub data Unmarshalled : Type 0 where
  request : Req → Unmarshalled
  failed : Unmarshalled
  unknown_method : ℕ → Unmarshalled
  unsupported_version : Option ℕ → Unmarshalled
  crashed overflow : Unmarshalled

abbrev pub result_of : Parsed (Req × Entries) → Unmarshalled
result_of (accepted (req, c)) = request req
result_of refused = failed
result_of null_pointer = crashed

-- The loop over the table. Without a row unmarshal_unknown_req allocates the request.
unfoldable pub find_parser : Bool → List ReqParser → String → ℕ → Entries → Unmarshalled
find_parser alloc [] method tsx_id params = if alloc then unknown_method tsx_id else failed
find_parser alloc (row ∷ rows) method tsx_id params =
    let rest = find_parser alloc rows method tsx_id params in
    if str_eq method row.method then result_of (row.parser alloc tsx_id params) else rest

-- memcmp(version, "1.0", version->str_sz) == 0, as of a version that is a front of "1.0"
unfoldable pub by_version : Bool → ℕ → String → String → ℕ → Entries → Unmarshalled × ℕ
by_version alloc rpc_version version method tsx_id params =
    if starts_with "1.0" version
    then (find_parser alloc req_parsers_1_0 method tsx_id params, 1)
    else if starts_with "2.0" version
    then (find_parser alloc req_parsers_2_0 method tsx_id params, 2)
    else (unsupported_version (if alloc then some tsx_id else none), rpc_version)

-- strncpy(method_str, …, n), byte after byte: `none` when it writes past the `room` bytes of the
-- array, otherwise the bytes that are left.
unfoldable pub strncpy : ℕ → ℕ → Option ℕ
strncpy room zero = some room
strncpy zero (suc n) = none
strncpy (suc room) (suc n) = strncpy room n

unfoldable pub check_header :
    Bool → ℕ → Option String → Option String → Option ℕ → Entries → Unmarshalled × ℕ
check_header alloc rpc_version (some version) (some method) (some tsx_id) params =
    if not (is_full version && is_full method)
    then (failed, rpc_version)
    else elim (strncpy 1024 (len method)) [
      | none ↦ (overflow, rpc_version)
      | some left ↦ by_version alloc rpc_version version method tsx_id params
    ]
check_header alloc rpc_version _ _ _ params = (failed, rpc_version)

-- On an object that the library has decoded, with the static variable `rpc_version`.
unfoldable pub rpc_unmarshal_req : Bool → ℕ → Obj → Unmarshalled × ℕ
rpc_unmarshal_req alloc rpc_version o = elim (as_map o) [
  | none ↦ (failed, rpc_version)
  | some req ↦
      let h = header req in check_header alloc rpc_version h.version h.method h.tsx_id h.params
]
