-- ===== src/Rpc/Marshal/Responses.antt =====
-- src/rpc.c: the responses to the requests that write.
use feeds_service.Prelude.{ℕ, String, Bool, ◌++◌, some}
use feeds_service.Obj.{
  UserInfo, ChanInfo, Error, already_exists, not_exist, not_authorized, wrong_state,
  access_token_exp, internal_error, invalid_params, invalid_chal_resp, invalid_vc, unknown_method,
  db_error, max_feeds_limit,
}
use feeds_service.Rpc.Marshal.{
  Tokens, pack_kv_str, pack_kv_i64, pack_kv_u64, pack_kv_nil, pack_kv_bool, pack_kv_bin, pack_map,
  pack_kv_map,
}

-- -1 minus the code of an error.
abbrev pub code_of : Error → ℕ
code_of already_exists = 0
code_of not_exist = 1
code_of not_authorized = 2
code_of wrong_state = 3
code_of access_token_exp = 4
code_of internal_error = 5
code_of invalid_params = 6
code_of invalid_chal_resp = 7
code_of invalid_vc = 8
code_of unknown_method = 9
code_of db_error = 10
code_of max_feeds_limit = 11

abbrev pub err_strerror : Error → String
err_strerror already_exists = "Entity Already Exists"
err_strerror not_exist = "Entity Not Exists"
err_strerror not_authorized = "Operation Not Authorized"
err_strerror wrong_state = "Operation In Wrong State"
err_strerror access_token_exp = "Access Token Expired"
err_strerror internal_error = "Internal Error"
err_strerror invalid_params = "Invalid Parameters"
err_strerror invalid_chal_resp = "Invalid Challenge Response"
err_strerror invalid_vc = "Invalid Verifiable Credential"
err_strerror unknown_method = "Unsupported Method"
err_strerror db_error = "Database error"
err_strerror max_feeds_limit = "Exceeded the max number of feeds"

unfoldable pub rpc_marshal_err : ℕ → ℕ → String → Tokens
rpc_marshal_err tsx_id code errdesp = pack_map 3 (
    pack_kv_str "version" (some "1.0")
    ++ pack_kv_u64 "id" tsx_id
    ++ pack_kv_map "error" 2 (pack_kv_i64 "code" code ++ pack_kv_str "message" (some errdesp)))

unfoldable pub rpc_marshal_err_resp : ℕ → Error → Tokens
rpc_marshal_err_resp tsx_id ec = rpc_marshal_err tsx_id (code_of ec) (err_strerror ec)

unfoldable pub rpc_marshal_create_chan_resp : ℕ → ℕ → Tokens
rpc_marshal_create_chan_resp tsx_id id = pack_map 3 (
    pack_kv_str "version" (some "1.0")
    ++ pack_kv_u64 "id" tsx_id
    ++ pack_kv_map "result" 1 (pack_kv_u64 "id" id))

unfoldable pub rpc_marshal_pub_post_resp : ℕ → ℕ → Tokens
rpc_marshal_pub_post_resp tsx_id id = pack_map 3 (
    pack_kv_str "version" (some "1.0")
    ++ pack_kv_u64 "id" tsx_id
    ++ pack_kv_map "result" 1 (pack_kv_u64 "id" id))

unfoldable pub rpc_marshal_declare_post_resp : ℕ → ℕ → Tokens
rpc_marshal_declare_post_resp tsx_id id = pack_map 3 (
    pack_kv_str "version" (some "1.0")
    ++ pack_kv_u64 "id" tsx_id
    ++ pack_kv_map "result" 1 (pack_kv_u64 "id" id))

unfoldable pub rpc_marshal_post_cmt_resp : ℕ → ℕ → Tokens
rpc_marshal_post_cmt_resp tsx_id id = pack_map 3 (
    pack_kv_str "version" (some "1.0")
    ++ pack_kv_u64 "id" tsx_id
    ++ pack_kv_map "result" 1 (pack_kv_u64 "id" id))

unfoldable pub rpc_marshal_upd_chan_resp : ℕ → Tokens
rpc_marshal_upd_chan_resp tsx_id =
    pack_map 3
      (pack_kv_str "version" (some "1.0") ++ pack_kv_u64 "id" tsx_id ++ pack_kv_nil "result")

unfoldable pub rpc_marshal_upd_user_info_resp : ℕ → Tokens
rpc_marshal_upd_user_info_resp tsx_id =
    pack_map 3
      (pack_kv_str "version" (some "1.0") ++ pack_kv_u64 "id" tsx_id ++ pack_kv_nil "result")

unfoldable pub rpc_marshal_notify_post_resp : ℕ → Tokens
rpc_marshal_notify_post_resp tsx_id =
    pack_map 3
      (pack_kv_str "version" (some "1.0") ++ pack_kv_u64 "id" tsx_id ++ pack_kv_nil "result")

unfoldable pub rpc_marshal_edit_post_resp : ℕ → Tokens
rpc_marshal_edit_post_resp tsx_id =
    pack_map 3
      (pack_kv_str "version" (some "1.0") ++ pack_kv_u64 "id" tsx_id ++ pack_kv_nil "result")

unfoldable pub rpc_marshal_del_post_resp : ℕ → Tokens
rpc_marshal_del_post_resp tsx_id =
    pack_map 3
      (pack_kv_str "version" (some "1.0") ++ pack_kv_u64 "id" tsx_id ++ pack_kv_nil "result")

unfoldable pub rpc_marshal_edit_cmt_resp : ℕ → Tokens
rpc_marshal_edit_cmt_resp tsx_id =
    pack_map 3
      (pack_kv_str "version" (some "1.0") ++ pack_kv_u64 "id" tsx_id ++ pack_kv_nil "result")

unfoldable pub rpc_marshal_del_cmt_resp : ℕ → Tokens
rpc_marshal_del_cmt_resp tsx_id =
    pack_map 3
      (pack_kv_str "version" (some "1.0") ++ pack_kv_u64 "id" tsx_id ++ pack_kv_nil "result")

unfoldable pub rpc_marshal_block_cmt_resp : ℕ → Tokens
rpc_marshal_block_cmt_resp tsx_id =
    pack_map 3
      (pack_kv_str "version" (some "1.0") ++ pack_kv_u64 "id" tsx_id ++ pack_kv_nil "result")

unfoldable pub rpc_marshal_unblock_cmt_resp : ℕ → Tokens
rpc_marshal_unblock_cmt_resp tsx_id =
    pack_map 3
      (pack_kv_str "version" (some "1.0") ++ pack_kv_u64 "id" tsx_id ++ pack_kv_nil "result")

unfoldable pub rpc_marshal_post_like_resp : ℕ → Tokens
rpc_marshal_post_like_resp tsx_id =
    pack_map 3
      (pack_kv_str "version" (some "1.0") ++ pack_kv_u64 "id" tsx_id ++ pack_kv_nil "result")

unfoldable pub rpc_marshal_post_unlike_resp : ℕ → Tokens
rpc_marshal_post_unlike_resp tsx_id =
    pack_map 3
      (pack_kv_str "version" (some "1.0") ++ pack_kv_u64 "id" tsx_id ++ pack_kv_nil "result")

unfoldable pub rpc_marshal_unsub_chan_resp : ℕ → Tokens
rpc_marshal_unsub_chan_resp tsx_id =
    pack_map 3
      (pack_kv_str "version" (some "1.0") ++ pack_kv_u64 "id" tsx_id ++ pack_kv_nil "result")

unfoldable pub rpc_marshal_enbl_notif_resp : ℕ → Tokens
rpc_marshal_enbl_notif_resp tsx_id =
    pack_map 3
      (pack_kv_str "version" (some "1.0") ++ pack_kv_u64 "id" tsx_id ++ pack_kv_nil "result")

unfoldable pub rpc_marshal_report_illegal_cmt_resp : ℕ → Tokens
rpc_marshal_report_illegal_cmt_resp tsx_id =
    pack_map 3
      (pack_kv_str "version" (some "1.0") ++ pack_kv_u64 "id" tsx_id ++ pack_kv_nil "result")

unfoldable pub rpc_marshal_sub_chan_resp : UserInfo → ℕ → Bool → ChanInfo → Tokens
rpc_marshal_sub_chan_resp owner tsx_id is_last ci = pack_map 3 (
    pack_kv_str "version" (some "2.0")
    ++ pack_kv_u64 "id" tsx_id
    ++ pack_kv_map "result" 12 (
        pack_kv_bool "is_last" is_last
        ++ pack_kv_u64 "id" ci.chan_id
        ++ pack_kv_str "name" (some ci.name)
        ++ pack_kv_str "introduction" (some ci.intro)
        ++ pack_kv_str "owner_name" (some owner.name)
        ++ pack_kv_str "owner_did" (some owner.did)
        ++ pack_kv_u64 "subscribers" ci.subs
        ++ pack_kv_u64 "last_update" ci.upd_at
        ++ pack_kv_bin "avatar" ci.avatar
        ++ pack_kv_str "tip_methods" (some ci.tip_methods)
        ++ pack_kv_str "proof" (some ci.proof)
        ++ pack_kv_u64 "status" ci.status))
