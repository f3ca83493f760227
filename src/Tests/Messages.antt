-- ===== src/Tests/Messages.antt =====
-- Messages to the service, and what it sends, as they are marshalled.
use feeds_service.Prelude.{◌≡◌, ◌<◌, ◌↔◌, refl, ap, true, some, ◌⊎◌, [], ◌∷◌, ◌≢◌, ◌++◌}
use Prim.Native.String.{len}
use feeds_service.Prelude.Lists.{length}
use feeds_service.Feeds.Dispatch.{publish_post, dispatch}
use feeds_service.Rpc.Objects.{Entries, no_entries, map, header, map_nxt_val, Obj}
use feeds_service.Rpc.Requests.{Req, writes}
use feeds_service.Rpc.Parsers.{request, crashed, overflow, rpc_unmarshal_req}
use feeds_service.Rpc.Valid.{is_valid, method_of}
use feeds_service.Rpc.Encoded.{message, encode, carried, tsx_id_of, params_of}
use feeds_service.Rpc.Requested.{rpc_unmarshal_req_crash}
use feeds_service.Rpc.RoundTrip.{rpc_unmarshal_req-encode}
use feeds_service.Rpc.Faults.{until_content, declare_post_crash, rpc_unmarshal_req_overflow}
use feeds_service.Prelude.Rows.{update, select, has_row}
use feeds_service.Obj.{cmt_available, CmtInfo}
use feeds_service.Db.Tables.{Db, is_cmt}
use feeds_service.Db.Comments.{db_cmt_exists, db_cmt_uid, db_set_cmt_status, set_cmt_row_status}
use feeds_service.Feeds.State.{
  chan_get_by_id, nodes_of, new_sub_notif, cmt_upd_notif, unblock_cmt_resp,
}
use feeds_service.Feeds.Init.{row2chan}
use feeds_service.Feeds.Comments.{hdl_unblock_cmt_req, cmt_to}
use feeds_service.Feeds.Outbox.{copies}
use feeds_service.Rpc.Marshal.Objects.{is_object, tokens_of}
use feeds_service.Rpc.Marshal.Messages.{rpc_marshal, is_packable, rpc_marshal-is_object}
use feeds_service.Rpc.Marshal.Sends.{AreDecodable, no_message}
use feeds_service.Rpc.Marshal.Posts.{published, rpc_unmarshal_req-AreDecodable}
use feeds_service.Rpc.Marshal.Unblocked.{hdl_unblock_cmt_req-rpc_marshal}
use feeds_service.Tests.Data.{owner, reader, env_of, stored, service, news_chan, cmt_req}
use feeds_service.Feeds.Posts.{PubPostReq}

abbrev a_post_req : PubPostReq
a_post_req = record {
  tsx_id = 7;
  tk = "token";
  chan_id = 1;
  content = 104 ∷ 105 ∷ [];
  thumbnails = 160 ∷ [];
  hash_id = "Qm";
  proof = "sig";
  origin_post_url = "url";
}

abbrev a_post : Req
a_post = writes (publish_post a_post_req)

a_post-is_valid : is_valid a_post ≡ true
unfolding is_valid length
a_post-is_valid = refl

rpc_unmarshal_req-encode_example :
    rpc_unmarshal_req true 0 (encode a_post) ≡ (request (carried a_post), 2)
rpc_unmarshal_req-encode_example = rpc_unmarshal_req-encode 0 a_post a_post-is_valid

abbrev a_message : Entries
a_message = message "2.0" "publish_post" 7 (params_of a_post)

a_message-read : (rpc_unmarshal_req true 0 (map a_message)).0 ≡ request (carried a_post)
unfolding encode method_of tsx_id_of
a_message-read = ap (λ r. r.0) rpc_unmarshal_req-encode_example

abbrev a_declaration : Entries
a_declaration = message "1.0" "declare_post" 8 (until_content "anyone" 1 (104 ∷ []) no_entries)

declare_post_crash_example : rpc_unmarshal_req true 0 (map a_declaration) ≡ (crashed, 1)
unfolding map_nxt_val length
declare_post_crash_example =
    declare_post_crash 0 8 1 "anyone" (104 ∷ []) no_entries refl refl refl refl

rpc_unmarshal_req_crash_example :
    ((header a_declaration).method ≡ some "declare_post")
    ⊎ ((header a_declaration).method ≡ some "set_binary")
rpc_unmarshal_req_crash_example =
    rpc_unmarshal_req_crash true 0 a_declaration (ap (λ r. r.0) declare_post_crash_example)

rpc_unmarshal_req_overflow_example :
    ((rpc_unmarshal_req true 0 (map a_message)).0 ≡ overflow) ↔ (1024 < len "publish_post")
unfolding header map_nxt_val
rpc_unmarshal_req_overflow_example =
    rpc_unmarshal_req_overflow true 0 a_message "2.0" "publish_post" 7 refl refl refl refl

rpc_marshal-is_object_example :
    is_object (rpc_marshal owner (new_sub_notif 1 reader)) ≡ is_packable (new_sub_notif 1 reader)
rpc_marshal-is_object_example = rpc_marshal-is_object owner (new_sub_notif 1 reader)

a_post_req-read :
    (rpc_unmarshal_req true 0 (map a_message)).0 ≡ request (writes (publish_post a_post_req))
unfolding carried
a_post_req-read = a_message-read

rpc_unmarshal_req-AreDecodable_example :
    AreDecodable owner (dispatch (env_of owner) "home" (publish_post a_post_req) service).outbox
rpc_unmarshal_req-AreDecodable_example =
    rpc_unmarshal_req-AreDecodable owner (env_of owner) "home" service no_message true 0 a_message
      (publish_post a_post_req) (published a_post_req) a_post_req-read

abbrev unblocked : Db
unblocked = record stored {
  comments =
      update (is_cmt 1 1 1)
        (set_cmt_row_status (cmt_to (env_of reader) cmt_req cmt_available reader)) stored.comments;
}

abbrev unblocked_info : CmtInfo
unblocked_info = record (cmt_to (env_of reader) cmt_req cmt_available reader) { created_at = 5 }

hdl_unblock_cmt_req-rpc_marshal_example :
    (hdl_unblock_cmt_req (env_of reader) "phone" cmt_req service ≡ record service {
      db = unblocked;
      outbox =
          copies (env_of reader) (cmt_upd_notif unblocked_info) ("phone" ∷ "desk" ∷ [])
          ++ copies (env_of reader) (unblock_cmt_resp 13) ("phone" ∷ []);
    })
    × ((o : Obj) → tokens_of o ≢ rpc_marshal owner (cmt_upd_notif unblocked_info))
unfolding db_cmt_exists db_cmt_uid db_set_cmt_status chan_get_by_id row2chan select update has_row
    nodes_of
hdl_unblock_cmt_req-rpc_marshal_example =
    hdl_unblock_cmt_req-rpc_marshal owner (env_of reader) "phone" service cmt_req reader news_chan
      unblocked unblocked_info refl refl refl refl refl refl refl
