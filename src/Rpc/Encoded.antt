-- ===== src/Rpc/Encoded.antt =====
-- The encoding of a request of version 2.0: the fields in the order in which src/rpc.c reads them.
use feeds_service.Prelude.{ℕ, String, Option, none, some}
use feeds_service.Db.Listings.{QryCriteria, QryFld, by_none, by_id, by_upd_at, by_created_at}
use feeds_service.Feeds.Dispatch.{
  create_channel, update_feedinfo, update_user_info, publish_post, declare_post, notify_post,
  edit_post, delete_post, post_comment, edit_comment, delete_comment, block_comment,
  unblock_comment, post_like, post_unlike, subscribe_channel, unsubscribe_channel,
  enable_notification, report_illegal_comment,
}
use feeds_service.Rpc.Objects.{Obj, str, u64, bin, boolean, map, Entries, no_entries, entry}
use feeds_service.Rpc.Requests.{
  unnamed_update_user_info, Req, declare_owner, import_did, issue_credential, update_credential,
  signin_request_challenge, signin_confirm_challenge, writes, get_my_channels,
  get_my_channels_metadata, get_channels, get_subscribed_channels, get_liked_posts, get_liked_data,
  get_reported_comments, get_channel_detail, get_posts, get_posts_likes_and_comments, get_comments,
  get_comments_likes, get_statistics, set_binary, get_binary, get_service_version,
}
use feeds_service.Rpc.Valid.{method_of}
pub mod Rules
pub mod Accounts
pub mod Channels
pub mod Posts
pub mod Comments
pub mod Queries

abbrev pub of_qry_fld : QryFld → ℕ
of_qry_fld by_none = 0
of_qry_fld by_id = 1
of_qry_fld by_upd_at = 2
of_qry_fld by_created_at = 3

-- A field that is left out when it is not given.
abbrev pub given : String → Option String → Entries → Entries
given key none rest = rest
given key (some s) rest = entry (str key) (str s) rest

abbrev pub criteria : QryCriteria → Entries
criteria qc = entry (str "by") (u64 (of_qry_fld qc.by)) (
    entry (str "upper_bound") (u64 qc.upper) (
      entry (str "lower_bound") (u64 qc.lower)
        (entry (str "max_count") (u64 qc.maxcnt) no_entries)))

unfoldable pub tsx_id_of : Req → ℕ
tsx_id_of (declare_owner r) = r.tsx_id
tsx_id_of (import_did r) = r.tsx_id
tsx_id_of (issue_credential r) = r.tsx_id
tsx_id_of (update_credential r) = r.tsx_id
tsx_id_of (signin_request_challenge r) = r.tsx_id
tsx_id_of (signin_confirm_challenge r) = r.tsx_id
tsx_id_of (writes (create_channel r)) = r.tsx_id
tsx_id_of (writes (update_feedinfo r)) = r.tsx_id
tsx_id_of (writes (update_user_info r)) = r.tsx_id
tsx_id_of (unnamed_update_user_info r) = r.tsx_id
tsx_id_of (writes (publish_post r)) = r.tsx_id
tsx_id_of (writes (declare_post r)) = r.base.tsx_id
tsx_id_of (writes (notify_post r)) = r.tsx_id
tsx_id_of (writes (edit_post r)) = r.tsx_id
tsx_id_of (writes (delete_post r)) = r.tsx_id
tsx_id_of (writes (post_comment r)) = r.tsx_id
tsx_id_of (writes (edit_comment r)) = r.tsx_id
tsx_id_of (writes (delete_comment r)) = r.tsx_id
tsx_id_of (writes (block_comment r)) = r.tsx_id
tsx_id_of (writes (unblock_comment r)) = r.tsx_id
tsx_id_of (writes (post_like r)) = r.tsx_id
tsx_id_of (writes (post_unlike r)) = r.tsx_id
tsx_id_of (get_my_channels r) = r.tsx_id
tsx_id_of (get_my_channels_metadata r) = r.tsx_id
tsx_id_of (get_channels r) = r.tsx_id
tsx_id_of (get_channel_detail r) = r.tsx_id
tsx_id_of (get_subscribed_channels r) = r.tsx_id
tsx_id_of (get_posts r) = r.tsx_id
tsx_id_of (get_posts_likes_and_comments r) = r.tsx_id
tsx_id_of (get_liked_posts r) = r.tsx_id
tsx_id_of (get_liked_data r) = r.tsx_id
tsx_id_of (get_comments r) = r.tsx_id
tsx_id_of (get_comments_likes r) = r.tsx_id
tsx_id_of (get_statistics r) = r.tsx_id
tsx_id_of (writes (subscribe_channel r)) = r.tsx_id
tsx_id_of (writes (unsubscribe_channel r)) = r.tsx_id
tsx_id_of (writes (enable_notification r)) = r.tsx_id
tsx_id_of (set_binary r) = r.tsx_id
tsx_id_of (get_binary r) = r.tsx_id
tsx_id_of (get_service_version tsx_id) = tsx_id
tsx_id_of (writes (report_illegal_comment r)) = r.tsx_id
tsx_id_of (get_reported_comments r) = r.tsx_id

unfoldable pub params_of : Req → Entries
params_of (declare_owner r) =
    entry (str "nonce") (str r.nonce) (entry (str "owner_did") (str r.owner_did) no_entries)
params_of (import_did r) =
    given "mnemonic" r.mnemo
      (given "passphrase" r.passphrase (entry (str "index") (u64 r.idx) no_entries))
params_of (issue_credential r) = entry (str "credential") (str r.vc) no_entries
params_of (update_credential r) =
    entry (str "access_token") (str r.tk) (entry (str "credential") (str r.vc) no_entries)
params_of (signin_request_challenge r) =
    entry (str "iss") (str r.iss) (entry (str "credential_required") (boolean r.vc_req) no_entries)
params_of (signin_confirm_challenge r) =
    entry (str "jws") (str r.jws) (given "credential" r.vc no_entries)
params_of (writes (create_channel r)) = entry (str "access_token") (str r.tk) (
    entry (str "name") (str r.name) (
      entry (str "introduction") (str r.intro) (
        entry (str "avatar") (bin r.avatar)
          (entry (str "tip_methods") (str r.tipm) (entry (str "proof") (str r.proof) no_entries)))))
params_of (writes (update_feedinfo r)) = entry (str "access_token") (str r.tk) (
    entry (str "id") (u64 r.chan_id) (
      entry (str "name") (str r.name) (
        entry (str "introduction") (str r.intro) (
          entry (str "avatar") (bin r.avatar) (
            entry (str "tip_methods") (str r.tipm)
              (entry (str "proof") (str r.proof) no_entries))))))
params_of (writes (update_user_info r)) = entry (str "access_token") (str r.tk) (
    entry (str "name") (str r.name) (
      entry (str "email") (str r.email) (
        entry (str "display_name") (str r.display_name)
          (entry (str "avatar") (bin r.avatar) no_entries))))
params_of (unnamed_update_user_info r) = entry (str "access_token") (str r.tk) (
    entry (str "name") (str r.name) (
      entry (str "email") (str r.email) (
        entry (str "display_name") (str r.display_name)
          (entry (str "avatar") (bin r.avatar) no_entries))))
params_of (writes (publish_post r)) = entry (str "access_token") (str r.tk) (
    entry (str "channel_id") (u64 r.chan_id) (
      entry (str "content") (bin r.content) (
        entry (str "thumbnails") (bin r.thumbnails) (
          entry (str "hash_id") (str r.hash_id) (
            entry (str "proof") (str r.proof)
              (entry (str "origin_post_url") (str r.origin_post_url) no_entries))))))
params_of (writes (declare_post r)) = entry (str "access_token") (str r.base.tk) (
    entry (str "channel_id") (u64 r.base.chan_id) (
      entry (str "content") (bin r.base.content) (
        entry (str "with_notify") (boolean r.with_notify) (
          entry (str "thumbnails") (bin r.base.thumbnails) (
            entry (str "hash_id") (str r.base.hash_id) (
              entry (str "proof") (str r.base.proof)
                (entry (str "origin_post_url") (str r.base.origin_post_url) no_entries)))))))
params_of (writes (notify_post r)) =
    entry (str "access_token") (str r.tk)
      (entry (str "channel_id") (u64 r.chan_id) (entry (str "post_id") (u64 r.post_id) no_entries))
params_of (writes (edit_post r)) = entry (str "access_token") (str r.tk) (
    entry (str "channel_id") (u64 r.chan_id) (
      entry (str "id") (u64 r.post_id) (
        entry (str "content") (bin r.content) (
          entry (str "thumbnails") (bin r.thumbnails) (
            entry (str "hash_id") (str r.hash_id) (
              entry (str "proof") (str r.proof)
                (entry (str "origin_post_url") (str r.origin_post_url) no_entries)))))))
params_of (writes (delete_post r)) =
    entry (str "access_token") (str r.tk)
      (entry (str "channel_id") (u64 r.chan_id) (entry (str "id") (u64 r.post_id) no_entries))
params_of (writes (post_comment r)) = entry (str "access_token") (str r.tk) (
    entry (str "channel_id") (u64 r.chan_id) (
      entry (str "post_id") (u64 r.post_id) (
        entry (str "comment_id") (u64 r.cmt_id) (
          entry (str "content") (bin r.content) (
            entry (str "thumbnails") (bin r.thumbnails) (
              entry (str "hash_id") (str r.hash_id)
                (entry (str "proof") (str r.proof) no_entries)))))))
params_of (writes (edit_comment r)) = entry (str "access_token") (str r.tk) (
    entry (str "channel_id") (u64 r.chan_id) (
      entry (str "post_id") (u64 r.post_id) (
        entry (str "id") (u64 r.id) (
          entry (str "comment_id") (u64 r.cmt_id) (
            entry (str "content") (bin r.content) (
              entry (str "thumbnails") (bin r.thumbnails) (
                entry (str "hash_id") (str r.hash_id)
                  (entry (str "proof") (str r.proof) no_entries))))))))
params_of (writes (delete_comment r)) = entry (str "access_token") (str r.tk) (
    entry (str "channel_id") (u64 r.chan_id)
      (entry (str "post_id") (u64 r.post_id) (entry (str "id") (u64 r.cmt_id) no_entries)))
params_of (writes (block_comment r)) = entry (str "access_token") (str r.tk) (
    entry (str "channel_id") (u64 r.chan_id)
      (entry (str "post_id") (u64 r.post_id) (entry (str "comment_id") (u64 r.cmt_id) no_entries)))
params_of (writes (unblock_comment r)) = entry (str "access_token") (str r.tk) (
    entry (str "channel_id") (u64 r.chan_id)
      (entry (str "post_id") (u64 r.post_id) (entry (str "comment_id") (u64 r.cmt_id) no_entries)))
params_of (writes (post_like r)) = entry (str "access_token") (str r.tk) (
    entry (str "channel_id") (u64 r.chan_id) (
      entry (str "post_id") (u64 r.post_id)
        (entry (str "comment_id") (u64 r.cmt_id) (entry (str "proof") (str r.proof) no_entries))))
params_of (writes (post_unlike r)) = entry (str "access_token") (str r.tk) (
    entry (str "channel_id") (u64 r.chan_id)
      (entry (str "post_id") (u64 r.post_id) (entry (str "comment_id") (u64 r.cmt_id) no_entries)))
params_of (get_my_channels r) = entry (str "access_token") (str r.tk) (criteria r.qc)
params_of (get_my_channels_metadata r) = entry (str "access_token") (str r.tk) (criteria r.qc)
params_of (get_channels r) = entry (str "access_token") (str r.tk) (criteria r.qc)
params_of (get_channel_detail r) =
    entry (str "access_token") (str r.tk) (entry (str "id") (u64 r.id) no_entries)
params_of (get_subscribed_channels r) = entry (str "access_token") (str r.tk) (criteria r.qc)
params_of (get_posts r) =
    entry (str "access_token") (str r.tk) (entry (str "channel_id") (u64 r.chan_id) (criteria r.qc))
params_of (get_posts_likes_and_comments r) =
    entry (str "access_token") (str r.tk) (entry (str "channel_id") (u64 r.chan_id) (criteria r.qc))
params_of (get_liked_posts r) = entry (str "access_token") (str r.tk) (criteria r.qc)
params_of (get_liked_data r) = entry (str "access_token") (str r.tk) (criteria r.qc)
params_of (get_comments r) = entry (str "access_token") (str r.tk) (
    entry (str "channel_id") (u64 r.chan_id)
      (entry (str "post_id") (u64 r.post_id) (criteria r.qc)))
params_of (get_comments_likes r) = entry (str "access_token") (str r.tk) (
    entry (str "channel_id") (u64 r.chan_id)
      (entry (str "post_id") (u64 r.post_id) (criteria r.qc)))
params_of (get_statistics r) = entry (str "access_token") (str r.tk) no_entries
params_of (writes (subscribe_channel r)) =
    entry (str "access_token") (str r.tk)
      (entry (str "id") (u64 r.id) (entry (str "proof") (str r.proof) no_entries))
params_of (writes (unsubscribe_channel r)) =
    entry (str "access_token") (str r.tk) (entry (str "id") (u64 r.id) no_entries)
params_of (writes (enable_notification r)) = entry (str "access_token") (str r.tk) no_entries
params_of (set_binary r) = entry (str "access_token") (str r.tk) (
    entry (str "key") (str r.key) (
      entry (str "algo") (str r.algo) (
        entry (str "checksum") (str r.checksum)
          (entry (str "content") (bin r.content) no_entries))))
params_of (get_binary r) =
    entry (str "access_token") (str r.tk) (entry (str "key") (str r.key) no_entries)
params_of (get_service_version tsx_id) = no_entries
params_of (writes (report_illegal_comment r)) = entry (str "access_token") (str r.tk) (
    entry (str "channel_id") (u64 r.chan_id) (
      entry (str "post_id") (u64 r.post_id) (
        entry (str "comment_id") (u64 r.cmt_id)
          (entry (str "reasons") (str r.reasons) no_entries))))
params_of (get_reported_comments r) = entry (str "access_token") (str r.tk) (criteria r.qc)

abbrev pub message : String → String → ℕ → Entries → Entries
message version method tsx_id params = entry (str "version") (str version) (
    entry (str "method") (str method)
      (entry (str "id") (u64 tsx_id) (entry (str "params") (map params) no_entries)))

unfoldable pub encode : Req → Obj
encode req = map (message "2.0" (method_of req) (tsx_id_of req) (params_of req))

-- What a message carries: the struct of an unlike has a proof that is in no message, and that of an
-- update of the user gets no method.
unfoldable pub carried : Req → Req
carried (writes (post_unlike r)) = writes (
    post_unlike (record {
      tsx_id = r.tsx_id;
      tk = r.tk;
      chan_id = r.chan_id;
      post_id = r.post_id;
      cmt_id = r.cmt_id;
      proof = "";
    }))
carried (writes (update_user_info r)) = unnamed_update_user_info r
carried req = req
