-- ===== src/Rpc/Valid.antt =====
-- What the handlers may rely on in a request, and the name of its handler.
use feeds_service.Prelude.{
  ℕ, String, str_eq, ◌≡◌, refl, Bool, true, false, ◌&&◌, ◌||◌, Option, none, some, arith, inl, inr,
}
use feeds_service.Prelude.Tests.{Bool-cases}
use feeds_service.Prelude.Lists.{length}
use feeds_service.Db.Listings.{QryFld}
use feeds_service.Feeds.Dispatch.{
  create_channel, update_feedinfo, update_user_info, publish_post, declare_post, notify_post,
  edit_post, delete_post, post_comment, edit_comment, delete_comment, block_comment,
  unblock_comment, post_like, post_unlike, subscribe_channel, unsubscribe_channel,
  enable_notification, report_illegal_comment,
}
use feeds_service.Rpc.Objects.{
  Obj, Entries, Reader, Parsed, accepted, refused, null_pointer, ensure, ◌>>=◌, ◌>>◌, ret, field,
  checked, deref, zalloc, valid_fld, map_nxt_val, is_full, has_bytes, id_is_valid, qry_fld_is_valid,
  as_u64, to_qry_fld, no_thumbnails,
}
use feeds_service.Rpc.Requests.{
  unnamed_update_user_info, Req, declare_owner, import_did, issue_credential, update_credential,
  signin_request_challenge, signin_confirm_challenge, writes, get_my_channels,
  get_my_channels_metadata, get_channels, get_subscribed_channels, get_liked_posts, get_liked_data,
  get_reported_comments, get_channel_detail, get_posts, get_posts_likes_and_comments, get_comments,
  get_comments_likes, get_statistics, set_binary, get_binary, get_service_version,
}
pub mod Rules

abbrev pub full_if_there : Option String → Bool
full_if_there none = true
full_if_there (some s) = is_full s

-- The strings and byte sequences that the source tests are not empty, and the ids that it tests can
-- have been given out. Not tested are what import_did has, algo, checksum and content of
-- set_binary, the proof of an unlike, which is empty, and the comment's id, 0 for a post, where one
-- may be named.
unfoldable pub is_valid : Req → Bool
is_valid (declare_owner r) = is_full r.nonce && is_full r.owner_did
is_valid (import_did r) = true
is_valid (issue_credential r) = is_full r.vc
is_valid (update_credential r) = is_full r.tk && is_full r.vc
is_valid (signin_request_challenge r) = is_full r.iss
is_valid (signin_confirm_challenge r) = is_full r.jws && full_if_there r.vc
is_valid (writes (create_channel r)) =
    is_full r.tk
    && (is_full r.name
        && (is_full r.intro && (has_bytes r.avatar && (is_full r.tipm && is_full r.proof))))
is_valid (writes (update_user_info r)) =
    is_full r.tk
    && (is_full r.name && (is_full r.email && (is_full r.display_name && has_bytes r.avatar)))
is_valid (unnamed_update_user_info r) =
    is_full r.tk
    && (is_full r.name && (is_full r.email && (is_full r.display_name && has_bytes r.avatar)))
is_valid (writes (update_feedinfo r)) =
    is_full r.tk
    && (id_is_valid r.chan_id
        && (is_full r.name
            && (is_full r.intro && (has_bytes r.avatar && (is_full r.tipm && is_full r.proof)))))
is_valid (writes (subscribe_channel r)) = is_full r.tk && (id_is_valid r.id && is_full r.proof)
is_valid (writes (unsubscribe_channel r)) = is_full r.tk && id_is_valid r.id
is_valid (writes (enable_notification r)) = is_full r.tk
is_valid (writes (publish_post r)) =
    is_full r.tk
    && (id_is_valid r.chan_id
        && (has_bytes r.content
            && (has_bytes r.thumbnails
                && (is_full r.hash_id && (is_full r.proof && is_full r.origin_post_url)))))
is_valid (writes (declare_post r)) =
    is_full r.tk
    && (id_is_valid r.chan_id
        && (has_bytes r.content
            && (has_bytes r.thumbnails
                && (is_full r.hash_id && (is_full r.proof && is_full r.origin_post_url)))))
is_valid (writes (notify_post r)) = is_full r.tk && (id_is_valid r.chan_id && id_is_valid r.post_id)
is_valid (writes (edit_post r)) =
    is_full r.tk
    && (id_is_valid r.chan_id
        && (id_is_valid r.post_id
            && (has_bytes r.content
                && (has_bytes r.thumbnails
                    && (is_full r.hash_id && (is_full r.proof && is_full r.origin_post_url))))))
is_valid (writes (delete_post r)) = is_full r.tk && (id_is_valid r.chan_id && id_is_valid r.post_id)
is_valid (writes (post_comment r)) =
    is_full r.tk
    && (id_is_valid r.chan_id
        && (id_is_valid r.post_id
            && (has_bytes r.content
                && (has_bytes r.thumbnails && (is_full r.hash_id && is_full r.proof)))))
is_valid (writes (edit_comment r)) =
    is_full r.tk
    && (id_is_valid r.chan_id
        && (id_is_valid r.post_id
            && (id_is_valid r.id
                && (has_bytes r.content
                    && (has_bytes r.thumbnails && (is_full r.hash_id && is_full r.proof))))))
is_valid (writes (delete_comment r)) =
    is_full r.tk && (id_is_valid r.chan_id && (id_is_valid r.post_id && id_is_valid r.cmt_id))
is_valid (writes (block_comment r)) =
    is_full r.tk && (id_is_valid r.chan_id && (id_is_valid r.post_id && id_is_valid r.cmt_id))
is_valid (writes (unblock_comment r)) =
    is_full r.tk && (id_is_valid r.chan_id && (id_is_valid r.post_id && id_is_valid r.cmt_id))
is_valid (writes (post_like r)) =
    is_full r.tk && (id_is_valid r.chan_id && (id_is_valid r.post_id && is_full r.proof))
is_valid (writes (post_unlike r)) = is_full r.tk && (id_is_valid r.chan_id && id_is_valid r.post_id)
is_valid (writes (report_illegal_comment r)) =
    is_full r.tk && (id_is_valid r.chan_id && (id_is_valid r.post_id && is_full r.reasons))
is_valid (get_my_channels r) = is_full r.tk
is_valid (get_my_channels_metadata r) = is_full r.tk
is_valid (get_channels r) = is_full r.tk
is_valid (get_channel_detail r) = is_full r.tk && id_is_valid r.id
is_valid (get_subscribed_channels r) = is_full r.tk
is_valid (get_posts r) = is_full r.tk && id_is_valid r.chan_id
is_valid (get_posts_likes_and_comments r) = is_full r.tk && id_is_valid r.chan_id
is_valid (get_liked_posts r) = is_full r.tk
is_valid (get_liked_data r) = is_full r.tk
is_valid (get_comments r) = is_full r.tk && (id_is_valid r.chan_id && id_is_valid r.post_id)
is_valid (get_comments_likes r) = is_full r.tk && (id_is_valid r.chan_id && id_is_valid r.post_id)
is_valid (get_statistics r) = is_full r.tk
is_valid (set_binary r) = is_full r.tk && is_full r.key
is_valid (get_binary r) = is_full r.tk && is_full r.key
is_valid (get_reported_comments r) = is_full r.tk
is_valid (get_service_version tsx_id) = true

-- The name under which the table of handlers has the handler of a request.
unfoldable pub method_of : Req → String
method_of (declare_owner r) = "declare_owner"
method_of (import_did r) = "import_did"
method_of (issue_credential r) = "issue_credential"
method_of (update_credential r) = "update_credential"
method_of (signin_request_challenge r) = "signin_request_challenge"
method_of (signin_confirm_challenge r) = "signin_confirm_challenge"
method_of (writes (create_channel r)) = "create_channel"
method_of (writes (update_user_info r)) = "update_user_info"
method_of (unnamed_update_user_info r) = "update_user_info"
method_of (writes (update_feedinfo r)) = "update_feedinfo"
method_of (writes (subscribe_channel r)) = "subscribe_channel"
method_of (writes (unsubscribe_channel r)) = "unsubscribe_channel"
method_of (writes (enable_notification r)) = "enable_notification"
method_of (writes (publish_post r)) = "publish_post"
method_of (writes (declare_post r)) = "declare_post"
method_of (writes (notify_post r)) = "notify_post"
method_of (writes (edit_post r)) = "edit_post"
method_of (writes (delete_post r)) = "delete_post"
method_of (writes (post_comment r)) = "post_comment"
method_of (writes (edit_comment r)) = "edit_comment"
method_of (writes (delete_comment r)) = "delete_comment"
method_of (writes (block_comment r)) = "block_comment"
method_of (writes (unblock_comment r)) = "unblock_comment"
method_of (writes (post_like r)) = "post_like"
method_of (writes (post_unlike r)) = "post_unlike"
method_of (writes (report_illegal_comment r)) = "report_illegal_comment"
method_of (get_my_channels r) = "get_my_channels"
method_of (get_my_channels_metadata r) = "get_my_channels_metadata"
method_of (get_channels r) = "get_channels"
method_of (get_channel_detail r) = "get_channel_detail"
method_of (get_subscribed_channels r) = "get_subscribed_channels"
method_of (get_posts r) = "get_posts"
method_of (get_posts_likes_and_comments r) = "get_posts_likes_and_comments"
method_of (get_liked_posts r) = "get_liked_posts"
method_of (get_liked_data r) = "get_liked_data"
method_of (get_comments r) = "get_comments"
method_of (get_comments_likes r) = "get_comments_likes"
method_of (get_statistics r) = "get_statistics"
method_of (set_binary r) = "set_binary"
method_of (get_binary r) = "get_binary"
method_of (get_reported_comments r) = "get_reported_comments"
method_of (get_service_version tsx_id) = "get_service_version"

-- The field `method` of the struct, by which src/cmdhandler chooses the handler.
unfoldable pub struct_method : Req → Option String
struct_method (unnamed_update_user_info r) = none
struct_method req = some (method_of req)

pub and_intro : (a b : Bool) → a ≡ true → b ≡ true → (a && b) ≡ true
and_intro true b e f = f
and_intro false b e f = e

pub and_elim : (a : Bool) {b : Bool} → (a && b) ≡ true → (a ≡ true) × (b ≡ true)
and_elim true e = (refl, e)
and_elim false e = grind arith

pub no_thumbnails-has_bytes : has_bytes no_thumbnails ≡ true
unfolding length
no_thumbnails-has_bytes = refl
