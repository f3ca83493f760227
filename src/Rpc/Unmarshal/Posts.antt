-- ===== src/Rpc/Unmarshal/Posts.antt =====
-- src/rpc.c: the requests on posts.
use feeds_service.Prelude.{ℕ, Bool}
use feeds_service.Feeds.Dispatch.{declare_post, delete_post, edit_post, notify_post, publish_post}
use feeds_service.Rpc.Objects.{
  Reader, ◌>>=◌, ◌>>◌, ret, field, deref, zalloc, full_str, full_bin, valid_id, as_bool, na,
  no_thumbnails,
}
use feeds_service.Rpc.Requests.{Req, writes}

unfoldable pub unmarshal_pub_post_req : Bool → ℕ → Reader Req
unmarshal_pub_post_req alloc tsx_id = do
  tk ← full_str "access_token"
  chan_id ← valid_id "channel_id"
  content ← full_bin "content"
  zalloc alloc
  ret (
      writes (
        publish_post (record {
          tsx_id = tsx_id;
          tk = tk;
          chan_id = chan_id;
          content = content;
          thumbnails = no_thumbnails;
          hash_id = na;
          proof = na;
          origin_post_url = na;
        })))

unfoldable pub unmarshal_pub_post_req_2 : Bool → ℕ → Reader Req
unmarshal_pub_post_req_2 alloc tsx_id = do
  tk ← full_str "access_token"
  chan_id ← valid_id "channel_id"
  content ← full_bin "content"
  thumbnails ← full_bin "thumbnails"
  hash_id ← full_str "hash_id"
  proof ← full_str "proof"
  origin_post_url ← full_str "origin_post_url"
  zalloc alloc
  ret (
      writes (
        publish_post (record {
          tsx_id = tsx_id;
          tk = tk;
          chan_id = chan_id;
          content = content;
          thumbnails = thumbnails;
          hash_id = hash_id;
          proof = proof;
          origin_post_url = origin_post_url;
        })))

unfoldable pub unmarshal_declare_post_req : Bool → ℕ → Reader Req
unmarshal_declare_post_req alloc tsx_id = do
  tk ← full_str "access_token"
  chan_id ← valid_id "channel_id"
  content ← full_bin "content"
  with_notify_obj ← field as_bool "with_notify"
  zalloc alloc
  with_notify ← deref with_notify_obj
  ret (
      writes (
        declare_post (record {
          base = record {
            tsx_id = tsx_id;
            tk = tk;
            chan_id = chan_id;
            content = content;
            thumbnails = no_thumbnails;
            hash_id = na;
            proof = na;
            origin_post_url = na;
          };
          with_notify = with_notify;
        })))

unfoldable pub unmarshal_declare_post_req_2 : Bool → ℕ → Reader Req
unmarshal_declare_post_req_2 alloc tsx_id = do
  tk ← full_str "access_token"
  chan_id ← valid_id "channel_id"
  content ← full_bin "content"
  with_notify_obj ← field as_bool "with_notify"
  thumbnails ← full_bin "thumbnails"
  hash_id ← full_str "hash_id"
  proof ← full_str "proof"
  origin_post_url ← full_str "origin_post_url"
  zalloc alloc
  with_notify ← deref with_notify_obj
  ret (
      writes (
        declare_post (record {
          base = record {
            tsx_id = tsx_id;
            tk = tk;
            chan_id = chan_id;
            content = content;
            thumbnails = thumbnails;
            hash_id = hash_id;
            proof = proof;
            origin_post_url = origin_post_url;
          };
          with_notify = with_notify;
        })))

unfoldable pub unmarshal_notify_post_req : Bool → ℕ → Reader Req
unmarshal_notify_post_req alloc tsx_id = do
  tk ← full_str "access_token"
  chan_id ← valid_id "channel_id"
  post_id ← valid_id "post_id"
  zalloc alloc
  ret (
      writes
        (notify_post (record { tsx_id = tsx_id; tk = tk; chan_id = chan_id; post_id = post_id })))

unfoldable pub unmarshal_edit_post_req : Bool → ℕ → Reader Req
unmarshal_edit_post_req alloc tsx_id = do
  tk ← full_str "access_token"
  chan_id ← valid_id "channel_id"
  post_id ← valid_id "id"
  content ← full_bin "content"
  zalloc alloc
  ret (
      writes (
        edit_post (record {
          tsx_id = tsx_id;
          tk = tk;
          chan_id = chan_id;
          post_id = post_id;
          content = content;
          thumbnails = no_thumbnails;
          hash_id = na;
          proof = na;
          origin_post_url = na;
        })))

unfoldable pub unmarshal_edit_post_req_2 : Bool → ℕ → Reader Req
unmarshal_edit_post_req_2 alloc tsx_id = do
  tk ← full_str "access_token"
  chan_id ← valid_id "channel_id"
  post_id ← valid_id "id"
  content ← full_bin "content"
  thumbnails ← full_bin "thumbnails"
  hash_id ← full_str "hash_id"
  proof ← full_str "proof"
  origin_post_url ← full_str "origin_post_url"
  zalloc alloc
  ret (
      writes (
        edit_post (record {
          tsx_id = tsx_id;
          tk = tk;
          chan_id = chan_id;
          post_id = post_id;
          content = content;
          thumbnails = thumbnails;
          hash_id = hash_id;
          proof = proof;
          origin_post_url = origin_post_url;
        })))

unfoldable pub unmarshal_del_post_req : Bool → ℕ → Reader Req
unmarshal_del_post_req alloc tsx_id = do
  tk ← full_str "access_token"
  chan_id ← valid_id "channel_id"
  post_id ← valid_id "id"
  zalloc alloc
  ret (
      writes
        (delete_post (record { tsx_id = tsx_id; tk = tk; chan_id = chan_id; post_id = post_id })))
