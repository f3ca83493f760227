-- ===== src/Rpc/Unmarshal/Comments.antt =====
-- src/rpc.c: the requests on comments, likes and reports.
use feeds_service.Prelude.{ℕ, Bool}
use feeds_service.Feeds.Dispatch.{
  block_comment, delete_comment, edit_comment, post_comment, post_like, post_unlike,
  report_illegal_comment, unblock_comment,
}
use feeds_service.Rpc.Objects.{
  Reader, ◌>>=◌, ◌>>◌, ret, zalloc, full_str, full_bin, given_u64, valid_id, na, no_thumbnails,
}
use feeds_service.Rpc.Requests.{Req, writes}

unfoldable pub unmarshal_post_cmt_req : Bool → ℕ → Reader Req
unmarshal_post_cmt_req alloc tsx_id = do
  tk ← full_str "access_token"
  chan_id ← valid_id "channel_id"
  post_id ← valid_id "post_id"
  cmt_id ← given_u64 "comment_id"
  content ← full_bin "content"
  zalloc alloc
  ret (
      writes (
        post_comment (record {
          tsx_id = tsx_id;
          tk = tk;
          chan_id = chan_id;
          post_id = post_id;
          cmt_id = cmt_id;
          content = content;
          thumbnails = no_thumbnails;
          hash_id = na;
          proof = na;
        })))

unfoldable pub unmarshal_post_cmt_req_2 : Bool → ℕ → Reader Req
unmarshal_post_cmt_req_2 alloc tsx_id = do
  tk ← full_str "access_token"
  chan_id ← valid_id "channel_id"
  post_id ← valid_id "post_id"
  cmt_id ← given_u64 "comment_id"
  content ← full_bin "content"
  thumbnails ← full_bin "thumbnails"
  hash_id ← full_str "hash_id"
  proof ← full_str "proof"
  zalloc alloc
  ret (
      writes (
        post_comment (record {
          tsx_id = tsx_id;
          tk = tk;
          chan_id = chan_id;
          post_id = post_id;
          cmt_id = cmt_id;
          content = content;
          thumbnails = thumbnails;
          hash_id = hash_id;
          proof = proof;
        })))

unfoldable pub unmarshal_edit_cmt_req : Bool → ℕ → Reader Req
unmarshal_edit_cmt_req alloc tsx_id = do
  tk ← full_str "access_token"
  chan_id ← valid_id "channel_id"
  post_id ← valid_id "post_id"
  id ← valid_id "id"
  cmt_id ← given_u64 "comment_id"
  content ← full_bin "content"
  zalloc alloc
  ret (
      writes (
        edit_comment (record {
          tsx_id = tsx_id;
          tk = tk;
          chan_id = chan_id;
          post_id = post_id;
          id = id;
          cmt_id = cmt_id;
          content = content;
          thumbnails = no_thumbnails;
          hash_id = na;
          proof = na;
        })))

unfoldable pub unmarshal_edit_cmt_req_2 : Bool → ℕ → Reader Req
unmarshal_edit_cmt_req_2 alloc tsx_id = do
  tk ← full_str "access_token"
  chan_id ← valid_id "channel_id"
  post_id ← valid_id "post_id"
  id ← valid_id "id"
  cmt_id ← given_u64 "comment_id"
  content ← full_bin "content"
  thumbnails ← full_bin "thumbnails"
  hash_id ← full_str "hash_id"
  proof ← full_str "proof"
  zalloc alloc
  ret (
      writes (
        edit_comment (record {
          tsx_id = tsx_id;
          tk = tk;
          chan_id = chan_id;
          post_id = post_id;
          id = id;
          cmt_id = cmt_id;
          content = content;
          thumbnails = thumbnails;
          hash_id = hash_id;
          proof = proof;
        })))

unfoldable pub unmarshal_del_cmt_req : Bool → ℕ → Reader Req
unmarshal_del_cmt_req alloc tsx_id = do
  tk ← full_str "access_token"
  chan_id ← valid_id "channel_id"
  post_id ← valid_id "post_id"
  cmt_id ← valid_id "id"
  zalloc alloc
  ret (
      writes (
        delete_comment (record {
          tsx_id = tsx_id;
          tk = tk;
          chan_id = chan_id;
          post_id = post_id;
          cmt_id = cmt_id;
        })))

unfoldable pub unmarshal_block_cmt_req : Bool → ℕ → Reader Req
unmarshal_block_cmt_req alloc tsx_id = do
  tk ← full_str "access_token"
  chan_id ← valid_id "channel_id"
  post_id ← valid_id "post_id"
  cmt_id ← valid_id "comment_id"
  zalloc alloc
  ret (
      writes (
        block_comment (record {
          tsx_id = tsx_id;
          tk = tk;
          chan_id = chan_id;
          post_id = post_id;
          cmt_id = cmt_id;
        })))

unfoldable pub unmarshal_unblock_cmt_req : Bool → ℕ → Reader Req
unmarshal_unblock_cmt_req alloc tsx_id = do
  tk ← full_str "access_token"
  chan_id ← valid_id "channel_id"
  post_id ← valid_id "post_id"
  cmt_id ← valid_id "comment_id"
  zalloc alloc
  ret (
      writes (
        unblock_comment (record {
          tsx_id = tsx_id;
          tk = tk;
          chan_id = chan_id;
          post_id = post_id;
          cmt_id = cmt_id;
        })))

unfoldable pub unmarshal_post_like_req : Bool → ℕ → Reader Req
unmarshal_post_like_req alloc tsx_id = do
  tk ← full_str "access_token"
  chan_id ← valid_id "channel_id"
  post_id ← valid_id "post_id"
  cmt_id ← given_u64 "comment_id"
  zalloc alloc
  ret (
      writes (
        post_like (record {
          tsx_id = tsx_id;
          tk = tk;
          chan_id = chan_id;
          post_id = post_id;
          cmt_id = cmt_id;
          proof = na;
        })))

unfoldable pub unmarshal_post_like_req_2 : Bool → ℕ → Reader Req
unmarshal_post_like_req_2 alloc tsx_id = do
  tk ← full_str "access_token"
  chan_id ← valid_id "channel_id"
  post_id ← valid_id "post_id"
  cmt_id ← given_u64 "comment_id"
  proof ← full_str "proof"
  zalloc alloc
  ret (
      writes (
        post_like (record {
          tsx_id = tsx_id;
          tk = tk;
          chan_id = chan_id;
          post_id = post_id;
          cmt_id = cmt_id;
          proof = proof;
        })))

unfoldable pub unmarshal_post_unlike_req : Bool → ℕ → Reader Req
unmarshal_post_unlike_req alloc tsx_id = do
  tk ← full_str "access_token"
  chan_id ← valid_id "channel_id"
  post_id ← valid_id "post_id"
  cmt_id ← given_u64 "comment_id"
  zalloc alloc
  ret (
      writes (
        post_unlike (record {
          tsx_id = tsx_id;
          tk = tk;
          chan_id = chan_id;
          post_id = post_id;
          cmt_id = cmt_id;
          proof = "";
        })))

unfoldable pub unmarshal_report_illegal_cmt_req : Bool → ℕ → Reader Req
unmarshal_report_illegal_cmt_req alloc tsx_id = do
  tk ← full_str "access_token"
  chan_id ← valid_id "channel_id"
  post_id ← valid_id "post_id"
  cmt_id ← given_u64 "comment_id"
  reasons ← full_str "reasons"
  zalloc alloc
  ret (
      writes (
        report_illegal_comment (record {
          tsx_id = tsx_id;
          tk = tk;
          chan_id = chan_id;
          post_id = post_id;
          cmt_id = cmt_id;
          reasons = reasons;
        })))
