-- ===== src/Rpc/Unmarshal/Queries.antt =====
-- src/rpc.c: the requests that read.
use feeds_service.Prelude.{ℕ, Bool}
use feeds_service.Rpc.Objects.{
  Reader, ◌>>=◌, ◌>>◌, ret, zalloc, full_str, given_u64, valid_id, valid_fld,
}
use feeds_service.Rpc.Requests.{
  Req, get_channel_detail, get_channels, get_comments, get_comments_likes, get_liked_data,
  get_liked_posts, get_my_channels, get_my_channels_metadata, get_posts,
  get_posts_likes_and_comments, get_reported_comments, get_statistics, get_subscribed_channels,
}

unfoldable pub unmarshal_get_my_chans_req : Bool → ℕ → Reader Req
unmarshal_get_my_chans_req alloc tsx_id = do
  tk ← full_str "access_token"
  by ← valid_fld "by"
  upper ← given_u64 "upper_bound"
  lower ← given_u64 "lower_bound"
  maxcnt ← given_u64 "max_count"
  zalloc alloc
  ret (
      get_my_channels (record {
        tsx_id = tsx_id;
        tk = tk;
        qc = record { by = by; upper = upper; lower = lower; maxcnt = maxcnt };
      }))

unfoldable pub unmarshal_get_my_chans_meta_req : Bool → ℕ → Reader Req
unmarshal_get_my_chans_meta_req alloc tsx_id = do
  tk ← full_str "access_token"
  by ← valid_fld "by"
  upper ← given_u64 "upper_bound"
  lower ← given_u64 "lower_bound"
  maxcnt ← given_u64 "max_count"
  zalloc alloc
  ret (
      get_my_channels_metadata (record {
        tsx_id = tsx_id;
        tk = tk;
        qc = record { by = by; upper = upper; lower = lower; maxcnt = maxcnt };
      }))

unfoldable pub unmarshal_get_chans_req : Bool → ℕ → Reader Req
unmarshal_get_chans_req alloc tsx_id = do
  tk ← full_str "access_token"
  by ← valid_fld "by"
  upper ← given_u64 "upper_bound"
  lower ← given_u64 "lower_bound"
  maxcnt ← given_u64 "max_count"
  zalloc alloc
  ret (
      get_channels (record {
        tsx_id = tsx_id;
        tk = tk;
        qc = record { by = by; upper = upper; lower = lower; maxcnt = maxcnt };
      }))

unfoldable pub unmarshal_get_chan_dtl_req : Bool → ℕ → Reader Req
unmarshal_get_chan_dtl_req alloc tsx_id = do
  tk ← full_str "access_token"
  id ← valid_id "id"
  zalloc alloc
  ret (get_channel_detail (record { tsx_id = tsx_id; tk = tk; id = id }))

unfoldable pub unmarshal_get_sub_chans_req : Bool → ℕ → Reader Req
unmarshal_get_sub_chans_req alloc tsx_id = do
  tk ← full_str "access_token"
  by ← valid_fld "by"
  upper ← given_u64 "upper_bound"
  lower ← given_u64 "lower_bound"
  maxcnt ← given_u64 "max_count"
  zalloc alloc
  ret (
      get_subscribed_channels (record {
        tsx_id = tsx_id;
        tk = tk;
        qc = record { by = by; upper = upper; lower = lower; maxcnt = maxcnt };
      }))

unfoldable pub unmarshal_get_posts_req : Bool → ℕ → Reader Req
unmarshal_get_posts_req alloc tsx_id = do
  tk ← full_str "access_token"
  chan_id ← valid_id "channel_id"
  by ← valid_fld "by"
  upper ← given_u64 "upper_bound"
  lower ← given_u64 "lower_bound"
  maxcnt ← given_u64 "max_count"
  zalloc alloc
  ret (
      get_posts (record {
        tsx_id = tsx_id;
        tk = tk;
        chan_id = chan_id;
        qc = record { by = by; upper = upper; lower = lower; maxcnt = maxcnt };
      }))

unfoldable pub unmarshal_get_posts_lac_req : Bool → ℕ → Reader Req
unmarshal_get_posts_lac_req alloc tsx_id = do
  tk ← full_str "access_token"
  chan_id ← valid_id "channel_id"
  by ← valid_fld "by"
  upper ← given_u64 "upper_bound"
  lower ← given_u64 "lower_bound"
  maxcnt ← given_u64 "max_count"
  zalloc alloc
  ret (
      get_posts_likes_and_comments (record {
        tsx_id = tsx_id;
        tk = tk;
        chan_id = chan_id;
        qc = record { by = by; upper = upper; lower = lower; maxcnt = maxcnt };
      }))

unfoldable pub unmarshal_get_liked_posts_req : Bool → ℕ → Reader Req
unmarshal_get_liked_posts_req alloc tsx_id = do
  tk ← full_str "access_token"
  by ← valid_fld "by"
  upper ← given_u64 "upper_bound"
  lower ← given_u64 "lower_bound"
  maxcnt ← given_u64 "max_count"
  zalloc alloc
  ret (
      get_liked_posts (record {
        tsx_id = tsx_id;
        tk = tk;
        qc = record { by = by; upper = upper; lower = lower; maxcnt = maxcnt };
      }))

unfoldable pub unmarshal_get_liked_data_req : Bool → ℕ → Reader Req
unmarshal_get_liked_data_req alloc tsx_id = do
  tk ← full_str "access_token"
  by ← valid_fld "by"
  upper ← given_u64 "upper_bound"
  lower ← given_u64 "lower_bound"
  maxcnt ← given_u64 "max_count"
  zalloc alloc
  ret (
      get_liked_data (record {
        tsx_id = tsx_id;
        tk = tk;
        qc = record { by = by; upper = upper; lower = lower; maxcnt = maxcnt };
      }))

unfoldable pub unmarshal_get_cmts_req : Bool → ℕ → Reader Req
unmarshal_get_cmts_req alloc tsx_id = do
  tk ← full_str "access_token"
  chan_id ← valid_id "channel_id"
  post_id ← valid_id "post_id"
  by ← valid_fld "by"
  upper ← given_u64 "upper_bound"
  lower ← given_u64 "lower_bound"
  maxcnt ← given_u64 "max_count"
  zalloc alloc
  ret (
      get_comments (record {
        tsx_id = tsx_id;
        tk = tk;
        chan_id = chan_id;
        post_id = post_id;
        qc = record { by = by; upper = upper; lower = lower; maxcnt = maxcnt };
      }))

unfoldable pub unmarshal_get_cmts_likes_req : Bool → ℕ → Reader Req
unmarshal_get_cmts_likes_req alloc tsx_id = do
  tk ← full_str "access_token"
  chan_id ← valid_id "channel_id"
  post_id ← valid_id "post_id"
  by ← valid_fld "by"
  upper ← given_u64 "upper_bound"
  lower ← given_u64 "lower_bound"
  maxcnt ← given_u64 "max_count"
  zalloc alloc
  ret (
      get_comments_likes (record {
        tsx_id = tsx_id;
        tk = tk;
        chan_id = chan_id;
        post_id = post_id;
        qc = record { by = by; upper = upper; lower = lower; maxcnt = maxcnt };
      }))

unfoldable pub unmarshal_get_stats_req : Bool → ℕ → Reader Req
unmarshal_get_stats_req alloc tsx_id = do
  tk ← full_str "access_token"
  zalloc alloc
  ret (get_statistics (record { tsx_id = tsx_id; tk = tk }))

unfoldable pub unmarshal_get_reported_cmts_req : Bool → ℕ → Reader Req
unmarshal_get_reported_cmts_req alloc tsx_id = do
  tk ← full_str "access_token"
  by ← valid_fld "by"
  upper ← given_u64 "upper_bound"
  lower ← given_u64 "lower_bound"
  maxcnt ← given_u64 "max_count"
  zalloc alloc
  ret (
      get_reported_comments (record {
        tsx_id = tsx_id;
        tk = tk;
        qc = record { by = by; upper = upper; lower = lower; maxcnt = maxcnt };
      }))
