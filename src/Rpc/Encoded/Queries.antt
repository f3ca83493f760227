-- ===== src/Rpc/Encoded/Queries.antt =====
-- src/rpc.c: the requests that read are read from their encodings.
use feeds_service.Prelude.{◌≡◌, true}
use feeds_service.Rpc.Requests.{
  get_channel_detail, get_channels, get_comments, get_comments_likes, get_liked_data,
  get_liked_posts, get_my_channels, get_my_channels_metadata, get_posts,
  get_posts_likes_and_comments, get_reported_comments, get_statistics, get_subscribed_channels,
}
use feeds_service.Feeds.Reads.Comments.{GetCmtsReq}
use feeds_service.Feeds.Reads.Defs.{GetChansReq, GetPostsReq}
use feeds_service.Rpc.Requests.{ChanIdReq, TkReq}
use feeds_service.Rpc.Unmarshal.Queries.{
  unmarshal_get_my_chans_req, unmarshal_get_my_chans_meta_req, unmarshal_get_chans_req,
  unmarshal_get_chan_dtl_req, unmarshal_get_sub_chans_req, unmarshal_get_posts_req,
  unmarshal_get_posts_lac_req, unmarshal_get_liked_posts_req, unmarshal_get_liked_data_req,
  unmarshal_get_cmts_req, unmarshal_get_cmts_likes_req, unmarshal_get_stats_req,
  unmarshal_get_reported_cmts_req,
}
use feeds_service.Rpc.Valid.{is_valid, and_elim}
use feeds_service.Rpc.Objects.{is_full, id_is_valid}
use feeds_service.Rpc.Encoded.{tsx_id_of, params_of, carried}
use feeds_service.Rpc.Encoded.Rules.{Reads, read_rules}

pub unmarshal_get_my_chans_req-Reads :
    (r : GetChansReq)
    → is_valid (get_my_channels r) ≡ true
    → Reads
        (unmarshal_get_my_chans_req true (tsx_id_of (get_my_channels r)))
        (params_of (get_my_channels r))
        (carried (get_my_channels r))
unfolding is_valid tsx_id_of params_of carried unmarshal_get_my_chans_req
unmarshal_get_my_chans_req-Reads r valid = search read_rules depth 40

pub unmarshal_get_my_chans_meta_req-Reads :
    (r : GetChansReq)
    → is_valid (get_my_channels_metadata r) ≡ true
    → Reads
        (unmarshal_get_my_chans_meta_req true (tsx_id_of (get_my_channels_metadata r)))
        (params_of (get_my_channels_metadata r))
        (carried (get_my_channels_metadata r))
unfolding is_valid tsx_id_of params_of carried unmarshal_get_my_chans_meta_req
unmarshal_get_my_chans_meta_req-Reads r valid = search read_rules depth 40

pub unmarshal_get_chans_req-Reads :
    (r : GetChansReq)
    → is_valid (get_channels r) ≡ true
    → Reads
        (unmarshal_get_chans_req true (tsx_id_of (get_channels r)))
        (params_of (get_channels r))
        (carried (get_channels r))
unfolding is_valid tsx_id_of params_of carried unmarshal_get_chans_req
unmarshal_get_chans_req-Reads r valid = search read_rules depth 40

pub unmarshal_get_chan_dtl_req-Reads :
    (r : ChanIdReq)
    → is_valid (get_channel_detail r) ≡ true
    → Reads
        (unmarshal_get_chan_dtl_req true (tsx_id_of (get_channel_detail r)))
        (params_of (get_channel_detail r))
        (carried (get_channel_detail r))
unfolding is_valid tsx_id_of params_of carried unmarshal_get_chan_dtl_req
unmarshal_get_chan_dtl_req-Reads r valid =
    let (v1, last) = and_elim (is_full r.tk) valid in search read_rules depth 40

pub unmarshal_get_sub_chans_req-Reads :
    (r : GetChansReq)
    → is_valid (get_subscribed_channels r) ≡ true
    → Reads
        (unmarshal_get_sub_chans_req true (tsx_id_of (get_subscribed_channels r)))
        (params_of (get_subscribed_channels r))
        (carried (get_subscribed_channels r))
unfolding is_valid tsx_id_of params_of carried unmarshal_get_sub_chans_req
unmarshal_get_sub_chans_req-Reads r valid = search read_rules depth 40

pub unmarshal_get_posts_req-Reads :
    (r : GetPostsReq)
    → is_valid (get_posts r) ≡ true
    → Reads
        (unmarshal_get_posts_req true (tsx_id_of (get_posts r)))
        (params_of (get_posts r))
        (carried (get_posts r))
unfolding is_valid tsx_id_of params_of carried unmarshal_get_posts_req
unmarshal_get_posts_req-Reads r valid =
    let (v1, last) = and_elim (is_full r.tk) valid in search read_rules depth 40

pub unmarshal_get_posts_lac_req-Reads :
    (r : GetPostsReq)
    → is_valid (get_posts_likes_and_comments r) ≡ true
    → Reads
        (unmarshal_get_posts_lac_req true (tsx_id_of (get_posts_likes_and_comments r)))
        (params_of (get_posts_likes_and_comments r))
        (carried (get_posts_likes_and_comments r))
unfolding is_valid tsx_id_of params_of carried unmarshal_get_posts_lac_req
unmarshal_get_posts_lac_req-Reads r valid =
    let (v1, last) = and_elim (is_full r.tk) valid in search read_rules depth 40

pub unmarshal_get_liked_posts_req-Reads :
    (r : GetChansReq)
    → is_valid (get_liked_posts r) ≡ true
    → Reads
        (unmarshal_get_liked_posts_req true (tsx_id_of (get_liked_posts r)))
        (params_of (get_liked_posts r))
        (carried (get_liked_posts r))
unfolding is_valid tsx_id_of params_of carried unmarshal_get_liked_posts_req
unmarshal_get_liked_posts_req-Reads r valid = search read_rules depth 40

pub unmarshal_get_liked_data_req-Reads :
    (r : GetChansReq)
    → is_valid (get_liked_data r) ≡ true
    → Reads
        (unmarshal_get_liked_data_req true (tsx_id_of (get_liked_data r)))
        (params_of (get_liked_data r))
        (carried (get_liked_data r))
unfolding is_valid tsx_id_of params_of carried unmarshal_get_liked_data_req
unmarshal_get_liked_data_req-Reads r valid = search read_rules depth 40

pub unmarshal_get_cmts_req-Reads :
    (r : GetCmtsReq)
    → is_valid (get_comments r) ≡ true
    → Reads
        (unmarshal_get_cmts_req true (tsx_id_of (get_comments r)))
        (params_of (get_comments r))
        (carried (get_comments r))
unfolding is_valid tsx_id_of params_of carried unmarshal_get_cmts_req
unmarshal_get_cmts_req-Reads r valid =
    let (v1, rest1) = and_elim (is_full r.tk) valid in
    let (v2, last) = and_elim (id_is_valid r.chan_id) rest1 in search read_rules depth 40

pub unmarshal_get_cmts_likes_req-Reads :
    (r : GetCmtsReq)
    → is_valid (get_comments_likes r) ≡ true
    → Reads
        (unmarshal_get_cmts_likes_req true (tsx_id_of (get_comments_likes r)))
        (params_of (get_comments_likes r))
        (carried (get_comments_likes r))
unfolding is_valid tsx_id_of params_of carried unmarshal_get_cmts_likes_req
unmarshal_get_cmts_likes_req-Reads r valid =
    let (v1, rest1) = and_elim (is_full r.tk) valid in
    let (v2, last) = and_elim (id_is_valid r.chan_id) rest1 in search read_rules depth 40

pub unmarshal_get_stats_req-Reads :
    (r : TkReq)
    → is_valid (get_statistics r) ≡ true
    → Reads
        (unmarshal_get_stats_req true (tsx_id_of (get_statistics r)))
        (params_of (get_statistics r))
        (carried (get_statistics r))
unfolding is_valid tsx_id_of params_of carried unmarshal_get_stats_req
unmarshal_get_stats_req-Reads r valid = search read_rules depth 40

pub unmarshal_get_reported_cmts_req-Reads :
    (r : GetChansReq)
    → is_valid (get_reported_comments r) ≡ true
    → Reads
        (unmarshal_get_reported_cmts_req true (tsx_id_of (get_reported_comments r)))
        (params_of (get_reported_comments r))
        (carried (get_reported_comments r))
unfolding is_valid tsx_id_of params_of carried unmarshal_get_reported_cmts_req
unmarshal_get_reported_cmts_req-Reads r valid = search read_rules depth 40
