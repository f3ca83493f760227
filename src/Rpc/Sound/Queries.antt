-- ===== src/Rpc/Sound/Queries.antt =====
-- src/rpc.c: the requests that read are read soundly.
use feeds_service.Prelude.{ℕ, Bool}
use feeds_service.Rpc.Unmarshal.Queries.{
  unmarshal_get_my_chans_req, unmarshal_get_my_chans_meta_req, unmarshal_get_chans_req,
  unmarshal_get_chan_dtl_req, unmarshal_get_sub_chans_req, unmarshal_get_posts_req,
  unmarshal_get_posts_lac_req, unmarshal_get_liked_posts_req, unmarshal_get_liked_data_req,
  unmarshal_get_cmts_req, unmarshal_get_cmts_likes_req, unmarshal_get_stats_req,
  unmarshal_get_reported_cmts_req,
}
use feeds_service.Rpc.Valid.{is_valid, method_of, struct_method}
use feeds_service.Rpc.Valid.Rules.{IsSound, sound_rules}

module _ (alloc : Bool) (tsx_id : ℕ) where
  pub unmarshal_get_my_chans_req-IsSound :
      IsSound "get_my_channels" (unmarshal_get_my_chans_req alloc tsx_id)
  unfolding unmarshal_get_my_chans_req is_valid method_of struct_method
  unmarshal_get_my_chans_req-IsSound = search sound_rules depth 30

  pub unmarshal_get_my_chans_meta_req-IsSound :
      IsSound "get_my_channels_metadata" (unmarshal_get_my_chans_meta_req alloc tsx_id)
  unfolding unmarshal_get_my_chans_meta_req is_valid method_of struct_method
  unmarshal_get_my_chans_meta_req-IsSound = search sound_rules depth 30

  pub unmarshal_get_chans_req-IsSound :
      IsSound "get_channels" (unmarshal_get_chans_req alloc tsx_id)
  unfolding unmarshal_get_chans_req is_valid method_of struct_method
  unmarshal_get_chans_req-IsSound = search sound_rules depth 30

  pub unmarshal_get_chan_dtl_req-IsSound :
      IsSound "get_channel_detail" (unmarshal_get_chan_dtl_req alloc tsx_id)
  unfolding unmarshal_get_chan_dtl_req is_valid method_of struct_method
  unmarshal_get_chan_dtl_req-IsSound = search sound_rules depth 30

  pub unmarshal_get_sub_chans_req-IsSound :
      IsSound "get_subscribed_channels" (unmarshal_get_sub_chans_req alloc tsx_id)
  unfolding unmarshal_get_sub_chans_req is_valid method_of struct_method
  unmarshal_get_sub_chans_req-IsSound = search sound_rules depth 30

  pub unmarshal_get_posts_req-IsSound : IsSound "get_posts" (unmarshal_get_posts_req alloc tsx_id)
  unfolding unmarshal_get_posts_req is_valid method_of struct_method
  unmarshal_get_posts_req-IsSound = search sound_rules depth 30

  pub unmarshal_get_posts_lac_req-IsSound :
      IsSound "get_posts_likes_and_comments" (unmarshal_get_posts_lac_req alloc tsx_id)
  unfolding unmarshal_get_posts_lac_req is_valid method_of struct_method
  unmarshal_get_posts_lac_req-IsSound = search sound_rules depth 30

  pub unmarshal_get_liked_posts_req-IsSound :
      IsSound "get_liked_posts" (unmarshal_get_liked_posts_req alloc tsx_id)
  unfolding unmarshal_get_liked_posts_req is_valid method_of struct_method
  unmarshal_get_liked_posts_req-IsSound = search sound_rules depth 30

  pub unmarshal_get_liked_data_req-IsSound :
      IsSound "get_liked_data" (unmarshal_get_liked_data_req alloc tsx_id)
  unfolding unmarshal_get_liked_data_req is_valid method_of struct_method
  unmarshal_get_liked_data_req-IsSound = search sound_rules depth 30

  pub unmarshal_get_cmts_req-IsSound : IsSound "get_comments" (unmarshal_get_cmts_req alloc tsx_id)
  unfolding unmarshal_get_cmts_req is_valid method_of struct_method
  unmarshal_get_cmts_req-IsSound = search sound_rules depth 30

  pub unmarshal_get_cmts_likes_req-IsSound :
      IsSound "get_comments_likes" (unmarshal_get_cmts_likes_req alloc tsx_id)
  unfolding unmarshal_get_cmts_likes_req is_valid method_of struct_method
  unmarshal_get_cmts_likes_req-IsSound = search sound_rules depth 30

  pub unmarshal_get_stats_req-IsSound :
      IsSound "get_statistics" (unmarshal_get_stats_req alloc tsx_id)
  unfolding unmarshal_get_stats_req is_valid method_of struct_method
  unmarshal_get_stats_req-IsSound = search sound_rules depth 30

  pub unmarshal_get_reported_cmts_req-IsSound :
      IsSound "get_reported_comments" (unmarshal_get_reported_cmts_req alloc tsx_id)
  unfolding unmarshal_get_reported_cmts_req is_valid method_of struct_method
  unmarshal_get_reported_cmts_req-IsSound = search sound_rules depth 30
