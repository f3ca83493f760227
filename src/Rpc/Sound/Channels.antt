-- ===== src/Rpc/Sound/Channels.antt =====
-- src/rpc.c: the requests on channels, users and subscriptions are read soundly.
use feeds_service.Prelude.{ℕ, Bool}
use feeds_service.Rpc.Unmarshal.Channels.{
  unmarshal_create_chan_req, unmarshal_create_chan_req_2, unmarshal_upd_user_info_req,
  unmarshal_upd_chan_req, unmarshal_upd_chan_req_2, unmarshal_sub_chan_req,
  unmarshal_sub_chan_req_2, unmarshal_unsub_chan_req, unmarshal_enbl_notif_req,
}
use feeds_service.Rpc.Valid.{is_valid, method_of, struct_method}
use feeds_service.Rpc.Valid.Rules.{IsSound, sound_rules}

module _ (alloc : Bool) (tsx_id : ℕ) where
  pub unmarshal_create_chan_req-IsSound :
      IsSound "create_channel" (unmarshal_create_chan_req alloc tsx_id)
  unfolding unmarshal_create_chan_req is_valid method_of struct_method
  unmarshal_create_chan_req-IsSound = search sound_rules depth 30

  pub unmarshal_create_chan_req_2-IsSound :
      IsSound "create_channel" (unmarshal_create_chan_req_2 alloc tsx_id)
  unfolding unmarshal_create_chan_req_2 is_valid method_of struct_method
  unmarshal_create_chan_req_2-IsSound = search sound_rules depth 30

  pub unmarshal_upd_user_info_req-IsSound :
      IsSound "update_user_info" (unmarshal_upd_user_info_req alloc tsx_id)
  unfolding unmarshal_upd_user_info_req is_valid method_of struct_method
  unmarshal_upd_user_info_req-IsSound = search sound_rules depth 30

  pub unmarshal_upd_chan_req-IsSound :
      IsSound "update_feedinfo" (unmarshal_upd_chan_req alloc tsx_id)
  unfolding unmarshal_upd_chan_req is_valid method_of struct_method
  unmarshal_upd_chan_req-IsSound = search sound_rules depth 30

  pub unmarshal_upd_chan_req_2-IsSound :
      IsSound "update_feedinfo" (unmarshal_upd_chan_req_2 alloc tsx_id)
  unfolding unmarshal_upd_chan_req_2 is_valid method_of struct_method
  unmarshal_upd_chan_req_2-IsSound = search sound_rules depth 30

  pub unmarshal_sub_chan_req-IsSound :
      IsSound "subscribe_channel" (unmarshal_sub_chan_req alloc tsx_id)
  unfolding unmarshal_sub_chan_req is_valid method_of struct_method
  unmarshal_sub_chan_req-IsSound = search sound_rules depth 30

  pub unmarshal_sub_chan_req_2-IsSound :
      IsSound "subscribe_channel" (unmarshal_sub_chan_req_2 alloc tsx_id)
  unfolding unmarshal_sub_chan_req_2 is_valid method_of struct_method
  unmarshal_sub_chan_req_2-IsSound = search sound_rules depth 30

  pub unmarshal_unsub_chan_req-IsSound :
      IsSound "unsubscribe_channel" (unmarshal_unsub_chan_req alloc tsx_id)
  unfolding unmarshal_unsub_chan_req is_valid method_of struct_method
  unmarshal_unsub_chan_req-IsSound = search sound_rules depth 30

  pub unmarshal_enbl_notif_req-IsSound :
      IsSound "enable_notification" (unmarshal_enbl_notif_req alloc tsx_id)
  unfolding unmarshal_enbl_notif_req is_valid method_of struct_method
  unmarshal_enbl_notif_req-IsSound = search sound_rules depth 30
