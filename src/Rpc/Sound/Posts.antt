-- ===== src/Rpc/Sound/Posts.antt =====
-- src/rpc.c: the requests on posts are read soundly.
use feeds_service.Prelude.{ℕ, Bool}
use feeds_service.Rpc.Unmarshal.Posts.{
  unmarshal_pub_post_req, unmarshal_pub_post_req_2, unmarshal_declare_post_req,
  unmarshal_declare_post_req_2, unmarshal_notify_post_req, unmarshal_edit_post_req,
  unmarshal_edit_post_req_2, unmarshal_del_post_req,
}
use feeds_service.Rpc.Valid.{is_valid, method_of, struct_method}
use feeds_service.Rpc.Valid.Rules.{IsSound, sound_rules}

module _ (alloc : Bool) (tsx_id : ℕ) where
  pub unmarshal_pub_post_req-IsSound : IsSound "publish_post" (unmarshal_pub_post_req alloc tsx_id)
  unfolding unmarshal_pub_post_req is_valid method_of struct_method
  unmarshal_pub_post_req-IsSound = search sound_rules depth 30

  pub unmarshal_pub_post_req_2-IsSound :
      IsSound "publish_post" (unmarshal_pub_post_req_2 alloc tsx_id)
  unfolding unmarshal_pub_post_req_2 is_valid method_of struct_method
  unmarshal_pub_post_req_2-IsSound = search sound_rules depth 30

  pub unmarshal_declare_post_req-IsSound :
      IsSound "declare_post" (unmarshal_declare_post_req alloc tsx_id)
  unfolding unmarshal_declare_post_req is_valid method_of struct_method
  unmarshal_declare_post_req-IsSound = search sound_rules depth 30

  pub unmarshal_declare_post_req_2-IsSound :
      IsSound "declare_post" (unmarshal_declare_post_req_2 alloc tsx_id)
  unfolding unmarshal_declare_post_req_2 is_valid method_of struct_method
  unmarshal_declare_post_req_2-IsSound = search sound_rules depth 30

  pub unmarshal_notify_post_req-IsSound :
      IsSound "notify_post" (unmarshal_notify_post_req alloc tsx_id)
  unfolding unmarshal_notify_post_req is_valid method_of struct_method
  unmarshal_notify_post_req-IsSound = search sound_rules depth 30

  pub unmarshal_edit_post_req-IsSound : IsSound "edit_post" (unmarshal_edit_post_req alloc tsx_id)
  unfolding unmarshal_edit_post_req is_valid method_of struct_method
  unmarshal_edit_post_req-IsSound = search sound_rules depth 30

  pub unmarshal_edit_post_req_2-IsSound :
      IsSound "edit_post" (unmarshal_edit_post_req_2 alloc tsx_id)
  unfolding unmarshal_edit_post_req_2 is_valid method_of struct_method
  unmarshal_edit_post_req_2-IsSound = search sound_rules depth 30

  pub unmarshal_del_post_req-IsSound : IsSound "delete_post" (unmarshal_del_post_req alloc tsx_id)
  unfolding unmarshal_del_post_req is_valid method_of struct_method
  unmarshal_del_post_req-IsSound = search sound_rules depth 30
