-- ===== src/Rpc/Sound/Comments.antt =====
-- src/rpc.c: the requests on comments and likes are read soundly.
use feeds_service.Prelude.{ℕ, Bool}
use feeds_service.Rpc.Unmarshal.Comments.{
  unmarshal_post_cmt_req, unmarshal_post_cmt_req_2, unmarshal_edit_cmt_req,
  unmarshal_edit_cmt_req_2, unmarshal_del_cmt_req, unmarshal_block_cmt_req,
  unmarshal_unblock_cmt_req, unmarshal_post_like_req, unmarshal_post_like_req_2,
  unmarshal_post_unlike_req, unmarshal_report_illegal_cmt_req,
}
use feeds_service.Rpc.Valid.{is_valid, method_of, struct_method}
use feeds_service.Rpc.Valid.Rules.{IsSound, sound_rules}

module _ (alloc : Bool) (tsx_id : ℕ) where
  pub unmarshal_post_cmt_req-IsSound : IsSound "post_comment" (unmarshal_post_cmt_req alloc tsx_id)
  unfolding unmarshal_post_cmt_req is_valid method_of struct_method
  unmarshal_post_cmt_req-IsSound = search sound_rules depth 30

  pub unmarshal_post_cmt_req_2-IsSound :
      IsSound "post_comment" (unmarshal_post_cmt_req_2 alloc tsx_id)
  unfolding unmarshal_post_cmt_req_2 is_valid method_of struct_method
  unmarshal_post_cmt_req_2-IsSound = search sound_rules depth 30

  pub unmarshal_edit_cmt_req-IsSound : IsSound "edit_comment" (unmarshal_edit_cmt_req alloc tsx_id)
  unfolding unmarshal_edit_cmt_req is_valid method_of struct_method
  unmarshal_edit_cmt_req-IsSound = search sound_rules depth 30

  pub unmarshal_edit_cmt_req_2-IsSound :
      IsSound "edit_comment" (unmarshal_edit_cmt_req_2 alloc tsx_id)
  unfolding unmarshal_edit_cmt_req_2 is_valid method_of struct_method
  unmarshal_edit_cmt_req_2-IsSound = search sound_rules depth 30

  pub unmarshal_del_cmt_req-IsSound : IsSound "delete_comment" (unmarshal_del_cmt_req alloc tsx_id)
  unfolding unmarshal_del_cmt_req is_valid method_of struct_method
  unmarshal_del_cmt_req-IsSound = search sound_rules depth 30

  pub unmarshal_block_cmt_req-IsSound :
      IsSound "block_comment" (unmarshal_block_cmt_req alloc tsx_id)
  unfolding unmarshal_block_cmt_req is_valid method_of struct_method
  unmarshal_block_cmt_req-IsSound = search sound_rules depth 30

  pub unmarshal_unblock_cmt_req-IsSound :
      IsSound "unblock_comment" (unmarshal_unblock_cmt_req alloc tsx_id)
  unfolding unmarshal_unblock_cmt_req is_valid method_of struct_method
  unmarshal_unblock_cmt_req-IsSound = search sound_rules depth 30

  pub unmarshal_post_like_req-IsSound : IsSound "post_like" (unmarshal_post_like_req alloc tsx_id)
  unfolding unmarshal_post_like_req is_valid method_of struct_method
  unmarshal_post_like_req-IsSound = search sound_rules depth 30

  pub unmarshal_post_like_req_2-IsSound :
      IsSound "post_like" (unmarshal_post_like_req_2 alloc tsx_id)
  unfolding unmarshal_post_like_req_2 is_valid method_of struct_method
  unmarshal_post_like_req_2-IsSound = search sound_rules depth 30

  pub unmarshal_post_unlike_req-IsSound :
      IsSound "post_unlike" (unmarshal_post_unlike_req alloc tsx_id)
  unfolding unmarshal_post_unlike_req is_valid method_of struct_method
  unmarshal_post_unlike_req-IsSound = search sound_rules depth 30

  pub unmarshal_report_illegal_cmt_req-IsSound :
      IsSound "report_illegal_comment" (unmarshal_report_illegal_cmt_req alloc tsx_id)
  unfolding unmarshal_report_illegal_cmt_req is_valid method_of struct_method
  unmarshal_report_illegal_cmt_req-IsSound = search sound_rules depth 30
