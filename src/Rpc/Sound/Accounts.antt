-- ===== src/Rpc/Sound/Accounts.antt =====
-- src/rpc.c: the requests on the owner, credentials, signing in and binary data are read soundly.
use feeds_service.Prelude.{ℕ, String, ◌≡◌, refl, Bool, true, Option, none, some, inl, inr}
use feeds_service.Prelude.Tests.{Bool-cases}
use feeds_service.Rpc.Objects.{Entries, Reader, ◌>>=◌, map_nxt_val, as_str, is_full}
use feeds_service.Rpc.Requests.{Req}
use feeds_service.Rpc.Unmarshal.Accounts.{
  unmarshal_decl_owner_req, unmarshal_imp_did_req, unmarshal_iss_vc_req, unmarshal_update_vc_req,
  unmarshal_signin_req_chal_req, unmarshal_signin_conf_chal_req, unmarshal_set_binary_req,
  unmarshal_get_binary_req, unmarshal_get_srv_ver_req, full_if_given, ensure_full,
}
use feeds_service.Rpc.Valid.{struct_method, full_if_there, is_valid, method_of}
use feeds_service.Rpc.Valid.Rules.{IsSound, IsSoundAt, sound_rules}

pub full_if_given-IsSound :
    {method : String}
    → (key : String) (f : Option String → Reader Req)
    → ((o : Option String) → full_if_there o ≡ true → IsSound method (f o))
    → IsSound method (full_if_given key >>= f)
unfolding full_if_given ◌>>=◌
full_if_given-IsSound {method = method} key f h = record {
  at = λ c. read (map_nxt_val as_str key c);
}
  where
    read :
        (x : Option String × Entries)
        → IsSoundAt method (feeds_service.Rpc.Objects.and_then (ensure_full x) f)
    read (none, c) = (h none refl).at c
    read (some s, c) = elim (Bool-cases (is_full s)) [
      | inl e ↦ rw e ((h (some s) e).at c)
      | inr e ↦ rw e tt
    ]

module _ (alloc : Bool) (tsx_id : ℕ) where
  pub unmarshal_decl_owner_req-IsSound :
      IsSound "declare_owner" (unmarshal_decl_owner_req alloc tsx_id)
  unfolding unmarshal_decl_owner_req is_valid method_of struct_method
  unmarshal_decl_owner_req-IsSound = search sound_rules depth 30

  pub unmarshal_imp_did_req-IsSound : IsSound "import_did" (unmarshal_imp_did_req alloc tsx_id)
  unfolding unmarshal_imp_did_req is_valid method_of struct_method
  unmarshal_imp_did_req-IsSound = search sound_rules depth 30

  pub unmarshal_iss_vc_req-IsSound : IsSound "issue_credential" (unmarshal_iss_vc_req alloc tsx_id)
  unfolding unmarshal_iss_vc_req is_valid method_of struct_method
  unmarshal_iss_vc_req-IsSound = search sound_rules depth 30

  pub unmarshal_update_vc_req-IsSound :
      IsSound "update_credential" (unmarshal_update_vc_req alloc tsx_id)
  unfolding unmarshal_update_vc_req is_valid method_of struct_method
  unmarshal_update_vc_req-IsSound = search sound_rules depth 30

  pub unmarshal_signin_req_chal_req-IsSound :
      IsSound "signin_request_challenge" (unmarshal_signin_req_chal_req alloc tsx_id)
  unfolding unmarshal_signin_req_chal_req is_valid method_of struct_method
  unmarshal_signin_req_chal_req-IsSound = search sound_rules depth 30

  pub unmarshal_signin_conf_chal_req-IsSound :
      IsSound "signin_confirm_challenge" (unmarshal_signin_conf_chal_req alloc tsx_id)
  unfolding unmarshal_signin_conf_chal_req is_valid method_of struct_method
  unmarshal_signin_conf_chal_req-IsSound = search (sound_rules, full_if_given-IsSound) depth 30

  pub unmarshal_set_binary_req-IsSound :
      IsSound "set_binary" (unmarshal_set_binary_req alloc tsx_id)
  unfolding unmarshal_set_binary_req is_valid method_of struct_method
  unmarshal_set_binary_req-IsSound = search sound_rules depth 30

  pub unmarshal_get_binary_req-IsSound :
      IsSound "get_binary" (unmarshal_get_binary_req alloc tsx_id)
  unfolding unmarshal_get_binary_req is_valid method_of struct_method
  unmarshal_get_binary_req-IsSound = search sound_rules depth 30

  pub unmarshal_get_srv_ver_req-IsSound :
      IsSound "get_service_version" (unmarshal_get_srv_ver_req alloc tsx_id)
  unfolding unmarshal_get_srv_ver_req is_valid method_of struct_method
  unmarshal_get_srv_ver_req-IsSound = search sound_rules depth 30
