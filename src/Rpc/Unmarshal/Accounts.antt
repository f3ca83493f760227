-- ===== src/Rpc/Unmarshal/Accounts.antt =====
-- src/rpc.c: the requests on the owner, credentials, signing in and binary data.
use feeds_service.Prelude.{ℕ, String, Bool, Option, none, some, []}
use feeds_service.Prelude.Tests.{if◌then◌else◌}
use feeds_service.Obj.{Blob}
use feeds_service.Rpc.Objects.{
  Reader, Parsed, accepted, refused, Entries, ◌>>=◌, ◌>>◌, ret, field, deref, zalloc, full_str,
  given_bool, as_str, as_u64, as_bin, map_nxt_val, is_full,
}
use feeds_service.Rpc.Requests.{
  Req, declare_owner, get_binary, import_did, issue_credential, set_binary,
  signin_confirm_challenge, signin_request_challenge, update_credential, get_service_version,
}

abbrev or_zero : Option ℕ → ℕ
or_zero none = 0
or_zero (some n) = n

abbrev or_no_bytes : Option Blob → Blob
or_no_bytes none = []
or_no_bytes (some b) = b

-- A string that may be missing, but not empty.
abbrev pub ensure_full : Option String × Entries → Parsed (Option String × Entries)
ensure_full (none, c) = accepted (none, c)
ensure_full (some s, c) = if is_full s then accepted (some s, c) else refused

unfoldable pub full_if_given : String → Reader (Option String)
full_if_given key c = ensure_full (map_nxt_val as_str key c)

unfoldable pub unmarshal_decl_owner_req : Bool → ℕ → Reader Req
unmarshal_decl_owner_req alloc tsx_id = do
  nonce ← full_str "nonce"
  owner_did ← full_str "owner_did"
  zalloc alloc
  ret (declare_owner (record { tsx_id = tsx_id; nonce = nonce; owner_did = owner_did }))

unfoldable pub unmarshal_imp_did_req : Bool → ℕ → Reader Req
unmarshal_imp_did_req alloc tsx_id = do
  mnemo ← field as_str "mnemonic"
  passphrase ← field as_str "passphrase"
  idx ← field as_u64 "index"
  zalloc alloc
  ret (
      import_did
        (record { tsx_id = tsx_id; mnemo = mnemo; passphrase = passphrase; idx = or_zero idx }))

unfoldable pub unmarshal_iss_vc_req : Bool → ℕ → Reader Req
unmarshal_iss_vc_req alloc tsx_id = do
  vc ← full_str "credential"
  zalloc alloc
  ret (issue_credential (record { tsx_id = tsx_id; vc = vc }))

unfoldable pub unmarshal_update_vc_req : Bool → ℕ → Reader Req
unmarshal_update_vc_req alloc tsx_id = do
  tk ← full_str "access_token"
  vc ← full_str "credential"
  zalloc alloc
  ret (update_credential (record { tsx_id = tsx_id; tk = tk; vc = vc }))

unfoldable pub unmarshal_signin_req_chal_req : Bool → ℕ → Reader Req
unmarshal_signin_req_chal_req alloc tsx_id = do
  iss ← full_str "iss"
  vc_req ← given_bool "credential_required"
  zalloc alloc
  ret (signin_request_challenge (record { tsx_id = tsx_id; iss = iss; vc_req = vc_req }))

unfoldable pub unmarshal_signin_conf_chal_req : Bool → ℕ → Reader Req
unmarshal_signin_conf_chal_req alloc tsx_id = do
  jws ← full_str "jws"
  vc ← full_if_given "credential"
  zalloc alloc
  ret (signin_confirm_challenge (record { tsx_id = tsx_id; jws = jws; vc = vc }))

unfoldable pub unmarshal_set_binary_req : Bool → ℕ → Reader Req
unmarshal_set_binary_req alloc tsx_id = do
  tk ← full_str "access_token"
  key ← full_str "key"
  algo_obj ← field as_str "algo"
  checksum_obj ← field as_str "checksum"
  content ← field as_bin "content"
  zalloc alloc
  algo ← deref algo_obj
  checksum ← deref checksum_obj
  ret (
      set_binary (record {
        tsx_id = tsx_id;
        tk = tk;
        key = key;
        algo = algo;
        checksum = checksum;
        content = or_no_bytes content;
      }))

unfoldable pub unmarshal_get_binary_req : Bool → ℕ → Reader Req
unmarshal_get_binary_req alloc tsx_id = do
  tk ← full_str "access_token"
  key ← full_str "key"
  zalloc alloc
  ret (get_binary (record { tsx_id = tsx_id; tk = tk; key = key }))

-- It reads the token, if there is one, and nothing else.
unfoldable pub unmarshal_get_srv_ver_req : Bool → ℕ → Reader Req
unmarshal_get_srv_ver_req alloc tsx_id = do zalloc alloc; ret (get_service_version tsx_id)
