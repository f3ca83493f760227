-- ===== src/Rpc/Encoded/Accounts.antt =====
-- src/rpc.c: the requests on the owner, credentials, signing in and binary data are read from their
-- encodings.
use feeds_service.Prelude.{ℕ, ◌≡◌, refl, true, some, none, Option, String, eq_iff}
use feeds_service.Rpc.Objects.{Reader, ◌>>=◌, entry, no_entries, str, u64, map_nxt_val}
use feeds_service.Rpc.Requests.{
  Req, declare_owner, get_binary, get_service_version, import_did, issue_credential, set_binary,
  signin_confirm_challenge, signin_request_challenge, update_credential,
}
use feeds_service.Rpc.Requests.{
  DeclOwnerReq, GetBinaryReq, ImpDidReq, IssVcReq, SetBinaryReq, SigninConfChalReq,
  SigninReqChalReq, UpdateVcReq,
}
use feeds_service.Rpc.Unmarshal.Accounts.{
  unmarshal_decl_owner_req, unmarshal_imp_did_req, unmarshal_iss_vc_req, unmarshal_update_vc_req,
  unmarshal_signin_req_chal_req, unmarshal_signin_conf_chal_req, unmarshal_set_binary_req,
  unmarshal_get_binary_req, unmarshal_get_srv_ver_req, full_if_given,
}
use feeds_service.Rpc.Valid.{is_valid, full_if_there, and_elim}
use feeds_service.Rpc.Objects.{is_full}
use feeds_service.Rpc.Encoded.{given, tsx_id_of, params_of, carried}
use feeds_service.Rpc.Encoded.Rules.{Reads, read_rules}

pub unmarshal_decl_owner_req-Reads :
    (r : DeclOwnerReq)
    → is_valid (declare_owner r) ≡ true
    → Reads
        (unmarshal_decl_owner_req true (tsx_id_of (declare_owner r)))
        (params_of (declare_owner r))
        (carried (declare_owner r))
unfolding is_valid tsx_id_of params_of carried unmarshal_decl_owner_req
unmarshal_decl_owner_req-Reads r valid =
    let (v1, last) = and_elim (is_full r.nonce) valid in search read_rules depth 40

-- Each string may be missing.
imp_did-Reads :
    (tsx_id idx : ℕ) (mnemo passphrase : Option String)
    → Reads
        (unmarshal_imp_did_req true tsx_id)
        (given "mnemonic" mnemo
          (given "passphrase" passphrase (entry (str "index") (u64 idx) no_entries)))
        (import_did (record { tsx_id = tsx_id; mnemo = mnemo; passphrase = passphrase; idx = idx }))
unfolding unmarshal_imp_did_req
imp_did-Reads tsx_id idx none none = search read_rules depth 40
imp_did-Reads tsx_id idx none (some passphrase) = search read_rules depth 40
imp_did-Reads tsx_id idx (some mnemo) none = search read_rules depth 40
imp_did-Reads tsx_id idx (some mnemo) (some passphrase) = search read_rules depth 40

pub unmarshal_imp_did_req-Reads :
    (r : ImpDidReq)
    → Reads
        (unmarshal_imp_did_req true (tsx_id_of (import_did r)))
        (params_of (import_did r))
        (carried (import_did r))
unfolding tsx_id_of params_of carried
unmarshal_imp_did_req-Reads r = imp_did-Reads r.tsx_id r.idx r.mnemo r.passphrase

pub unmarshal_iss_vc_req-Reads :
    (r : IssVcReq)
    → is_valid (issue_credential r) ≡ true
    → Reads
        (unmarshal_iss_vc_req true (tsx_id_of (issue_credential r)))
        (params_of (issue_credential r))
        (carried (issue_credential r))
unfolding is_valid tsx_id_of params_of carried unmarshal_iss_vc_req
unmarshal_iss_vc_req-Reads r valid = search read_rules depth 40

pub unmarshal_update_vc_req-Reads :
    (r : UpdateVcReq)
    → is_valid (update_credential r) ≡ true
    → Reads
        (unmarshal_update_vc_req true (tsx_id_of (update_credential r)))
        (params_of (update_credential r))
        (carried (update_credential r))
unfolding is_valid tsx_id_of params_of carried unmarshal_update_vc_req
unmarshal_update_vc_req-Reads r valid =
    let (v1, last) = and_elim (is_full r.tk) valid in search read_rules depth 40

pub unmarshal_signin_req_chal_req-Reads :
    (r : SigninReqChalReq)
    → is_valid (signin_request_challenge r) ≡ true
    → Reads
        (unmarshal_signin_req_chal_req true (tsx_id_of (signin_request_challenge r)))
        (params_of (signin_request_challenge r))
        (carried (signin_request_challenge r))
unfolding is_valid tsx_id_of params_of carried unmarshal_signin_req_chal_req
unmarshal_signin_req_chal_req-Reads r valid = search read_rules depth 40

full_if_given-Reads :
    (f : Option String → Reader Req) (req : Req) (key : String) (vc : Option String)
    → full_if_there vc ≡ true
    → Reads (f vc) no_entries req
    → Reads (full_if_given key >>= f) (given key vc no_entries) req
unfolding full_if_given map_nxt_val ◌>>=◌
full_if_given-Reads f req key none e h = record { at = h.at }
full_if_given-Reads f req key (some vc) e h = record { at = rw ((eq_iff key key).1 refl, e) h.at }

pub unmarshal_signin_conf_chal_req-Reads :
    (r : SigninConfChalReq)
    → is_valid (signin_confirm_challenge r) ≡ true
    → Reads
        (unmarshal_signin_conf_chal_req true (tsx_id_of (signin_confirm_challenge r)))
        (params_of (signin_confirm_challenge r))
        (carried (signin_confirm_challenge r))
unfolding is_valid tsx_id_of params_of carried unmarshal_signin_conf_chal_req
unmarshal_signin_conf_chal_req-Reads r valid =
    let (v1, last) = and_elim (is_full r.jws) valid in
    search (read_rules, full_if_given-Reads) depth 40

pub unmarshal_set_binary_req-Reads :
    (r : SetBinaryReq)
    → is_valid (set_binary r) ≡ true
    → Reads
        (unmarshal_set_binary_req true (tsx_id_of (set_binary r)))
        (params_of (set_binary r))
        (carried (set_binary r))
unfolding is_valid tsx_id_of params_of carried unmarshal_set_binary_req
unmarshal_set_binary_req-Reads r valid =
    let (v1, last) = and_elim (is_full r.tk) valid in search read_rules depth 40

pub unmarshal_get_binary_req-Reads :
    (r : GetBinaryReq)
    → is_valid (get_binary r) ≡ true
    → Reads
        (unmarshal_get_binary_req true (tsx_id_of (get_binary r)))
        (params_of (get_binary r))
        (carried (get_binary r))
unfolding is_valid tsx_id_of params_of carried unmarshal_get_binary_req
unmarshal_get_binary_req-Reads r valid =
    let (v1, last) = and_elim (is_full r.tk) valid in search read_rules depth 40

pub unmarshal_get_srv_ver_req-Reads :
    (tsx_id : ℕ)
    → is_valid (get_service_version tsx_id) ≡ true
    → Reads
        (unmarshal_get_srv_ver_req true (tsx_id_of (get_service_version tsx_id)))
        (params_of (get_service_version tsx_id))
        (carried (get_service_version tsx_id))
unfolding is_valid tsx_id_of params_of carried unmarshal_get_srv_ver_req
unmarshal_get_srv_ver_req-Reads tsx_id valid = search read_rules depth 40
