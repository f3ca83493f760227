-- ===== src/Rpc/Unmarshal/Channels.antt =====
-- src/rpc.c: the requests on channels, subscriptions and the own user.
use feeds_service.Prelude.{ℕ, Bool}
use feeds_service.Feeds.Dispatch.{
  create_channel, enable_notification, subscribe_channel, unsubscribe_channel, update_feedinfo,
}
use feeds_service.Rpc.Objects.{Reader, ◌>>=◌, ◌>>◌, ret, zalloc, full_str, full_bin, valid_id, na}
use feeds_service.Rpc.Requests.{unnamed_update_user_info, Req, writes}

unfoldable pub unmarshal_create_chan_req : Bool → ℕ → Reader Req
unmarshal_create_chan_req alloc tsx_id = do
  tk ← full_str "access_token"
  name ← full_str "name"
  intro ← full_str "introduction"
  avatar ← full_bin "avatar"
  zalloc alloc
  ret (
      writes (
        create_channel (record {
          tsx_id = tsx_id;
          tk = tk;
          name = name;
          intro = intro;
          avatar = avatar;
          tipm = na;
          proof = na;
        })))

unfoldable pub unmarshal_create_chan_req_2 : Bool → ℕ → Reader Req
unmarshal_create_chan_req_2 alloc tsx_id = do
  tk ← full_str "access_token"
  name ← full_str "name"
  intro ← full_str "introduction"
  avatar ← full_bin "avatar"
  tipm ← full_str "tip_methods"
  proof ← full_str "proof"
  zalloc alloc
  ret (
      writes (
        create_channel (record {
          tsx_id = tsx_id;
          tk = tk;
          name = name;
          intro = intro;
          avatar = avatar;
          tipm = tipm;
          proof = proof;
        })))

-- It is the one function that does not set `method` in the struct.
unfoldable pub unmarshal_upd_user_info_req : Bool → ℕ → Reader Req
unmarshal_upd_user_info_req alloc tsx_id = do
  tk ← full_str "access_token"
  name ← full_str "name"
  email ← full_str "email"
  display_name ← full_str "display_name"
  avatar ← full_bin "avatar"
  zalloc alloc
  ret (
      unnamed_update_user_info (record {
        tsx_id = tsx_id;
        tk = tk;
        name = name;
        email = email;
        display_name = display_name;
        avatar = avatar;
      }))

unfoldable pub unmarshal_upd_chan_req : Bool → ℕ → Reader Req
unmarshal_upd_chan_req alloc tsx_id = do
  tk ← full_str "access_token"
  chan_id ← valid_id "id"
  name ← full_str "name"
  intro ← full_str "introduction"
  avatar ← full_bin "avatar"
  zalloc alloc
  ret (
      writes (
        update_feedinfo (record {
          tsx_id = tsx_id;
          tk = tk;
          chan_id = chan_id;
          name = name;
          intro = intro;
          avatar = avatar;
          tipm = na;
          proof = na;
        })))

unfoldable pub unmarshal_upd_chan_req_2 : Bool → ℕ → Reader Req
unmarshal_upd_chan_req_2 alloc tsx_id = do
  tk ← full_str "access_token"
  chan_id ← valid_id "id"
  name ← full_str "name"
  intro ← full_str "introduction"
  avatar ← full_bin "avatar"
  tipm ← full_str "tip_methods"
  proof ← full_str "proof"
  zalloc alloc
  ret (
      writes (
        update_feedinfo (record {
          tsx_id = tsx_id;
          tk = tk;
          chan_id = chan_id;
          name = name;
          intro = intro;
          avatar = avatar;
          tipm = tipm;
          proof = proof;
        })))

unfoldable pub unmarshal_sub_chan_req : Bool → ℕ → Reader Req
unmarshal_sub_chan_req alloc tsx_id = do
  tk ← full_str "access_token"
  id ← valid_id "id"
  zalloc alloc
  ret (writes (subscribe_channel (record { tsx_id = tsx_id; tk = tk; id = id; proof = na })))

unfoldable pub unmarshal_sub_chan_req_2 : Bool → ℕ → Reader Req
unmarshal_sub_chan_req_2 alloc tsx_id = do
  tk ← full_str "access_token"
  id ← valid_id "id"
  proof ← full_str "proof"
  zalloc alloc
  ret (writes (subscribe_channel (record { tsx_id = tsx_id; tk = tk; id = id; proof = proof })))

unfoldable pub unmarshal_unsub_chan_req : Bool → ℕ → Reader Req
unmarshal_unsub_chan_req alloc tsx_id = do
  tk ← full_str "access_token"
  id ← valid_id "id"
  zalloc alloc
  ret (writes (unsubscribe_channel (record { tsx_id = tsx_id; tk = tk; id = id })))

unfoldable pub unmarshal_enbl_notif_req : Bool → ℕ → Reader Req
unmarshal_enbl_notif_req alloc tsx_id = do
  tk ← full_str "access_token"
  zalloc alloc
  ret (writes (enable_notification (record { tsx_id = tsx_id; tk = tk })))
