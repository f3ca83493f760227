-- ===== src/Rpc/Requests.antt =====
-- src/rpc.h: the requests that the feeds module does not handle itself or only reads for, and all
-- requests together.
use feeds_service.Prelude.{ℕ, String, Bool, Option}
use feeds_service.Obj.{Blob}
use feeds_service.Feeds.Channels.{UpdUserInfoReq}
use feeds_service.Feeds.Dispatch.{Request}
use feeds_service.Feeds.Reads.Defs.{GetChansReq, GetPostsReq}
use feeds_service.Feeds.Reads.Comments.{GetCmtsReq}

pub record DeclOwnerReq : Type 0 where
  pub tsx_id : ℕ
  pub nonce : String
  pub owner_did : String

-- A field that is not in the message is a null pointer, or 0 for `idx`.
pub record ImpDidReq : Type 0 where
  pub tsx_id : ℕ
  pub mnemo : Option String
  pub passphrase : Option String
  pub idx : ℕ

pub record IssVcReq : Type 0 where
  pub tsx_id : ℕ
  pub vc : String

pub record UpdateVcReq : Type 0 where
  pub tsx_id : ℕ
  pub tk : String
  pub vc : String

pub record SigninReqChalReq : Type 0 where
  pub tsx_id : ℕ
  pub iss : String
  pub vc_req : Bool

pub record SigninConfChalReq : Type 0 where
  pub tsx_id : ℕ
  pub jws : String
  pub vc : Option String

-- GetChanDtlReq
pub record ChanIdReq : Type 0 where
  pub tsx_id : ℕ
  pub tk : String
  pub id : ℕ

pub record TkReq : Type 0 where
  pub tsx_id : ℕ
  pub tk : String

pub record SetBinaryReq : Type 0 where
  pub tsx_id : ℕ
  pub tk : String
  pub key : String
  pub algo : String
  pub checksum : String
  pub content : Blob

pub record GetBinaryReq : Type 0 where
  pub tsx_id : ℕ
  pub tk : String
  pub key : String

pub data Req : Type 0 where
  declare_owner : DeclOwnerReq → Req
  import_did : ImpDidReq → Req
  issue_credential : IssVcReq → Req
  update_credential : UpdateVcReq → Req
  signin_request_challenge : SigninReqChalReq → Req
  signin_confirm_challenge : SigninConfChalReq → Req
  writes : Request → Req
  get_my_channels get_my_channels_metadata get_channels get_subscribed_channels : GetChansReq → Req
  get_liked_posts get_liked_data get_reported_comments : GetChansReq → Req
  get_channel_detail : ChanIdReq → Req
  get_posts get_posts_likes_and_comments : GetPostsReq → Req
  get_comments get_comments_likes : GetCmtsReq → Req
  get_statistics : TkReq → Req
  set_binary : SetBinaryReq → Req
  get_binary : GetBinaryReq → Req
  get_service_version : ℕ → Req
  -- A request to update the user whose `method` is a null pointer.
  unnamed_update_user_info : UpdUserInfoReq → Req
