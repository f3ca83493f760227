-- ===== src/Feeds/Reads/Defs.antt =====
-- src/feeds.c: the requests that list channels and posts. They change nothing but what is enqueued
-- for the requester.
use feeds_service.Prelude.{ℕ, ◌+◌, ◌%◌, ◌^◌, String, Bool, true, Option, none, some, List, [], ◌∷◌}
use mathlib.Core.List
use feeds_service.Prelude.Tests.{if◌then◌else◌}
use feeds_service.Prelude.Lists.{length}
use feeds_service.Obj.{
  Blob, ChanInfo, PostInfo, Error, user_id_is_owner, access_token_exp, not_authorized,
  internal_error, not_exist,
}
use feeds_service.Db.Tables.{ChanRow, PostRow}
use feeds_service.Db.Listings.{QryCriteria, Orders, db_iter_chans, db_iter_posts, listed_post}
use feeds_service.Feeds.State.{
  Server, Env, Exit, ret, quit, fail, abort, ◌>>=◌, ◌>>◌, require, or_fail, ready, chan_get_by_id,
}
use feeds_service.Feeds.Init.{row2chan}
use feeds_service.Feeds.Reads.Pages.{Page, Split, minus64, pages}

-- A response, by its transaction. Each request has a type `A` of its own for what its marshaller
-- packs.
pub data Reply {ℓ} (A : Type ℓ) : Type ℓ where
  refused : ℕ → Error → Reply A
  listed : ℕ → Page A → Reply A

-- What a request that reads meets. `query_ok`: the statement runs and the iterator is allocated.
-- `steps_ok`: the iteration comes to its end. `enq_ok`: the result of each call of msgq_enq.
pub record Reading {ℓ} (A : Type ℓ) : Type ℓ where
  pub env : Env
  pub query_ok : Bool
  pub steps_ok : Bool
  pub marshal_ok : Reply A → Bool
  pub enq_ok : ℕ → Bool
  pub max_content_len : ℕ

module _ {ℓ} {A : Type ℓ} (r : Reading A) (tsx : ℕ) where
  -- if (resp_marshal) msgq_enq(from, resp_marshal)
  abbrev pub reply : Reply A → List (Option (Reply A))
  reply m = if r.marshal_ok m then some m ∷ [] else []

  -- The calls of msgq_enq in the loop, from the one of number `i` on. `none`: the response could
  -- not be marshalled, and msgq_enq is called with a null pointer.
  unfoldable pub enq_pages : ℕ → List (Page A) → List (Option (Reply A))
  enq_pages i [] = []
  enq_pages i (p ∷ ps) =
      let rest = enq_pages (i + 1) ps in
      (if r.marshal_ok (listed tsx p) then some (listed tsx p) else none)
      ∷ (if r.enq_ok i then rest else [])

  unfoldable pub answer : Split A → List A → List (Option (Reply A))
  answer c [] = reply (listed tsx (record { is_last = true; infos = [] }))
  answer c (x ∷ xs) = enq_pages 0 (pages c (x ∷ xs))

  -- The label `finally`.
  unfoldable pub finish_read : Exit (List (Option (Reply A))) → List (Option (Reply A))
  finish_read (ret calls) = calls
  finish_read (quit s) = []
  finish_read (fail s e) = reply (refused tsx e)
  finish_read (abort s) = []

abbrev pub chan_split : ℕ → Split ChanInfo
chan_split max = record {
  max_content_len = max;
  spend = λ left ci. minus64 left (length ci.avatar);
  need = λ ci. length ci.avatar;
}

abbrev pub post_split : ℕ → Split PostInfo
post_split max = record {
  max_content_len = max;
  spend = λ left pi. minus64 (minus64 left (length pi.content)) (length pi.thumbnails);
  need = λ pi. (length pi.content + length pi.thumbnails) % 2 ^ 64;
}

-- GetMyChansReq and GetChansReq
pub record GetChansReq : Type 0 where
  pub tsx_id : ℕ
  pub tk : String
  pub qc : QryCriteria

pub record GetPostsReq : Type 0 where
  pub tsx_id : ℕ
  pub tk : String
  pub chan_id : ℕ
  pub qc : QryCriteria

-- What rpc_marshal_get_my_chans_resp packs of a channel.
pub record MyChan : Type 0 where
  pub chan_id : ℕ
  pub name : String
  pub intro : String
  pub subs : ℕ
  pub avatar : Blob

abbrev pub my_chan : ChanInfo → MyChan
my_chan ci = record {
  chan_id = ci.chan_id;
  name = ci.name;
  intro = ci.intro;
  subs = ci.subs;
  avatar = ci.avatar;
}

abbrev pub my_chan_split : ℕ → Split MyChan
my_chan_split max = record {
  max_content_len = max;
  spend = λ left ci. minus64 left (length ci.avatar);
  need = λ ci. length ci.avatar;
}

unfoldable pub hdl_get_my_chans_req :
    Reading MyChan → Orders ChanRow → GetChansReq → Server → List (Option (Reply MyChan))
hdl_get_my_chans_req r orders req s = finish_read r req.tsx_id do
  ready r.env s
  uinfo ← or_fail (r.env.uinfo_of_token req.tk) s access_token_exp
  require (user_id_is_owner uinfo.uid) s not_authorized
  rows ← or_fail (db_iter_chans r.query_ok orders req.qc s.db) s internal_error
  require r.steps_ok s internal_error
  let infos = List.map (λ row. my_chan (row2chan row)) rows
  ret (answer r req.tsx_id (my_chan_split r.max_content_len) infos)

unfoldable pub hdl_get_chans_req :
    Reading ChanInfo → Orders ChanRow → GetChansReq → Server → List (Option (Reply ChanInfo))
hdl_get_chans_req r orders req s = finish_read r req.tsx_id do
  ready r.env s
  uinfo ← or_fail (r.env.uinfo_of_token req.tk) s access_token_exp
  rows ← or_fail (db_iter_chans r.query_ok orders req.qc s.db) s internal_error
  require r.steps_ok s internal_error
  ret (answer r req.tsx_id (chan_split r.max_content_len) (List.map row2chan rows))

unfoldable pub hdl_get_posts_req :
    Reading PostInfo → Orders PostRow → GetPostsReq → Server → List (Option (Reply PostInfo))
hdl_get_posts_req r orders req s = finish_read r req.tsx_id do
  ready r.env s
  uinfo ← or_fail (r.env.uinfo_of_token req.tk) s access_token_exp
  chan ← or_fail (chan_get_by_id s req.chan_id) s not_exist
  rows ← or_fail (db_iter_posts r.query_ok orders req.chan_id req.qc s.db) s internal_error
  require r.steps_ok s internal_error
  ret (answer r req.tsx_id (post_split r.max_content_len) (List.map listed_post rows))
