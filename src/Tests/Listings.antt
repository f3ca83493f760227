-- ===== src/Tests/Listings.antt =====
-- The requests that list, on a service with an available and a declared post.
use feeds_service.Prelude.{◌≡◌, ◌&&◌, refl, true, [], ◌∷◌, List, Bool, arith}
use mathlib.Core.List
use feeds_service.Prelude.Tests.{◌==◌}
use feeds_service.Prelude.Lists.{length}
use feeds_service.Prelude.Rows.{has_row, select}
use feeds_service.Obj.{PostInfo, ChanInfo, post_declared}
use feeds_service.Db.Listings.{
  Orders, QryCriteria, by_id, db_iter_posts, db_iter_chans, select_rows, matching, listed_post,
}
use feeds_service.Db.Listed.{KeepsRows}
use feeds_service.Db.Shown.{shown, is_public_in, ids, is_between}
use feeds_service.Feeds.State.{Server, chan_get_by_id}
use feeds_service.Feeds.Init.{row2chan}
use feeds_service.Feeds.Reads.Pages.{Page, pages, rounds}
use feeds_service.Feeds.Reads.Defs.{
  Reading, GetPostsReq, GetChansReq, hdl_get_posts_req, hdl_get_chans_req, finish_read, answer,
  enq_pages,
}
use feeds_service.Feeds.Reads.Shown.{infos_of, infos_of-hdl_get_posts_req}
use feeds_service.Feeds.Reads.Served.{
  AllSucceed, AreFor, calls_for, post_size, chan_size, hdl_get_posts_req-AreFor,
  hdl_get_posts_req-is_between, hdl_get_chans_req-AreFor,
}
use feeds_service.Tests.Data.{reader, env_of, service, stored, post_row, news_row, news_chan}

-- The tables are in the order of their ids, and each has one row of each time.
abbrev pub in_place : {R : Type 0} → Orders R
in_place = record { scan = λ rs. rs; asc = λ col rs. rs; desc = λ col rs. rs }

pub in_place-KeepsRows : {R : Type 0} → KeepsRows (in_place {R = R})
in_place-KeepsRows = record { scan = λ f rs. refl; asc = λ f col rs. refl; desc = λ f col rs. refl }

abbrev pub reads {ℓ} : {A : Type ℓ} → Reading A
reads = record {
  env = env_of reader;
  query_ok = true;
  steps_ok = true;
  marshal_ok = λ m. true;
  enq_ok = λ i. true;
  max_content_len = 1000;
}

pub reads-AllSucceed : {A : Type 0} → AllSucceed (reads {A = A})
reads-AllSucceed = record {
  ready = refl;
  query = refl;
  steps = refl;
  marshals = λ m. refl;
  enqs = λ i. refl;
}

abbrev two_posts : Server
two_posts = record service {
  db = record stored {
    posts = post_row ∷ record post_row { post_id = 2; status = post_declared } ∷ [];
  };
}

abbrev pub by_ids : QryCriteria
by_ids = record { by = by_id; upper = 0; lower = 1; maxcnt = 0 }

abbrev posts_req : GetPostsReq
posts_req = record { tsx_id = 5; tk = "t"; chan_id = 1; qc = by_ids }

abbrev chans_req : GetChansReq
chans_req = record { tsx_id = 6; tk = "t"; qc = by_ids }

abbrev is_first : PostInfo → Bool
is_first pi = pi.post_id == 1

infos_of-hdl_get_posts_req_example :
    has_row (λ row. is_public_in 1 row && is_first (shown row)) two_posts.db.posts ≡ true
unfolding has_row hdl_get_posts_req finish_read answer enq_pages pages rounds db_iter_posts
    select_rows matching infos_of chan_get_by_id row2chan select
infos_of-hdl_get_posts_req_example =
    infos_of-hdl_get_posts_req reads in_place posts_req two_posts is_first in_place-KeepsRows refl

hdl_get_posts_req-AreFor_example :
    (ps : List (Page PostInfo)) × (hdl_get_posts_req reads in_place posts_req two_posts
      ≡ calls_for 5 ps)
    × AreFor post_size 1000 (List.map listed_post (post_row ∷ [])) ps
unfolding db_iter_posts select_rows matching chan_get_by_id row2chan select length
hdl_get_posts_req-AreFor_example =
    hdl_get_posts_req-AreFor reads in_place posts_req two_posts reader news_chan (post_row ∷ [])
      reads-AllSucceed (omega arith) refl refl refl (omega arith, tt)

hdl_get_posts_req-is_between_example :
    has_row is_first (infos_of (hdl_get_posts_req reads in_place posts_req two_posts))
    ≡ has_row
        (λ row. (is_public_in 1 row && is_between 1 0 row.post_id) && is_first (shown row))
        two_posts.db.posts
unfolding chan_get_by_id row2chan select has_row
hdl_get_posts_req-is_between_example =
    hdl_get_posts_req-is_between reads in_place posts_req two_posts reader news_chan
      (λ r. r.post_id) is_first reads-AllSucceed in_place-KeepsRows refl refl ids refl (omega arith)
      (omega arith) refl

hdl_get_chans_req-AreFor_example :
    (ps : List (Page ChanInfo)) × (hdl_get_chans_req reads in_place chans_req two_posts
      ≡ calls_for 6 ps)
    × AreFor chan_size 1000 (List.map row2chan (news_row ∷ [])) ps
unfolding db_iter_chans select_rows matching row2chan length
hdl_get_chans_req-AreFor_example =
    hdl_get_chans_req-AreFor reads in_place chans_req two_posts reader (news_row ∷ [])
      reads-AllSucceed (omega arith) refl refl (omega arith, tt)
