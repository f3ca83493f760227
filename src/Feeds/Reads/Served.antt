-- ===== src/Feeds/Reads/Served.antt =====
-- The responses to the requests that list channels and posts, when every call succeeds.
use feeds_service.Prelude.{
  ℕ, ◌+◌, ◌<◌, ◌^◌, ◌≡◌, refl, ◌∙◌, ap, Bool, true, ◌&&◌, Option, some, List, [], ◌∷◌, ◌++◌, arith,
}
use mathlib.Core.List
use feeds_service.Prelude.Lists.{length}
use feeds_service.Prelude.Rows.{has_row}
use feeds_service.Obj.{ChanInfo, PostInfo, UserInfo}
use feeds_service.Db.Tables.{ChanRow, PostRow}
use feeds_service.Db.Listings.{Orders, db_iter_chans, db_iter_posts, listed_post}
use feeds_service.Db.Listed.{KeepsRows, db_iter_posts_whole, db_iter_posts_found}
use feeds_service.Db.Shown.{
  shown, is_public_in, ColumnOf, is_between, AllPositive, ColumnOf-query_column,
  is_listed_in-is_between, has_row_agree,
}
use feeds_service.Feeds.State.{Server, Chan, chan_get_by_id}
use feeds_service.Feeds.Init.{row2chan}
use feeds_service.Feeds.Reads.Pages.{
  Page, Split, pages, all_infos, marks_last, AllWithin, EachWithin, IsExact, all_infos-pages,
  marks_last-pages, pages-AllWithin,
}
use feeds_service.Feeds.Reads.Defs.{
  Reply, listed, Reading, enq_pages, answer, finish_read, chan_split, post_split, GetChansReq,
  GetPostsReq, hdl_get_chans_req, hdl_get_posts_req,
}
use feeds_service.Feeds.Reads.Shown.{infos_of, has_row-map}

-- Every call succeeds.
pub record AllSucceed {ℓ} {A : Type ℓ} (r : Reading A) : Type ℓ where
  pub ready : r.env.did_is_ready ≡ true
  pub query : r.query_ok ≡ true
  pub steps : r.steps_ok ≡ true
  pub marshals : (m : Reply A) → r.marshal_ok m ≡ true
  pub enqs : (i : ℕ) → r.enq_ok i ≡ true

-- The calls of msgq_enq for some responses.
abbrev pub calls_for {ℓ} : {A : Type ℓ} → ℕ → List (Page A) → List (Option (Reply A))
calls_for tsx ps = List.map (λ p. some (listed tsx p)) ps

module _ {ℓ} {A : Type ℓ} (r : Reading A) (tsx : ℕ) where
  enq_pages-all :
      (i : ℕ) (ps : List (Page A)) → AllSucceed r → enq_pages r tsx i ps ≡ calls_for tsx ps
  unfolding enq_pages
  enq_pages-all i [] good = refl
  enq_pages-all i (p ∷ ps) good =
      simp (good.marshals (listed tsx p), good.enqs i) (rw (enq_pages-all (i + 1) ps good) refl)

  answer-all :
      (c : Split A) (xs : List A) → AllSucceed r → answer r tsx c xs ≡ calls_for tsx (pages c xs)
  unfolding answer
  answer-all c [] good =
      simp (good.marshals (listed tsx (record { is_last = true; infos = [] })))
        (unfold pages in refl)
  answer-all c (x ∷ xs) good = enq_pages-all 0 (pages c (x ∷ xs)) good

infos_of-calls_for {ℓ} :
    {A : Type ℓ} (tsx : ℕ) (ps : List (Page A)) → infos_of (calls_for tsx ps) ≡ all_infos ps
unfolding infos_of all_infos
infos_of-calls_for tsx [] = refl
infos_of-calls_for tsx (p ∷ ps) = ap (◌++◌ p.infos) (infos_of-calls_for tsx ps)

-- What a post and a channel count for in a response.
abbrev pub post_size : PostInfo → ℕ
post_size pi = length pi.content + length pi.thumbnails

abbrev pub chan_size : ChanInfo → ℕ
chan_size ci = length ci.avatar

post_split-IsExact : (max : ℕ) → max < 2 ^ 64 → IsExact (post_split max) post_size
post_split-IsExact max b = record {
  bounded = b;
  spends = λ left x fits lt. omega arith;
  needs = λ x fits. omega arith;
}

chan_split-IsExact : (max : ℕ) → max < 2 ^ 64 → IsExact (chan_split max) chan_size
chan_split-IsExact max b = record {
  bounded = b;
  spends = λ left x fits lt. omega arith;
  needs = λ x fits. refl;
}

-- The responses `ps` to a request hold the rows `xs`, in their order; the last of them, and no
-- other, is marked as the last; none has more than the limit.
pub record AreFor {A : Type 0} (size : A → ℕ) (max : ℕ) (xs : List A) (ps : List (Page A))
    : Type 0 where
  pub whole : all_infos ps ≡ xs
  pub last : marks_last ps ≡ true
  pub within : AllWithin size max ps

posts_calls :
    (r : Reading PostInfo) (orders : Orders PostRow) (req : GetPostsReq) (s : Server)
    (uinfo : UserInfo) (chan : Chan) (rows : List PostRow)
    → AllSucceed r
    → r.env.uinfo_of_token req.tk ≡ some uinfo
    → chan_get_by_id s req.chan_id ≡ some chan
    → db_iter_posts true orders req.chan_id req.qc s.db ≡ some rows
    → hdl_get_posts_req r orders req s
      ≡ calls_for req.tsx_id (pages (post_split r.max_content_len) (List.map listed_post rows))
unfolding hdl_get_posts_req finish_read
posts_calls r orders req s uinfo chan rows good user there found =
    simp (good.ready, user, there, good.query, found, good.steps) (answer-all r req.tsx_id _ _ good)

-- If every call succeeds, the user's token is valid, the channel is in memory and each post fits
-- into one response, then the calls of msgq_enq that get_posts makes are some responses that hold
-- all the rows of db_iter_posts, in their order, none above the limit, with the last one marked.
pub hdl_get_posts_req-AreFor :
    (r : Reading PostInfo) (orders : Orders PostRow) (req : GetPostsReq) (s : Server)
    (uinfo : UserInfo) (chan : Chan) (rows : List PostRow)
    → AllSucceed r
    → r.max_content_len < 2 ^ 64
    → r.env.uinfo_of_token req.tk ≡ some uinfo
    → chan_get_by_id s req.chan_id ≡ some chan
    → db_iter_posts true orders req.chan_id req.qc s.db ≡ some rows
    → EachWithin post_size r.max_content_len (List.map listed_post rows)
    → (ps : List (Page PostInfo)) × (hdl_get_posts_req r orders req s ≡ calls_for req.tsx_id ps)
      × AreFor post_size r.max_content_len (List.map listed_post rows) ps
hdl_get_posts_req-AreFor r orders req s uinfo chan rows good max user there found fit = (
  pages (post_split r.max_content_len) (List.map listed_post rows),
  posts_calls r orders req s uinfo chan rows good user there found,
  record {
    whole = all_infos-pages (post_split r.max_content_len) (List.map listed_post rows);
    last = marks_last-pages (post_split r.max_content_len) (List.map listed_post rows);
    within =
        pages-AllWithin (post_split r.max_content_len) post_size
          (post_split-IsExact r.max_content_len max) (List.map listed_post rows) fit;
  },
)

-- If every call succeeds, the user's token is valid, the channel is in memory, the request orders
-- by post_id, updated_at or created_at and sets no limit, and its bounds and that column of every
-- row are below 2 ^ 63, then the posts in the responses to get_posts are those of the rows of the
-- channel that are no declared post and whose column is at least the lower bound and, unless the
-- upper bound is 0, at most that, each shown without its bytes unless it is available: for any test
-- of a post, one in the responses passes it if and only if one of those rows does.
pub hdl_get_posts_req-is_between :
    (r : Reading PostInfo) (orders : Orders PostRow) (req : GetPostsReq) (s : Server)
    (uinfo : UserInfo) (chan : Chan) (col : PostRow → ℕ) (f : PostInfo → Bool)
    → AllSucceed r
    → KeepsRows orders
    → r.env.uinfo_of_token req.tk ≡ some uinfo
    → chan_get_by_id s req.chan_id ≡ some chan
    → ColumnOf req.qc.by col
    → req.qc.maxcnt ≡ 0
    → req.qc.lower < 2 ^ 63
    → req.qc.upper < 2 ^ 63
    → AllPositive col s.db.posts
    → has_row f (infos_of (hdl_get_posts_req r orders req s))
      ≡ has_row
          (λ row.
            (is_public_in req.chan_id row && is_between req.qc.lower req.qc.upper (col row))
            && f (shown row))
          s.db.posts
hdl_get_posts_req-is_between r orders req s uinfo chan col f good keeps user there by all low up
      small =
    let column = ColumnOf-query_column by in
    let (rows, found) = db_iter_posts_found orders req.chan_id req.qc s.db col column in
    let answered : infos_of (hdl_get_posts_req r orders req s) ≡ List.map listed_post rows =
      ap infos_of (posts_calls r orders req s uinfo chan rows good user there found)
      ∙ infos_of-calls_for req.tsx_id _
      ∙ all_infos-pages (post_split r.max_content_len) (List.map listed_post rows) in
    ap (has_row f) answered
    ∙ has_row-map f listed_post rows
    ∙ db_iter_posts_whole true orders keeps req.chan_id req.qc s.db (λ row. f (listed_post row))
        rows found col column all
    ∙ has_row_agree _ _ _ (is_listed_in-is_between req.chan_id req.qc col f low up) s.db.posts small

-- If every call succeeds, the user's token is valid and each avatar fits into one response, then
-- the calls of msgq_enq that get_channels makes are some responses that hold all the rows of
-- db_iter_chans, in their order, none above the limit, with the last one marked.
pub hdl_get_chans_req-AreFor :
    (r : Reading ChanInfo) (orders : Orders ChanRow) (req : GetChansReq) (s : Server)
    (uinfo : UserInfo) (rows : List ChanRow)
    → AllSucceed r
    → r.max_content_len < 2 ^ 64
    → r.env.uinfo_of_token req.tk ≡ some uinfo
    → db_iter_chans true orders req.qc s.db ≡ some rows
    → EachWithin chan_size r.max_content_len (List.map row2chan rows)
    → (ps : List (Page ChanInfo)) × (hdl_get_chans_req r orders req s ≡ calls_for req.tsx_id ps)
      × AreFor chan_size r.max_content_len (List.map row2chan rows) ps
unfolding hdl_get_chans_req finish_read
hdl_get_chans_req-AreFor r orders req s uinfo rows good max user found fit = (
  pages (chan_split r.max_content_len) (List.map row2chan rows),
  simp (good.ready, user, good.query, found, good.steps) (answer-all r req.tsx_id _ _ good),
  record {
    whole = all_infos-pages (chan_split r.max_content_len) (List.map row2chan rows);
    last = marks_last-pages (chan_split r.max_content_len) (List.map row2chan rows);
    within =
        pages-AllWithin (chan_split r.max_content_len) chan_size
          (chan_split-IsExact r.max_content_len max) (List.map row2chan rows) fit;
  },
)
