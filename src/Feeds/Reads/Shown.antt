-- ===== src/Feeds/Reads/Shown.antt =====
-- What the requests that list channels and posts answer, whichever calls fail.
use feeds_service.Prelude.{
  ℕ, ◌+◌, ◌≡◌, refl, sym, ◌∙◌, Bool, true, false, ◌&&◌, ◌||◌, Option, none, some, List, [], ◌∷◌,
  ◌++◌, arith, inl, inr,
}
use mathlib.Core.List
use feeds_service.Prelude.Tests.{Bool-cases}
use feeds_service.Prelude.Rows.{has_row}
use feeds_service.Obj.{PostInfo}
use feeds_service.Db.Tables.{PostRow}
use feeds_service.Db.Listings.{Orders, db_iter_posts, listed_post}
use feeds_service.Db.Listed.{KeepsRows, has_row-weaken, is_listed_in, db_iter_posts_sound}
use feeds_service.Db.Shown.{shown, is_public_in, is_listed_in-shown}
use feeds_service.Feeds.State.{Server, Exit, ret, quit, fail, abort, chan_get_by_id}
use feeds_service.Feeds.Rules.Exits.{
  Leaves, Leaves-ret, Leaves-ready, Leaves-require, Leaves-or_fail,
}
use feeds_service.Feeds.Reads.Pages.{Page, Split, pages, all_infos, all_infos-pages}
use feeds_service.Feeds.Reads.Defs.{
  Reply, refused, listed, Reading, enq_pages, answer, finish_read, post_split, GetPostsReq,
  hdl_get_posts_req,
}

-- The rows in the responses of some calls of msgq_enq.
unfoldable pub infos_of {ℓ} : {A : Type ℓ} → List (Option (Reply A)) → List A
infos_of [] = []
infos_of (none ∷ calls) = infos_of calls
infos_of (some (refused tsx e) ∷ calls) = infos_of calls
infos_of (some (listed tsx p) ∷ calls) = p.infos ++ infos_of calls

module _ {ℓ} {A : Type ℓ} (f : A → Bool) where
  has_row-append : (xs ys : List A) → has_row f (xs ++ ys) ≡ (has_row f xs || has_row f ys)
  unfolding has_row
  has_row-append [] ys = refl
  has_row-append (x ∷ xs) ys = ground (arith, has_row-append xs ys)

  pub has_row-map {κ} :
      {B : Type κ} (g : B → A) (rs : List B) → has_row f (List.map g rs) ≡ has_row (λ r. f (g r)) rs
  unfolding has_row
  has_row-map g [] = refl
  has_row-map g (r ∷ rs) = ground (arith, has_row-map g rs)

  module _ (r : Reading A) (tsx : ℕ) where
    has_nothing : has_row f [] ≡ false
    unfolding has_row
    has_nothing = refl

    has_row-enq_pages :
        (i : ℕ) (ps : List (Page A))
        → has_row f (infos_of (enq_pages r tsx i ps)) ≡ true
        → has_row f (all_infos ps) ≡ true
    unfolding enq_pages infos_of all_infos
    has_row-enq_pages i [] h = h
    has_row-enq_pages i (p ∷ ps) h =
        has_row-append p.infos (all_infos ps)
        ∙ rest (r.marshal_ok (listed tsx p)) refl (r.enq_ok i) refl (has_row-enq_pages (i + 1) ps)
      where
        rest :
            (m : Bool)
            → r.marshal_ok (listed tsx p) ≡ m
            → (n : Bool) → r.enq_ok i ≡ n
            → (has_row f (infos_of (enq_pages r tsx (i + 1) ps)) ≡ true
                → has_row f (all_infos ps) ≡ true)
            → (has_row f p.infos || has_row f (all_infos ps)) ≡ true
        rest true em true en ih = ground (
          arith,
          simp (em, en) at h,
          has_row-append p.infos (infos_of (enq_pages r tsx (i + 1) ps)),
          ih,
        )
        rest true em false en ih =
            ground (arith, simp (em, en) at h, has_row-append p.infos [], has_nothing)
        rest false em true en ih = ground (arith, ih (simp (em, en) at h))
        rest false em false en ih = ground (arith, has_nothing, simp (em, en) at h)

    has_row-answer :
        (c : Split A) (xs : List A)
        → has_row f (infos_of (answer r tsx c xs)) ≡ true
        → has_row f xs ≡ true
    unfolding answer infos_of
    has_row-answer c [] h =
        elim (Bool-cases (r.marshal_ok (listed tsx (record { is_last = true; infos = [] })))) [
          | inl m ↦ simp m at h
          | inr m ↦ simp m at h
        ]
    has_row-answer c (x ∷ xs) h =
        rw (sym (all_infos-pages c (x ∷ xs))) (has_row-enq_pages 0 (pages c (x ∷ xs)) h)

    -- Of the state nothing is said: it is left as it was.
    has_row-finish_read :
        (q : Bool) (m : Exit (List (Option (Reply A))))
        → Leaves (λ s. Unit {0}) (λ calls. has_row f (infos_of calls) ≡ true → q ≡ true) m
        → has_row f (infos_of (finish_read r tsx m)) ≡ true
        → q ≡ true
    unfolding finish_read infos_of has_row
    has_row-finish_read q (ret calls) l h = l.at h
    has_row-finish_read q (quit s) l h = ground arith
    has_row-finish_read q (fail s e) l h = elim (Bool-cases (r.marshal_ok (refused tsx e))) [
      | inl m ↦ let no_row : false ≡ true = simp m at h in ground arith
      | inr m ↦ let no_row : false ≡ true = simp m at h in ground arith
    ]
    has_row-finish_read q (abort s) l h = ground arith

-- Whichever calls of get_posts fail, every post in its responses is that of a row of the channel
-- which is no declared post, with the ids, the status, the times, the counters and the strings of
-- the row, and with the content and the thumbnails of the row if the post is available, with
-- neither if it is not: a test that some post in the responses passes, such a row passes.
pub infos_of-hdl_get_posts_req :
    (r : Reading PostInfo) (orders : Orders PostRow) (req : GetPostsReq) (s : Server)
    (f : PostInfo → Bool)
    → KeepsRows orders
    → has_row f (infos_of (hdl_get_posts_req r orders req s)) ≡ true
    → has_row (λ row. is_public_in req.chan_id row && f (shown row)) s.db.posts ≡ true
unfolding hdl_get_posts_req
infos_of-hdl_get_posts_req r orders req s f keeps =
    has_row-finish_read f r req.tsx_id
      (has_row (λ row. is_public_in req.chan_id row && f (shown row)) s.db.posts) _
      (Leaves-ready r.env s _ tt (
        Leaves-or_fail (r.env.uinfo_of_token req.tk) s _ _ tt λ uinfo _.
          Leaves-or_fail (chan_get_by_id s req.chan_id) s _ _ tt λ chan _.
            Leaves-or_fail (db_iter_posts r.query_ok orders req.chan_id req.qc s.db) s _ _ tt
              λ rows is. Leaves-require r.steps_ok s _ _ tt λ _. Leaves-ret _ λ h.
                let all =
                  has_row-answer f r req.tsx_id (post_split r.max_content_len)
                    (List.map listed_post rows) h in
                has_row-weaken (λ row. is_listed_in req.chan_id row && f (listed_post row))
                  (λ row. is_public_in req.chan_id row && f (shown row)) s.db.posts
                  (λ row h. sym (is_listed_in-shown req.chan_id row f) ∙ h)
                  (db_iter_posts_sound r.query_ok orders keeps req.chan_id req.qc s.db
                    (λ row. f (listed_post row)) rows is
                    (sym (has_row-map f listed_post rows) ∙ all))))
