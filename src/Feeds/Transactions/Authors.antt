-- ===== src/Feeds/Transactions/Authors.antt =====
-- Who wrote a comment.
use mathlib.Core.Path.{subst}
use feeds_service.Prelude.{ℕ, ◌≡◌, refl, sym, ◌∙◌, false, some, none, List, ◌∷◌, arith, inl, inr}
use feeds_service.Prelude.Tests.{◌==◌, Bool-cases}
use feeds_service.Prelude.Rows.{select, update, has_row, has_row-select, select-miss}
use feeds_service.Db.Tables.{Db, PostRow, CmtRow, is_cmt}
use feeds_service.Db.Lookup.{cmt_key, KeepsCmtKey, select-update_cmt}
use feeds_service.Db.Comments.{
  new_cmt_row, upd_cmt_row, set_cmt_row_status, update_likes, like_post, like_cmt, unlike_post,
  unlike_cmt,
}
use feeds_service.Db.Frames.{
  db_add_post_frame, db_upd_post_frame, db_set_post_status_frame, db_upd_cmt_frame,
  db_set_cmt_status_frame, db_add_like_frame, db_rm_like_frame, db_add_reported_cmts_frame,
  db_create_chan_frame, db_upd_chan_frame, db_add_sub_frame, db_unsub_frame,
  db_update_user_info_frame,
}
use feeds_service.Feeds.State.{Server}
use feeds_service.Feeds.Dispatch.{Event, run}
use feeds_service.Feeds.Transactions.Defs.{
  Transaction, author_of, chan_created, chan_updated, user_updated, post_added, post_updated,
  post_status_set, cmt_added, cmt_updated, cmt_status_set, like_added, like_removed, sub_added,
  sub_removed, cmt_reported,
}
use feeds_service.Feeds.Transactions.Run.{run-db_keeps}
use feeds_service.Feeds.Transactions.Counted.{map-if, map-same}
use feeds_service.Feeds.Transactions.Likes.{db_add_cmt-CmtAdded}

module _ (c p m uid : ℕ) where
  along_comments :
      (db db' : Db) → db' ≡ db → author_of c p m db ≡ some uid → author_of c p m db' ≡ some uid
  along_comments db db' e h = subst (λ d. author_of c p m d ≡ some uid) (sym e) h

  -- A write that leaves the key and the author alone.
  author_kept :
      (f : CmtRow → CmtRow) (c' p' m' : ℕ) (db : Db)
      → KeepsCmtKey f
      → ((r : CmtRow) → (f r).user_id ≡ r.user_id)
      → author_of c p m db ≡ some uid
      → author_of c p m (record db { comments = update (is_cmt c' p' m') f db.comments }) ≡ some uid
  author_kept f c' p' m' db key same h = simp (select-update_cmt f key c' p' m' c p m db.comments) (
      map-if (λ (r : CmtRow). r.user_id) f (λ k. k) same (cmt_key c' p' m' c p m)
        (select (is_cmt c p m) db.comments)
      ∙ map-same (cmt_key c' p' m' c p m) (author_of c p m db)
      ∙ h)

  author_of_others :
      (r : CmtRow) (db : Db)
      → has_row (is_cmt r.channel_id r.post_id r.comment_id) db.comments ≡ false
      → author_of c p m db ≡ some uid
      → author_of c p m (record db { comments = r ∷ db.comments }) ≡ some uid
  author_of_others r db fresh h = elim (Bool-cases (is_cmt c p m r)) [
    | inl e ↦
        let ec : r.channel_id ≡ c = ground arith in
        let ep : r.post_id ≡ p = ground arith in
        let em : r.comment_id ≡ m = ground arith in
        let gone = has_row-select (is_cmt r.channel_id r.post_id r.comment_id) db.comments fresh in
        let gone' : select (is_cmt c p m) db.comments ≡ none = simp (← ec, ← ep, ← em) gone in
        ground arith
    | inr e ↦ simp (select-miss (is_cmt c p m) r db.comments e) h
  ]

  likes_keep_author :
      (f : PostRow → PostRow) (g : CmtRow → CmtRow) (c' p' m' : ℕ) (db : Db)
      → KeepsCmtKey g
      → ((r : CmtRow) → (g r).user_id ≡ r.user_id)
      → author_of c p m db ≡ some uid
      → author_of c p m (update_likes f g c' p' m' db) ≡ some uid
  unfolding update_likes
  likes_keep_author f g c' p' m' db key same h = elim (Bool-cases (m' == 0)) [
    | inl e ↦ simp e h
    | inr e ↦ simp e (author_kept g c' p' m' db key same h)
  ]

  same_author :
      (db db' : Db)
      → Transaction db db'
      → author_of c p m db ≡ some uid
      → author_of c p m db' ≡ some uid
  same_author db db' (chan_created done ci few e) h =
      along_comments _ _ (db_create_chan_frame done db ci e) h
  same_author db db' (chan_updated done ci e) h =
      along_comments _ _ (db_upd_chan_frame done db ci e) h
  same_author db db' (user_updated done now ui e) h =
      along_comments _ _ (db_update_user_info_frame done db now ui e) h
  same_author db db' (post_added done pi e) h =
      along_comments _ _ (db_add_post_frame done db pi e) h
  same_author db db' (post_updated done pi _ e) h =
      along_comments _ _ (db_upd_post_frame done db pi e) h
  same_author db db' (post_status_set done pi _ e) h =
      along_comments _ _ (db_set_post_status_frame done db pi e) h
  same_author db db' (cmt_added done ci e) h =
      let a = db_add_cmt-CmtAdded done ci db e in
      along_comments _ _ a.frame (author_of_others (new_cmt_row a.id ci) db a.fresh h)
  same_author db db' (cmt_updated done ci _ e) h =
      along_comments _ _ (db_upd_cmt_frame done db ci e)
        (author_kept (upd_cmt_row ci) _ _ _ db (λ c p m r. refl) (λ r. refl) h)
  same_author db db' (cmt_status_set done ci _ e) h =
      along_comments _ _ (db_set_cmt_status_frame done db ci e)
        (author_kept (set_cmt_row_status ci) _ _ _ db (λ c p m r. refl) (λ r. refl) h)
  same_author db db' (like_added done now u c' p' m' proof e) h =
      along_comments _ _ (db_add_like_frame done db now u c' p' m' proof e)
        (likes_keep_author like_post like_cmt c' p' m' db (λ c p m r. refl) (λ r. refl) h)
  same_author db db' (like_removed done u c' p' m' _ e) h =
      along_comments _ _ (db_rm_like_frame done db u c' p' m' e)
        (likes_keep_author unlike_post unlike_cmt c' p' m' db (λ c p m r. refl) (λ r. refl) h)
  same_author db db' (sub_added done now u c' proof e) h =
      along_comments _ _ (db_add_sub_frame done db now u c' proof e) h
  same_author db db' (sub_removed done u c' _ e) h =
      along_comments _ _ (db_unsub_frame done db u c' e) h
  same_author db db' (cmt_reported done now c' p' m' u reason e) h =
      along_comments _ _ (db_add_reported_cmts_frame done db now c' p' m' u reason e) h

-- A comment that is in the database, by some user, is there and by that user after any events.
pub run-author_of :
    (c p m uid : ℕ) (es : List Event) (s : Server)
    → author_of c p m s.db ≡ some uid
    → author_of c p m (run es s).db ≡ some uid
run-author_of c p m uid = run-db_keeps (λ db. author_of c p m db ≡ some uid) (same_author c p m uid)
