-- ===== src/Feeds/Transactions/Liked.antt =====
-- A like more, or a like less.
use mathlib.Core.Option
use mathlib.Core.Path.{subst}
use feeds_service.Prelude.{
  ℕ, ◌≡◌, ◌≢◌, ◌≤◌, ◌-◌, refl, true, false, none, List, ◌∷◌, arith, inl, inr,
}
use feeds_service.Prelude.Tests.{Bool-cases}
use feeds_service.Prelude.Words.{inc64, dec64}
use feeds_service.Prelude.Rows.{
  has_row, update, delete, count, has_row-count, count-has_row, count-delete_sub, count-delete_ne,
  count-delete-le, count-hit, count-miss,
}
use feeds_service.Db.Tables.{PostRow, CmtRow, LikeRow, is_post, is_cmt, is_like}
use feeds_service.Db.Lookup.{post_key, cmt_key}
use feeds_service.Db.Comments.{like_post, like_cmt, unlike_post, unlike_cmt}
use feeds_service.Feeds.Transactions.Counted.{
  LikesCounted, Counts, is_like_of, post_likes, cmt_likes, post_likes-update, cmt_likes-update,
  liked_column, unliked_column,
}

module _ {posts : List PostRow} {cmts : List CmtRow} {likes : List LikeRow}
    (h : LikesCounted posts cmts likes) where
  once_more :
      (r : LikeRow)
      → has_row (is_like r.user_id r.channel_id r.post_id r.comment_id) likes ≡ false
      → (u c p m : ℕ) → count (is_like u c p m) (r ∷ likes) ≤ 1
  once_more r fresh u c p m = elim (Bool-cases (is_like u c p m r)) [
    | inl e ↦
        let none_yet =
          has_row-count (is_like r.user_id r.channel_id r.post_id r.comment_id) likes fresh in
        let eu : r.user_id ≡ u = ground arith in
        let ec : r.channel_id ≡ c = ground arith in
        let ep : r.post_id ≡ p = ground arith in
        let em : r.comment_id ≡ m = ground arith in
        let zero : count (is_like u c p m) likes ≡ 0 = simp (← eu, ← ec, ← ep, ← em) none_yet in
        simp (count-hit (is_like u c p m) r likes e, zero) (omega arith)
    | inr e ↦ simp (count-miss (is_like u c p m) r likes e) (h.once u c p m)
  ]

  pub like_post_counted :
      (r : LikeRow)
      → r.comment_id ≡ 0
      → has_row (is_like r.user_id r.channel_id r.post_id r.comment_id) likes ≡ false
      → post_likes r.channel_id r.post_id posts ≢ none
      → LikesCounted (update (is_post r.channel_id r.post_id) like_post posts) cmts (r ∷ likes)
  like_post_counted r on_post fresh there = record {
    of_post = λ c p. elim (Bool-cases (post_key r.channel_id r.post_id c p)) [
      | inl e ↦
          let ec : r.channel_id ≡ c = ground arith in
          let ep : r.post_id ≡ p = ground arith in
          let there' : post_likes c p posts ≢ none = simp (← ec, ← ep) there in
          let mine : is_like_of c p 0 r ≡ true = ground arith in
          simp
            (
              post_likes-update like_post inc64 (λ c p r. refl) (λ r. refl) r.channel_id r.post_id c
                  p posts,
              e,
              count-hit (is_like_of c p 0) r likes mine,
            )
            (liked_column (h.of_post c p) there')
      | inr e ↦
          let other : is_like_of c p 0 r ≡ false = ground arith in
          simp
            (
              post_likes-update like_post inc64 (λ c p r. refl) (λ r. refl) r.channel_id r.post_id c
                  p posts,
              e,
              count-miss (is_like_of c p 0) r likes other,
            )
            (h.of_post c p)
    ];
    of_cmt = λ c p m nz.
        let other : is_like_of c p m r ≡ false = ground arith in
        simp (count-miss (is_like_of c p m) r likes other) (h.of_cmt c p m nz);
    once = once_more r fresh;
  }

  pub like_cmt_counted :
      (r : LikeRow)
      → r.comment_id ≢ 0
      → has_row (is_like r.user_id r.channel_id r.post_id r.comment_id) likes ≡ false
      → cmt_likes r.channel_id r.post_id r.comment_id cmts ≢ none
      → LikesCounted posts
          (update (is_cmt r.channel_id r.post_id r.comment_id) like_cmt cmts)
          (r ∷ likes)
  like_cmt_counted r on_cmt fresh there = record {
    of_post = λ c p.
        let other : is_like_of c p 0 r ≡ false = ground arith in
        simp (count-miss (is_like_of c p 0) r likes other) (h.of_post c p);
    of_cmt = λ c p m nz. elim (Bool-cases (cmt_key r.channel_id r.post_id r.comment_id c p m)) [
      | inl e ↦
          let ec : r.channel_id ≡ c = ground arith in
          let ep : r.post_id ≡ p = ground arith in
          let em : r.comment_id ≡ m = ground arith in
          let there' : cmt_likes c p m cmts ≢ none = simp (← ec, ← ep, ← em) there in
          let mine : is_like_of c p m r ≡ true = ground arith in
          simp
            (
              cmt_likes-update like_cmt inc64 (λ c p m r. refl) (λ r. refl) r.channel_id r.post_id
                  r.comment_id c p m cmts,
              e,
              count-hit (is_like_of c p m) r likes mine,
            )
            (liked_column (h.of_cmt c p m nz) there')
      | inr e ↦
          let other : is_like_of c p m r ≡ false = ground arith in
          simp
            (
              cmt_likes-update like_cmt inc64 (λ c p m r. refl) (λ r. refl) r.channel_id r.post_id
                  r.comment_id c p m cmts,
              e,
              count-miss (is_like_of c p m) r likes other,
            )
            (h.of_cmt c p m nz)
    ];
    once = once_more r fresh;
  }

  one_less :
      (u c p m : ℕ)
      → has_row (is_like u c p m) likes ≡ true
      → (1 ≤ count (is_like_of c p m) likes)
        × (count (is_like_of c p m) (delete (is_like u c p m) likes)
            ≡ count (is_like_of c p m) likes - 1)
  one_less u c p m liked =
      let split =
        count-delete_sub (is_like u c p m) (is_like_of c p m) (λ r e. ground arith) likes in
      let some_like = count-has_row (is_like u c p m) likes liked in
      let at_most = h.once u c p m in (omega arith, omega arith)

  once_less :
      (u c p m u' c' p' m' : ℕ) → count (is_like u' c' p' m') (delete (is_like u c p m) likes) ≤ 1
  once_less u c p m u' c' p' m' =
      let less = count-delete-le (is_like u c p m) (is_like u' c' p' m') likes in
      let at_most = h.once u' c' p' m' in omega arith

  pub unlike_post_counted :
      (u c p : ℕ)
      → has_row (is_like u c p 0) likes ≡ true
      → LikesCounted (update (is_post c p) unlike_post posts) cmts (delete (is_like u c p 0) likes)
  unlike_post_counted u c p liked = record {
    of_post = λ c' p'. elim (Bool-cases (post_key c p c' p')) [
      | inl e ↦
          let ec : c ≡ c' = ground arith in
          let ep : p ≡ p' = ground arith in
          let less = one_less u c p 0 liked in
          simp (post_likes-update unlike_post dec64 (λ c p r. refl) (λ r. refl) c p c' p' posts, e)
            (subst
              (λ x.
                Counts (Option.map dec64 (post_likes x p' posts))
                  (count (is_like_of x p' 0) (delete (is_like u c p 0) likes)))
              ec
              (subst
                (λ y.
                  Counts (Option.map dec64 (post_likes c y posts))
                    (count (is_like_of c y 0) (delete (is_like u c p 0) likes)))
                ep (simp (less.1) (unliked_column (h.of_post c p) (less.0)))))
      | inr e ↦
          simp
            (
              post_likes-update unlike_post dec64 (λ c p r. refl) (λ r. refl) c p c' p' posts,
              e,
              count-delete_ne (is_like u c p 0) (is_like_of c' p' 0) (λ r d. ground arith) likes,
            )
            (h.of_post c' p')
    ];
    of_cmt = λ c' p' m' nz.
        simp (count-delete_ne (is_like u c p 0) (is_like_of c' p' m') (λ r d. ground arith) likes)
          (h.of_cmt c' p' m' nz);
    once = once_less u c p 0;
  }

  pub unlike_cmt_counted :
      (u c p m : ℕ)
      → m ≢ 0
      → has_row (is_like u c p m) likes ≡ true
      → LikesCounted posts (update (is_cmt c p m) unlike_cmt cmts) (delete (is_like u c p m) likes)
  unlike_cmt_counted u c p m on_cmt liked = record {
    of_post = λ c' p'.
        simp (count-delete_ne (is_like u c p m) (is_like_of c' p' 0) (λ r d. ground arith) likes)
          (h.of_post c' p');
    of_cmt = λ c' p' m' nz. elim (Bool-cases (cmt_key c p m c' p' m')) [
      | inl e ↦
          let ec : c ≡ c' = ground arith in
          let ep : p ≡ p' = ground arith in
          let em : m ≡ m' = ground arith in
          let less = one_less u c p m liked in
          simp
            (cmt_likes-update unlike_cmt dec64 (λ c p m r. refl) (λ r. refl) c p m c' p' m' cmts, e)
            (subst
              (λ x.
                Counts (Option.map dec64 (cmt_likes x p' m' cmts))
                  (count (is_like_of x p' m') (delete (is_like u c p m) likes)))
              ec
              (subst
                (λ y.
                  Counts (Option.map dec64 (cmt_likes c y m' cmts))
                    (count (is_like_of c y m') (delete (is_like u c p m) likes)))
                ep
                (subst
                  (λ z.
                    Counts (Option.map dec64 (cmt_likes c p z cmts))
                      (count (is_like_of c p z) (delete (is_like u c p m) likes)))
                  em (simp (less.1) (unliked_column (h.of_cmt c p m on_cmt) (less.0))))))
      | inr e ↦
          simp
            (
              cmt_likes-update unlike_cmt dec64 (λ c p m r. refl) (λ r. refl) c p m c' p' m' cmts,
              e,
              count-delete_ne (is_like u c p m) (is_like_of c' p' m') (λ r d. ground arith) likes,
            )
            (h.of_cmt c' p' m' nz)
    ];
    once = once_less u c p m;
  }
