-- ===== src/Feeds/Transactions/Counted.antt =====
-- The columns `likes` of posts and comments against the rows of the table likes.
use mathlib.Core.Option
use mathlib.Core.Path.{subst}
use feeds_service.Prelude.{
  ℕ, ◌≡◌, ◌≢◌, ◌≤◌, ◌+◌, ◌-◌, ◌%◌, refl, ap, Bool, true, false, ◌&&◌, Option, none, some, List, ◌∷◌,
  arith, inl, inr,
}
use feeds_service.Prelude.Tests.{◌==◌, if◌then◌else◌, Bool-cases}
use feeds_service.Prelude.Words.{u64_mod, inc64, dec64, inc64-mod, dec64-mod}
use feeds_service.Prelude.Rows.{select, has_row, update, count, has_row-select}
use feeds_service.Db.Tables.{PostRow, CmtRow, LikeRow, is_post, is_cmt, is_like}
use feeds_service.Db.Lookup.{
  post_key, cmt_key, KeepsPostKey, KeepsCmtKey, select-update_post, select-update_cmt,
}

-- The likes of a post (m = 0) or of a comment, by whatever user.
abbrev pub is_like_of : ℕ → ℕ → ℕ → LikeRow → Bool
is_like_of c p m r = r.channel_id == c && (r.post_id == p && r.comment_id == m)

abbrev pub post_likes : ℕ → ℕ → List PostRow → Option ℕ
post_likes c p posts = Option.map (λ (r : PostRow). r.likes) (select (is_post c p) posts)

abbrev pub cmt_likes : ℕ → ℕ → ℕ → List CmtRow → Option ℕ
cmt_likes c p m cmts = Option.map (λ (r : CmtRow). r.likes) (select (is_cmt c p m) cmts)

-- A column follows a count, modulo 2^64; what is not there has no likes.
pub record Counts (column : Option ℕ) (n : ℕ) : Type 0 where
  pub missing : column ≡ none → n ≡ 0
  pub counted : (k : ℕ) → column ≡ some k → k ≡ n % u64_mod

-- A comment id 0 in the table likes means the post.
pub record LikesCounted (posts : List PostRow) (cmts : List CmtRow) (likes : List LikeRow)
    : Type 0 where
  pub of_post : (c p : ℕ) → Counts (post_likes c p posts) (count (is_like_of c p 0) likes)
  pub of_cmt : (c p m : ℕ) → m ≢ 0 → Counts (cmt_likes c p m cmts) (count (is_like_of c p m) likes)
  pub once : (u c p m : ℕ) → count (is_like u c p m) likes ≤ 1

-- A column of a row that may have been changed.
pub map-if :
    {R : Type 0} (g : R → ℕ) (f : R → R) (φ : ℕ → ℕ)
    → ((r : R) → g (f r) ≡ φ (g r))
    → (b : Bool) (o : Option R)
    → Option.map g (if b then Option.map f o else o)
      ≡ (if b then Option.map φ (Option.map g o) else Option.map g o)
map-if g f φ h false o = refl
map-if g f φ h true none = refl
map-if g f φ h true (some r) = ap some (h r)

pub map-same : (b : Bool) (o : Option ℕ) → (if b then Option.map (λ k. k) o else o) ≡ o
map-same false o = refl
map-same true none = refl
map-same true (some k) = refl

-- What a change of one row does to the column of any row.
pub post_likes-update :
    (f : PostRow → PostRow) (φ : ℕ → ℕ)
    → KeepsPostKey f
    → ((r : PostRow) → (f r).likes ≡ φ r.likes)
    → (c p c' p' : ℕ) (posts : List PostRow)
    → post_likes c' p' (update (is_post c p) f posts) ≡ (
        if post_key c p c' p'
        then Option.map φ (post_likes c' p' posts)
        else post_likes c' p' posts)
post_likes-update f φ key h c p c' p' posts =
    simp (select-update_post f key c p c' p' posts)
      (map-if (λ (r : PostRow). r.likes) f φ h (post_key c p c' p') (select (is_post c' p') posts))

pub cmt_likes-update :
    (f : CmtRow → CmtRow) (φ : ℕ → ℕ)
    → KeepsCmtKey f
    → ((r : CmtRow) → (f r).likes ≡ φ r.likes)
    → (c p m c' p' m' : ℕ) (cmts : List CmtRow)
    → cmt_likes c' p' m' (update (is_cmt c p m) f cmts) ≡ (
        if cmt_key c p m c' p' m'
        then Option.map φ (cmt_likes c' p' m' cmts)
        else cmt_likes c' p' m' cmts)
cmt_likes-update f φ key h c p m c' p' m' cmts =
    simp (select-update_cmt f key c p m c' p' m' cmts) (
      map-if (λ (r : CmtRow). r.likes) f φ h (cmt_key c p m c' p' m')
        (select (is_cmt c' p' m') cmts))

new_column : {n : ℕ} → Counts none n → Counts (some 0) n
new_column h = record {
  missing = λ e. ground arith;
  counted = λ k e. let z = h.missing refl in ground arith;
}

pub liked_column :
    {o : Option ℕ} {n : ℕ} → Counts o n → o ≢ none → Counts (Option.map inc64 o) (1 + n)
liked_column {o = none} h there = elim (there refl) [ ]
liked_column {o = some k} {n} h there = record {
  missing = λ e. ground arith;
  counted = λ j e. let z = h.counted k refl in let w = inc64-mod n in ground arith;
}

pub unliked_column :
    {o : Option ℕ} {n : ℕ} → Counts o n → 1 ≤ n → Counts (Option.map dec64 o) (n - 1)
unliked_column {o = none} h liked = record {
  missing = λ e. let z = h.missing refl in omega arith;
  counted = λ j e. ground arith;
}
unliked_column {o = some k} {n} h liked = record {
  missing = λ e. ground arith;
  counted = λ j e. let z = h.counted k refl in let w = dec64-mod n liked in ground arith;
}

module _ {posts : List PostRow} {cmts : List CmtRow} {likes : List LikeRow}
    (h : LikesCounted posts cmts likes) where
  pub post_kept :
      (f : PostRow → PostRow)
      → KeepsPostKey f
      → ((r : PostRow) → (f r).likes ≡ r.likes)
      → (c p : ℕ) → LikesCounted (update (is_post c p) f posts) cmts likes
  post_kept f key same c p = record {
    of_cmt = h.of_cmt;
    once = h.once;
    of_post = λ c' p'.
        simp
          (
            post_likes-update f (λ k. k) key same c p c' p' posts,
            map-same (post_key c p c' p') (post_likes c' p' posts),
          )
          (h.of_post c' p');
  }

  pub cmt_kept :
      (f : CmtRow → CmtRow)
      → KeepsCmtKey f
      → ((r : CmtRow) → (f r).likes ≡ r.likes)
      → (c p m : ℕ) → LikesCounted posts (update (is_cmt c p m) f cmts) likes
  cmt_kept f key same c p m = record {
    of_post = h.of_post;
    once = h.once;
    of_cmt = λ c' p' m' nz.
        simp
          (
            cmt_likes-update f (λ k. k) key same c p m c' p' m' cmts,
            map-same (cmt_key c p m c' p' m') (cmt_likes c' p' m' cmts),
          )
          (h.of_cmt c' p' m' nz);
  }

  pub post_new :
      (r : PostRow)
      → r.likes ≡ 0
      → has_row (is_post r.channel_id r.post_id) posts ≡ false
      → LikesCounted (r ∷ posts) cmts likes
  unfolding select
  post_new r zero fresh = record {
    of_cmt = h.of_cmt;
    once = h.once;
    of_post = λ c p. elim (Bool-cases (is_post c p r)) [
      | inl e ↦
          let ec : r.channel_id ≡ c = ground arith in
          let ep : r.post_id ≡ p = ground arith in
          let gone : select (is_post c p) posts ≡ none =
            subst (λ i. select (is_post i p) posts ≡ none) ec
              (subst (λ j. select (is_post r.channel_id j) posts ≡ none) ep
                (has_row-select (is_post r.channel_id r.post_id) posts fresh)) in
          let old : Counts none (count (is_like_of c p 0) likes) =
            subst
              (λ o.
                Counts (Option.map (λ (r : PostRow). r.likes) o) (count (is_like_of c p 0) likes))
              gone (h.of_post c p) in
          simp (e, zero) (new_column old)
      | inr e ↦ simp e (h.of_post c p)
    ];
  }

  pub cmt_new :
      (r : CmtRow)
      → r.likes ≡ 0
      → has_row (is_cmt r.channel_id r.post_id r.comment_id) cmts ≡ false
      → LikesCounted posts (r ∷ cmts) likes
  unfolding select
  cmt_new r zero fresh = record {
    of_post = h.of_post;
    once = h.once;
    of_cmt = λ c p m nz. elim (Bool-cases (is_cmt c p m r)) [
      | inl e ↦
          let ec : r.channel_id ≡ c = ground arith in
          let ep : r.post_id ≡ p = ground arith in
          let em : r.comment_id ≡ m = ground arith in
          let gone : select (is_cmt c p m) cmts ≡ none =
            subst (λ i. select (is_cmt i p m) cmts ≡ none) ec
              (subst (λ j. select (is_cmt r.channel_id j m) cmts ≡ none) ep
                (subst (λ k. select (is_cmt r.channel_id r.post_id k) cmts ≡ none) em
                  (has_row-select (is_cmt r.channel_id r.post_id r.comment_id) cmts fresh))) in
          let old : Counts none (count (is_like_of c p m) likes) =
            subst
              (λ o.
                Counts (Option.map (λ (r : CmtRow). r.likes) o) (count (is_like_of c p m) likes))
              gone (h.of_cmt c p m nz) in
          simp (e, zero) (new_column old)
      | inr e ↦ simp e (h.of_cmt c p m nz)
    ];
  }
