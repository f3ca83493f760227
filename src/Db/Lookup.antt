-- ===== src/Db/Lookup.antt =====
-- Lookups by primary key after a write to one row.
use mathlib.Core.Option
use feeds_service.Prelude.{ℕ, ◌≡◌, Bool, ◌&&◌, List, arith, inl, inr}
use feeds_service.Prelude.Tests.{◌==◌, if◌then◌else◌, Bool-cases}
use feeds_service.Prelude.Rows.{select, update, select-update_self, select-update_ne}
use feeds_service.Db.Tables.{PostRow, CmtRow, is_post, is_cmt}

abbrev pub post_key : ℕ → ℕ → ℕ → ℕ → Bool
post_key c p c' p' = c == c' && p == p'

abbrev pub cmt_key : ℕ → ℕ → ℕ → ℕ → ℕ → ℕ → Bool
cmt_key c p m c' p' m' = c == c' && (p == p' && m == m')

-- A write that leaves the primary key alone.
abbrev pub KeepsPostKey : (PostRow → PostRow) → Type 0
KeepsPostKey f = (c p : ℕ) (r : PostRow) → is_post c p (f r) ≡ is_post c p r

abbrev pub KeepsCmtKey : (CmtRow → CmtRow) → Type 0
KeepsCmtKey f = (c p m : ℕ) (r : CmtRow) → is_cmt c p m (f r) ≡ is_cmt c p m r

pub select-update_post :
    (f : PostRow → PostRow)
    → KeepsPostKey f
    → (c p c' p' : ℕ) (posts : List PostRow)
    → select (is_post c' p') (update (is_post c p) f posts) ≡ (
        if post_key c p c' p'
        then Option.map f (select (is_post c' p') posts)
        else select (is_post c' p') posts)
select-update_post f keep c p c' p' posts = elim (Bool-cases (post_key c p c' p')) [
  | inl e ↦
      let ec : c ≡ c' = ground arith in
      let ep : p ≡ p' = ground arith in
      rw (e, ← ec, ← ep) (select-update_self (is_post c p) (is_post c p) f (keep c p) posts)
  | inr e ↦
      rw e
        (select-update_ne (is_post c p) (is_post c' p') f (keep c' p') (λ r h. ground arith) posts)
]

pub select-update_cmt :
    (f : CmtRow → CmtRow)
    → KeepsCmtKey f
    → (c p m c' p' m' : ℕ) (cmts : List CmtRow)
    → select (is_cmt c' p' m') (update (is_cmt c p m) f cmts) ≡ (
        if cmt_key c p m c' p' m'
        then Option.map f (select (is_cmt c' p' m') cmts)
        else select (is_cmt c' p' m') cmts)
select-update_cmt f keep c p m c' p' m' cmts = elim (Bool-cases (cmt_key c p m c' p' m')) [
  | inl e ↦
      let ec : c ≡ c' = ground arith in
      let ep : p ≡ p' = ground arith in
      let em : m ≡ m' = ground arith in
      rw (e, ← ec, ← ep, ← em)
        (select-update_self (is_cmt c p m) (is_cmt c p m) f (keep c p m) cmts)
  | inr e ↦ rw e (
      select-update_ne (is_cmt c p m) (is_cmt c' p' m') f (keep c' p' m') (λ r h. ground arith)
        cmts)
]
