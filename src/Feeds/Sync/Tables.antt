-- ===== src/Feeds/Sync/Tables.antt =====
-- When the channels in memory are those of the database, and which writes to both keep it so.
use mathlib.Core.Option
use feeds_service.Prelude.{
  ℕ, ◌≡◌, refl, ap, sym, ◌∙◌, true, Option, none, some, List, ◌∷◌, arith, inl, inr,
}
use feeds_service.Prelude.Tests.{◌==◌, Bool-cases, ==_iff}
use feeds_service.Prelude.Words.{inc64}
use feeds_service.Prelude.Rows.{
  select, update, delete, select-update_self, select-update_ne, select-delete_ne, select-passes,
}
use feeds_service.Obj.{ChanInfo}
use feeds_service.Db.Tables.{ChanRow, is_chan}
use feeds_service.Feeds.State.{Server, Chan, is_chan_id}
use feeds_service.Feeds.Init.{row2chan}

-- `upd_at` is left out: a new channel takes it from uninitialised memory.
abbrev pub seen : ChanInfo → ChanInfo
seen i = record i { upd_at = 0 }

abbrev pub view_chan : Chan → ChanInfo
view_chan c = seen c.info

abbrev pub view_row : ChanRow → ChanInfo
view_row r = seen (row2chan r)

-- What a lookup by id finds in memory is what it finds in the database.
abbrev pub SameChans : List Chan → List ChanRow → Type 0
SameChans chans rows =
    (id : ℕ)
    → Option.map view_chan (select (is_chan_id id) chans)
      ≡ Option.map view_row (select (is_chan id) rows)

pub record IsSynced (s : Server) : Type 0 where
  pub chans : SameChans s.chans_by_id s.db.channels
  pub next : s.nxt_chan_id ≡ inc64 s.db.chan_seq

-- A write `f` that shows in the view as `w`.
abbrev Shows {ℓ} : {A : Type ℓ} → (A → ChanInfo) → (A → A) → (ChanInfo → ChanInfo) → Type ℓ
Shows {A = A} view f w = (a : A) → view (f a) ≡ w (view a)

map-Shows {ℓ} :
    {A : Type ℓ} (view : A → ChanInfo) (f : A → A) (w : ChanInfo → ChanInfo)
    → Shows view f w
    → (o : Option A) → Option.map view (Option.map f o) ≡ Option.map w (Option.map view o)
map-Shows view f w h none = refl
map-Shows view f w h (some a) = ap some (h a)

module _ (i : ℕ) (f : Chan → Chan) (g : ChanRow → ChanRow) (w : ChanInfo → ChanInfo)
    (hf : Shows view_chan f w) (hg : Shows view_row g w)
    (hw : (x : ChanInfo) → (w x).chan_id ≡ x.chan_id) where
  id_of_chan : (c : Chan) → (f c).info.chan_id ≡ c.info.chan_id
  id_of_chan c = ap (λ (x : ChanInfo). x.chan_id) (hf c) ∙ hw (view_chan c)

  id_of_row : (r : ChanRow) → (g r).channel_id ≡ r.channel_id
  unfolding row2chan
  id_of_row r = ap (λ (x : ChanInfo). x.chan_id) (hg r) ∙ hw (view_row r)

  -- The same write to the channel of one id on both sides.
  pub SameChans-update :
      (chans : List Chan) (rows : List ChanRow)
      → SameChans chans rows
      → SameChans (update (is_chan_id i) f chans) (update (is_chan i) g rows)
  SameChans-update chans rows same id = elim (Bool-cases (i == id)) [
    | inl e ↦
        let ie : i ≡ id = (==_iff i id).0 e in
        rw (← ie) (
          rw
            (
              select-update_self (is_chan_id i) (is_chan_id i) f
                  (λ c. ap (λ n. n == i) (id_of_chan c)) chans,
              select-update_self (is_chan i) (is_chan i) g (λ r. ap (λ n. n == i) (id_of_row r))
                  rows,
              map-Shows view_chan f w hf (select (is_chan_id i) chans),
              map-Shows view_row g w hg (select (is_chan i) rows),
            )
            (ap (Option.map w) (same i)))
    | inr e ↦
        rw
          (
            select-update_ne (is_chan_id i) (is_chan_id id) f
                (λ c. ap (λ n. n == id) (id_of_chan c)) (λ c h. ground arith) chans,
            select-update_ne (is_chan i) (is_chan id) g (λ r. ap (λ n. n == id) (id_of_row r))
                (λ r h. ground arith) rows,
          )
          (same id)
  ]

map-id {ℓ} : {A : Type ℓ} (o : Option A) → Option.map (λ x. x) o ≡ o
map-id none = refl
map-id (some a) = refl

-- A write in memory alone that does not show.
pub SameChans-hidden :
    (i : ℕ) (f : Chan → Chan)
    → ((c : Chan) → view_chan (f c) ≡ view_chan c)
    → (chans : List Chan) (rows : List ChanRow) → SameChans chans rows
    → SameChans (update (is_chan_id i) f chans) rows
SameChans-hidden i f h chans rows same id = elim (Bool-cases (i == id)) [
  | inl e ↦
      let ie : i ≡ id = (==_iff i id).0 e in
      rw (← ie) (
        rw
          (
            select-update_self (is_chan_id i) (is_chan_id i) f
                (λ c. ap (λ (x : ChanInfo). x.chan_id == i) (h c)) chans,
            map-Shows view_chan f (λ x. x) h (select (is_chan_id i) chans),
            map-id (Option.map view_chan (select (is_chan_id i) chans)),
          )
          (same i))
  | inr e ↦
      rw
        (select-update_ne (is_chan_id i) (is_chan_id id) f
          (λ c. ap (λ (x : ChanInfo). x.chan_id == id) (h c)) (λ c p. ground arith) chans)
        (same id)
]

-- A new channel, with the same view and id on both sides.
pub SameChans-put :
    (c : Chan) (r : ChanRow) (chans : List Chan) (rows : List ChanRow)
    → view_chan c ≡ view_row r
    → SameChans chans rows
    → SameChans (c ∷ delete (is_chan_id c.info.chan_id) chans) (r ∷ rows)
unfolding select row2chan
SameChans-put c r chans rows e same id =
    let ids : r.channel_id ≡ c.info.chan_id = sym (ap (λ (x : ChanInfo). x.chan_id) e) in
    elim (Bool-cases (c.info.chan_id == id)) [
      | inl hit ↦ let hit' : (r.channel_id == id) ≡ true = rw ids hit in rw (hit, hit') (ap some e)
      | inr miss ↦
          rw
            (
              ids,
              miss,
              select-delete_ne (is_chan_id c.info.chan_id) (is_chan_id id) (λ d h. ground arith)
                  chans,
            )
            (same id)
    ]

-- A channel that is replaced in memory and rewritten in the database.
pub SameChans-replace :
    (c upd : Chan) (g : ChanRow → ChanRow) (chans : List Chan) (rows : List ChanRow)
    → select (is_chan_id upd.info.chan_id) chans ≡ some c
    → ((r : ChanRow) → (g r).channel_id ≡ r.channel_id)
    → ((r : ChanRow) → view_chan c ≡ view_row r → view_row (g r) ≡ view_chan upd)
    → SameChans chans rows
    → SameChans
        (upd ∷ delete (is_chan_id upd.info.chan_id) (delete (is_chan_id c.info.chan_id) chans))
        (update (is_chan upd.info.chan_id) g rows)
unfolding select
SameChans-replace c upd g chans rows found keeps shows same id =
    let i = upd.info.chan_id in
    let ci : c.info.chan_id ≡ i =
      (==_iff c.info.chan_id i).0 (select-passes (is_chan_id i) chans {r = c} found) in
    elim (Bool-cases (i == id)) [
      | inl hit ↦
          rw
            (
              hit,
              ← (==_iff i id).0 hit,
              select-update_self (is_chan i) (is_chan i) g (λ r. ap (λ n. n == i) (keeps r)) rows,
            )
            (replaced (select (is_chan i) rows) (rw found at (same i)))
      | inr miss ↦
          rw
            (
              ci,
              miss,
              select-delete_ne (is_chan_id i) (is_chan_id id) (λ d h. ground arith)
                  (delete (is_chan_id i) chans),
              select-delete_ne (is_chan_id i) (is_chan_id id) (λ d h. ground arith) chans,
              select-update_ne (is_chan i) (is_chan id) g (λ r. ap (λ n. n == id) (keeps r))
                  (λ r h. ground arith) rows,
            )
            (same id)
    ]
  where
    replaced :
        (o : Option ChanRow)
        → Option.map view_chan (some c) ≡ Option.map view_row o
        → some (view_chan upd) ≡ Option.map view_row (Option.map g o)
    replaced none h = cc
    replaced (some r) h = ap some (sym (shows r (ground arith)))
