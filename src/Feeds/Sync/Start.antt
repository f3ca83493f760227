-- ===== src/Feeds/Sync/Start.antt =====
-- src/feeds.c, feeds_init: the channels in memory when the service starts.
use mathlib.Core.Option
use feeds_service.Prelude.{
  ℕ, ◌≡◌, ◌≤◌, ◌<◌, ◌+◌, refl, ◌∙◌, Bool, true, false, Option, none, some, List, [], ◌∷◌, arith,
  inl, inr, zero, suc,
}
use feeds_service.Prelude.Tests.{if◌then◌else◌, Bool-cases, leb}
use feeds_service.Prelude.Words.{u64_mod, inc64-eq}
use feeds_service.Prelude.Rows.{select, count, select-delete_ne, count-hit, count-miss, select-none}
use feeds_service.Obj.{ChanInfo}
use feeds_service.Db.Tables.{Db, ChanRow, is_chan}
use feeds_service.Feeds.State.{Server, chan_put, is_chan_id}
use feeds_service.Feeds.Init.{row2chan, load_chan, load_chans, blank_server, feeds_init}
use feeds_service.Feeds.Dispatch.{Event, run}
use feeds_service.Feeds.Sync.Tables.{IsSynced, view_chan, view_row}
use feeds_service.Feeds.Sync.Run.{run-IsSynced}

-- The rounds of the loop when none of them fails.
load_all : List ChanRow → Server → Server
load_all [] s = s
load_all (r ∷ rows) s = load_all rows (load_chan r s)

load_chans-total :
    (budget : ℕ) (create : ChanRow → Bool) (rows : List ChanRow) (s : Server)
    → count (λ _. true) rows ≤ budget
    → ((r : ChanRow) → create r ≡ true)
    → load_chans budget create rows s ≡ some (load_all rows s)
unfolding load_chans load_all count
load_chans-total zero create [] s enough ok = refl
load_chans-total zero create (r ∷ rows) s enough ok = ground arith
load_chans-total (suc budget) create [] s enough ok = refl
load_chans-total (suc budget) create (r ∷ rows) s enough ok =
    let fewer : count (λ _. true) rows ≤ budget = omega arith in
    simp (ok r) (load_chans-total budget create rows (load_chan r s) fewer ok)

load_all-db : (rows : List ChanRow) (s : Server) → (load_all rows s).db ≡ s.db
unfolding load_all load_chan chan_put
load_all-db [] s = refl
load_all-db (r ∷ rows) s = load_all-db rows (load_chan r s)

abbrev first {ℓ} : {A : Type ℓ} → Option A → Option A → Option A
first none b = b
first (some a) b = some a

-- The channel of one round, looked up by an id.
load_chan-hit :
    (r : ChanRow) (s : Server) (id : ℕ)
    → is_chan id r ≡ true
    → Option.map view_chan (select (is_chan_id id) (load_chan r s).chans_by_id) ≡ some (view_row r)
unfolding load_chan chan_put select row2chan
load_chan-hit r s id e = simp e refl

load_chan-miss :
    (r : ChanRow) (s : Server) (id : ℕ)
    → is_chan id r ≡ false
    → select (is_chan_id id) (load_chan r s).chans_by_id ≡ select (is_chan_id id) s.chans_by_id
unfolding load_chan chan_put select row2chan
load_chan-miss r s id e =
    simp e (
      select-delete_ne (is_chan_id r.channel_id) (is_chan_id id) (λ c h. ground arith)
        s.chans_by_id)

load_all-lookup :
    (rows : List ChanRow) (s : Server) (id : ℕ)
    → count (is_chan id) rows ≤ 1
    → Option.map view_chan (select (is_chan_id id) (load_all rows s).chans_by_id)
      ≡ first
          (Option.map view_row (select (is_chan id) rows))
          (Option.map view_chan (select (is_chan_id id) s.chans_by_id))
unfolding load_all select
load_all-lookup [] s id once = refl
load_all-lookup (r ∷ rows) s id once = elim (Bool-cases (is_chan id r)) [
  | inl e ↦
      let c = count-hit (is_chan id) r rows e in
      let others : count (is_chan id) rows ≡ 0 = omega arith in
      load_all-lookup rows (load_chan r s) id (omega arith)
      ∙ simp (e, select-none (is_chan id) rows others) (load_chan-hit r s id e)
  | inr e ↦
      let c = count-miss (is_chan id) r rows e in
      load_all-lookup rows (load_chan r s) id (omega arith) ∙ simp (e, load_chan-miss r s id e) refl
]

-- The largest id, from `m` on.
unfoldable pub largest_from : ℕ → List ChanRow → ℕ
largest_from m [] = m
largest_from m (r ∷ rows) = largest_from (if leb (m + 1) r.channel_id then r.channel_id else m) rows

largest_from-le : (m : ℕ) (rows : List ChanRow) → m ≤ largest_from m rows
unfolding largest_from
largest_from-le m [] = omega arith
largest_from-le m (r ∷ rows) =
    ground (arith, largest_from-le (if leb (m + 1) r.channel_id then r.channel_id else m) rows)

load_all-next :
    (rows : List ChanRow) (m : ℕ) (s : Server)
    → s.nxt_chan_id ≡ m + 1
    → largest_from m rows + 1 < u64_mod
    → (load_all rows s).nxt_chan_id ≡ largest_from m rows + 1
unfolding load_all largest_from load_chan chan_put
load_all-next [] m s e room = e
load_all-next (r ∷ rows) m s e room = elim (Bool-cases (leb (m + 1) r.channel_id)) [
  | inl above ↦
      let room' : largest_from r.channel_id rows + 1 < u64_mod = simp above at room in
      let bound = largest_from-le r.channel_id rows in
      let up = inc64-eq r.channel_id (omega arith) in
      simp above (load_all-next rows r.channel_id (load_chan r s) (simp (e, above) up) room')
  | inr below ↦
      let room' : largest_from m rows + 1 < u64_mod = simp below at room in
      simp below (load_all-next rows m (load_chan r s) (simp (e, below) refl) room')
]

-- A stored database: ids are unique, and the sequence of ids has stopped at the largest of them,
-- with room for more.
pub record IsStored (db : Db) : Type 0 where
  pub distinct : (id : ℕ) → count (is_chan id) db.channels ≤ 1
  pub sequence : largest_from 0 db.channels ≡ db.chan_seq
  pub room : db.chan_seq + 1 < u64_mod

load_all-IsSynced : (db : Db) → IsStored db → IsSynced (load_all db.channels (blank_server db))
unfolding blank_server select
load_all-IsSynced db stored = record {
  chans = λ id. simp (load_all-db db.channels (blank_server db)) (
      load_all-lookup db.channels (blank_server db) id (stored.distinct id)
      ∙ none_after (Option.map view_row (select (is_chan id) db.channels)));
  next =
      let room' : largest_from 0 db.channels + 1 < u64_mod = simp (stored.sequence) (stored.room) in
      simp
        (
          load_all-next db.channels 0 (blank_server db) refl room',
          load_all-db db.channels (blank_server db),
          stored.sequence,
          inc64-eq db.chan_seq (stored.room),
        )
        refl;
}
  where
    none_after : (o : Option ChanInfo) → first o none ≡ o
    none_after none = refl
    none_after (some i) = refl

-- The service starts on a stored database whose rows can all be read, with memory for each channel:
-- feeds_init succeeds, and from then on, whatever requests, departures and broadcasts follow and
-- whichever calls fail, the channels in memory are those of the database.
pub feeds_init-IsSynced :
    (budget : ℕ) (create : ChanRow → Bool) (db : Db) (es : List Event)
    → IsStored db
    → count (λ _. true) db.channels ≤ budget
    → ((r : ChanRow) → create r ≡ true)
    → (s : Server) × (feeds_init true budget create db ≡ some s) × IsSynced (run es s)
unfolding feeds_init
feeds_init-IsSynced budget create db es stored enough ok = (
  load_all db.channels (blank_server db),
  load_chans-total budget create db.channels (blank_server db) enough ok,
  run-IsSynced es _ (load_all-IsSynced db stored),
)
