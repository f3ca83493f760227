-- ===== src/Session/Ends.antt =====
-- src/massdata/SessionParser.cpp: the loop of unpack comes to an end.
use feeds_service.Prelude.{
  ℕ, zero, suc, ◌+◌, ◌<◌, ◌≤◌, ◌≡◌, refl, ap, ◌∙◌, Bool, false, Option, none, some, List, [], ◌∷◌,
  arith,
}
use feeds_service.Prelude.Lists.{length}
use feeds_service.Obj.{Blob}
use feeds_service.Session.Defs
use feeds_service.Session.Defs.{
  Info, Protocol, Parser, Message, Outcome, error, crash, stuck, Progress, not_enough, failed,
  taken, crashed, Round, stop, again, after, magic, version_01_00_00, read4, read8, new_protocol,
  blank_info, blank_parser, garbage_idx, unpack_info, unpack_head, unpack_protocol,
  unpack_body_data, round_body, round, unpack_loop, unpack, receive, real_size, with_body, extend32,
}
use feeds_service.Session.Rounds.{
  AllBytes, FitsIn, is_stuck, Goes, Continues, waiting_for, cached-Continues, fresh-Continues,
  some-Continues,
}

is_stuck-after : (ms : List Message) (o : Outcome) → is_stuck (after ms o) ≡ is_stuck o
is_stuck-after ms (Defs.ok s out) = refl
is_stuck-after ms (error s out) = refl
is_stuck-after ms (crash out) = refl
is_stuck-after ms stuck = refl

-- The loop comes to an end if its later rounds do.
loop_ends :
    (fuel : ℕ) (dir_ok : Bool) (chunk : Blob) (s : Parser) (k needs : ℕ) (r : Round)
    → round dir_ok chunk s ≡ r
    → Continues k needs chunk r
    → ((t : Parser) (rest : Blob)
        → Goes k needs chunk t rest
        → 1 ≤ length rest
        → is_stuck (unpack_loop fuel dir_ok rest t) ≡ false)
    → is_stuck (unpack_loop (suc fuel) dir_ok chunk s) ≡ false
unfolding unpack_loop
loop_ends fuel dir_ok chunk s k needs (stop o) e c later = rw (e, unpack_loop) c
loop_ends fuel dir_ok chunk s k needs (again t [] ms) e c later = rw (e, unpack_loop) refl
loop_ends fuel dir_ok chunk s k needs (again t (b ∷ rest) ms) e c later =
    rw (e, unpack_loop) (is_stuck-after ms _ ∙ later t (b ∷ rest) c (unfold length in omega arith))

same_parser : (t : Parser) → t.protocol ≡ none → t ≡ waiting_for t.caching_data
same_parser t e = ap (λ pr. record { protocol = pr; caching_data = t.caching_data }) e

fresh_ends :
    (fuel : ℕ) (dir_ok : Bool) (pre chunk : Blob)
    → AllBytes pre
    → AllBytes chunk
    → length pre ≤ 0
    → length chunk ≤ fuel
    → 1 ≤ fuel
    → is_stuck (unpack_loop fuel dir_ok chunk (waiting_for pre)) ≡ false
fresh_ends zero dir_ok pre chunk hp hb nothing le some_fuel = absurd (omega arith)
fresh_ends (suc fuel) dir_ok pre chunk hp hb nothing le some_fuel =
    loop_ends fuel dir_ok chunk (waiting_for pre) 0 24 _ refl
      (fresh-Continues dir_ok pre chunk hp hb nothing)
      λ t rest goes full.
        let taken_off = goes.less in
        rw (same_parser t (goes.gone full)) (
          fresh_ends fuel dir_ok t.caching_data rest goes.cached goes.bytes goes.small (omega arith)
            (omega arith))

cached_ends :
    (fuel : ℕ) (dir_ok : Bool) (pre chunk : Blob)
    → AllBytes pre
    → AllBytes chunk
    → length chunk < fuel
    → is_stuck (unpack_loop fuel dir_ok chunk (waiting_for pre)) ≡ false
cached_ends zero dir_ok pre chunk hp hb lt = absurd (omega arith)
cached_ends (suc fuel) dir_ok pre chunk hp hb lt =
    loop_ends fuel dir_ok chunk (waiting_for pre) 0 0 _ refl
      (cached-Continues dir_ok pre chunk hp hb)
      λ t rest goes full.
        let taken_off = goes.less in
        rw (same_parser t (goes.gone full)) (
          fresh_ends fuel dir_ok t.caching_data rest goes.cached goes.bytes goes.small (omega arith)
            (omega arith))

some_ends :
    (dir_ok : Bool) (p : Protocol) (pre chunk : Blob)
    → FitsIn (some p)
    → AllBytes pre
    → AllBytes chunk
    → is_stuck (
        unpack_loop
          (suc (length chunk + 1))
          dir_ok
          chunk
          (record { protocol = some p; caching_data = pre }))
      ≡ false
some_ends dir_ok p pre chunk fits hp hb =
    loop_ends (length chunk + 1) dir_ok chunk (record { protocol = some p; caching_data = pre })
      (length pre) 0 _ refl (some-Continues dir_ok pre chunk hp hb p fits)
      λ t rest goes full.
        let taken_off = goes.less in
        rw (same_parser t (goes.gone full)) (
          cached_ends (length chunk + 1) dir_ok t.caching_data rest goes.cached goes.bytes
            (omega arith))

-- The loop of unpack comes to an end on any chunk of bytes and from any state whose cache holds
-- bytes and whose sizes are those of 64-bit fields: the length of the chunk and two rounds more
-- are enough.
pub unpack-is_stuck :
    (dir_ok : Bool) (chunk : Blob) (s : Parser)
    → AllBytes chunk
    → AllBytes s.caching_data
    → FitsIn s.protocol
    → is_stuck (unpack dir_ok chunk s) ≡ false
unfolding unpack
unpack-is_stuck dir_ok chunk s hb hp fits = rw fuel_suc (cases s.protocol refl fits)
  where
    fuel_suc : length chunk + 2 ≡ suc (length chunk + 1)
    fuel_suc = omega arith

    cases :
        (pr : Option Protocol)
        → s.protocol ≡ pr
        → FitsIn pr
        → is_stuck (
            unpack_loop
              (suc (length chunk + 1))
              dir_ok
              chunk
              (record { protocol = pr; caching_data = s.caching_data }))
          ≡ false
    cases none e f =
        cached_ends (suc (length chunk + 1)) dir_ok s.caching_data chunk hp hb (omega arith)
    cases (some p) e f = some_ends dir_ok p s.caching_data chunk f hp hb
