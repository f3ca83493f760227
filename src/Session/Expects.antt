-- ===== src/Session/Expects.antt =====
-- What a parser has taken in of a stream of messages, and how each step of unpack goes on from
-- there.
use feeds_service.Prelude.{
  ℕ, ◌+◌, ◌-◌, ◌%◌, ◌<◌, ◌≤◌, ◌^◌, ◌≡◌, ◌⊎◌, refl, ap, sym, ◌∙◌, Bool, true, false, none, some,
  List, [], ◌∷◌, ◌++◌, arith, inl, inr,
}
use mathlib.Core.List.{append_assoc, append-nil}
use feeds_service.Prelude.Tests.{◌==◌, leb, Bool-cases}
use feeds_service.Prelude.Lists.{length, take, drop, length-append, take-append, drop-append, cut}
use feeds_service.Obj.{Blob}
use feeds_service.Session.Defs.{
  Info, Protocol, Parser, Message, Progress, not_enough, failed, taken, magic, version_01_00_00,
  info_size, new_protocol, garbage_idx, unpack_head, unpack_info, unpack_protocol, extend32, read4,
  read8, with_body, real_size, unpack_body_data, Round, stop, again, round_body, round,
  blank_parser,
}
use feeds_service.Session.Frames.{
  frames, IsSmall, AllSmall, info_of, header, length-header, read_magic, read_version,
  read_head_size, read_body_size, no_garbage, garbage_idx-short,
}

abbrev pub in_head : Message → Blob → Parser
in_head m pre = record { protocol = some (new_protocol (info_of m)); caching_data = pre }

abbrev pub body_protocol : Message → Blob → Protocol
body_protocol m got = record (new_protocol (info_of m)) {
  head_data = m.head;
  body = got;
  received_body_size = length got;
}

abbrev pub in_body : Message → Blob → Parser
in_body m got = record { protocol = some (body_protocol m got); caching_data = [] }

-- With a whole header in the cache.
pub unpack_head_enough :
    (m : Message) (small : IsSmall m) (prev : ℕ) (t : Blob)
    → prev ≤ 24 + length m.head
    → unpack_head prev 0 (new_protocol (info_of m)) (header m ++ (m.head ++ t))
      ≡ taken (24 + length m.head - prev) (in_body m [])
unfolding unpack_head
unpack_head_enough m small prev t le =
    let h = small.head_fits in
    let whole = length-header m small (m.head ++ t) in
    let parts = length-append m.head t in
    let all : drop info_size (header m ++ (m.head ++ t)) ≡ m.head ++ t = past_header in
    let front = take-append m.head t in
    let nothing : length {A = ℕ} [] ≡ 0 = unfold length in refl in
    let fits : extend32 (length m.head) ≡ length m.head = ground arith in
    let size : (info_size + extend32 (length m.head)) % 2 ^ 64 ≡ 24 + length m.head = omega arith in
    ground arith
  where
    past_header : drop 24 (header m ++ (m.head ++ t)) ≡ m.head ++ t
    past_header = unfold feeds_service.Session.Sender.pack drop in refl

pub unpack_head_short :
    (m : Message) (small : IsSmall m) (prev : ℕ) (t : Blob)
    → length t < length m.head
    → unpack_head prev 0 (new_protocol (info_of m)) (header m ++ t)
      ≡ not_enough (in_head m (header m ++ t))
unfolding unpack_head
unpack_head_short m small prev t lt =
    let h = small.head_fits in let whole = length-header m small t in ground arith

-- The first call that sees a whole header.
pub unpack_protocol_info :
    (dir_ok : Bool) (m : Message) (small : IsSmall m) (pre chunk t : Blob)
    → dir_ok ≡ true
    → pre ++ chunk ≡ header m ++ t
    → unpack_protocol dir_ok chunk (record { protocol = none; caching_data = pre })
      ≡ unpack_head (length pre) 0 (new_protocol (info_of m)) (header m ++ t)
unfolding unpack_protocol unpack_info drop
unpack_protocol_info dir_ok m small pre chunk t dir e =
    rw (e, no_garbage m small t, dir)
      (ground (
        arith,
        length-header m small t,
        read_magic m small t,
        read_version m small t,
        read_head_size m small t,
        read_body_size m small t,
      ))

pub unpack_protocol_short :
    (dir_ok : Bool) (pre chunk : Blob)
    → length (pre ++ chunk) < 24
    → unpack_protocol dir_ok chunk (record { protocol = none; caching_data = pre })
      ≡ not_enough (record { protocol = none; caching_data = pre ++ chunk })
unfolding unpack_protocol unpack_info drop
unpack_protocol_short dir_ok pre chunk lt =
    simp (garbage_idx-short (pre ++ chunk) lt) (ground arith)

-- The parser has taken in a part of the stream, and expects the bytes `ahead`, which complete the
-- messages `ms`.
pub data Expects (s : Parser) (ahead : Blob) (ms : List Message) : Type 0 where
  at_info :
      (pre : Blob)
      → s ≡ record { protocol = none; caching_data = pre }
      → length pre < 24
      → pre ++ ahead ≡ frames ms
      → Expects s ahead ms
  at_head :
      (pre : Blob) (m : Message) (rest : List Message)
      → s ≡ in_head m pre
      → ms ≡ m ∷ rest
      → 24 ≤ length pre
      → length pre < 24 + length m.head
      → pre ++ ahead ≡ frames ms
      → Expects s ahead ms
  at_body :
      (m : Message) (rest : List Message) (got left : Blob)
      → s ≡ in_body m got
      → ms ≡ m ∷ rest
      → got ++ left ≡ m.body
      → 1 ≤ length left
      → ahead ≡ left ++ frames rest
      → Expects s ahead ms

-- What a round of the loop does to `chunk`, where the stream goes on with `later`.
pub data Advances (chunk later : Blob) (ms : List Message) (r : Round) : Type 0 where
  waits :
      (t : Parser)
      → r ≡ stop (feeds_service.Session.Defs.ok t [])
      → Expects t later ms
      → Advances chunk later ms r
  moves :
      (t : Parser) (rest : Blob) (out next : List Message)
      → r ≡ again t rest out
      → ms ≡ out ++ next
      → (1 ≤ length rest → length rest < length chunk)
      → AllSmall next
      → Expects t (rest ++ later) next
      → Advances chunk later ms r

-- A body that is not complete yet, and the rest of a chunk.
pub body_Advances :
    (m : Message) (ms : List Message) (small : AllSmall (m ∷ ms)) (got left rest chunk later : Blob)
    → got ++ left ≡ m.body
    → rest ++ later ≡ left ++ frames ms
    → length rest ≤ length chunk
    → (1 ≤ length rest → (length rest < length chunk) ⊎ (1 ≤ length left))
    → Advances chunk later (m ∷ ms) (round_body rest (in_body m got))
unfolding round_body unpack_body_data
body_Advances m ms small got left rest chunk later whole stream le less =
    let parts = length-append got left in
    let fits = small.0.body_fits in
    let size : length m.body ≡ length got + length left = rw (← whole) parts in
    elim (Bool-cases (leb (length left) (length rest))) [
      | inl enough ↦
          let (t, split, next) = cut left (frames ms) rest later (sym stream) (ground arith) in
          let lengths = length-append left t in
          let needs : real_size (body_protocol m got) (left ++ t) ≡ length left = ground arith in
          let front = take-append left t in
          let back = drop-append left t in
          let done : ((length got + length left) % 2 ^ 64 == length m.body) ≡ true = ground arith in
          rw split (
            moves blank_parser t (m ∷ []) ms (simp (needs, front, back, done, whole) refl) refl
              (λ more. ground (arith, ap length split, less)) small.1
              (at_info [] refl (unfold length in omega arith) (sym next)))
      | inr short ↦
          let (t, split, next) = cut rest later left (frames ms) stream (ground arith) in
          let lengths = length-append rest t in
          let size2 = ap length split in
          let needs : real_size (body_protocol m got) rest ≡ length rest = ground arith in
          let front : take (length rest) rest ≡ rest = rw append-nil at (take-append rest []) in
          let back : drop (length rest) rest ≡ [] = rw append-nil at (drop-append rest []) in
          let undone : ((length got + length rest) % 2 ^ 64 == length m.body) ≡ false =
            ground arith in
          moves (in_body m (got ++ rest)) [] [] (m ∷ ms)
            (simp (needs, front, back, undone, length-append got rest) (ground arith)) refl
            (λ more. unfold length in ground arith) small
            (at_body m ms (got ++ rest) t refl refl (append_assoc got rest t ∙ rw (← split) whole)
              (ground arith) next)
    ]
