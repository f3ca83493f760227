-- ===== src/Session/Faults.antt =====
-- src/massdata/SessionParser.cpp: headers that the parser does not stand up to.
use feeds_service.Prelude.{ℕ, suc, ◌+◌, ◌-◌, ◌≤◌, ◌^◌, ◌≡◌, refl, true, List, [], ◌++◌, arith}
use feeds_service.Prelude.Lists.{length, drop}
use feeds_service.Obj.{Blob}
use feeds_service.Session.Defs
use feeds_service.Session.Defs.{
  Info, Protocol, Parser, Message, Outcome, error, crash, stuck, Progress, not_enough, failed,
  taken, crashed, Round, stop, again, after, magic, version_01_00_00, write4, write8, read4, read8,
  new_protocol, blank_info, blank_parser, garbage_idx, unpack_info, unpack_head, unpack_protocol,
  unpack_body_data, round_body, round, unpack_loop, unpack, receive, real_size, with_body, extend32,
}
use feeds_service.Session.Frames.{read4-write4}

-- The messages that a call has delivered.
abbrev pub delivered : Outcome → List Message
delivered (Defs.ok s ms) = ms
delivered (error s ms) = ms
delivered (crash ms) = ms
delivered stuck = []

-- The bytes of a header, and what follows it.
abbrev pub raw_header : ℕ → ℕ → ℕ → Blob → Blob
raw_header version head_size body_size t =
    write8 magic ++ (write4 version ++ (write4 head_size ++ (write8 body_size ++ t)))

pub raw_garbage : (v h b : ℕ) (t : Blob) → garbage_idx (raw_header v h b t) ≡ 0
unfolding garbage_idx length
raw_garbage v h b t = ground arith

pub length-raw_header : (v h b : ℕ) (t : Blob) → length (raw_header v h b t) ≡ 24 + length t
unfolding length
length-raw_header v h b t = omega arith

-- A header that gives a head of a negative size, down to the size of a header, makes the parser
-- copy from a range that ends before it starts, whatever follows the header.
pub unpack-crash :
    (k b : ℕ) (t : Blob)
    → 1 ≤ k
    → k ≤ 24
    → unpack true (raw_header version_01_00_00 (2 ^ 32 - k) b t) blank_parser ≡ crash []
unfolding unpack
unpack-crash k b t one few =
    rw fuel_suc (loop (length (raw_header version_01_00_00 (2 ^ 32 - k) b t) + 1))
  where
    fuel_suc :
        length (raw_header version_01_00_00 (2 ^ 32 - k) b t) + 2
        ≡ suc (length (raw_header version_01_00_00 (2 ^ 32 - k) b t) + 1)
    fuel_suc = omega arith

    progress :
        unpack_protocol true (raw_header version_01_00_00 (2 ^ 32 - k) b t) blank_parser ≡ crashed
    progress =
        unfold unpack_protocol unpack_info unpack_head drop length in
        rw (raw_garbage version_01_00_00 (2 ^ 32 - k) b t) (
          ground (
            arith,
            read4-write4 (2 ^ 32 - k) (write8 b ++ t),
            length-raw_header version_01_00_00 (2 ^ 32 - k) b t,
          ))

    first : round true (raw_header version_01_00_00 (2 ^ 32 - k) b t) blank_parser ≡ stop (crash [])
    first = unfold round in rw (progress, round) refl

    loop :
        (fuel : ℕ)
        → unpack_loop (suc fuel) true (raw_header version_01_00_00 (2 ^ 32 - k) b t) blank_parser
          ≡ crash []
    loop fuel = unfold unpack_loop in rw (first, unpack_loop) refl
