-- ===== src/Session/Rejected.antt =====
-- src/massdata/SessionParser.cpp: what follows a header of another version.
use feeds_service.Prelude.{
  ℕ, suc, ◌+◌, ◌<◌, ◌≤◌, ◌^◌, ◌≡◌, ◌≢◌, refl, true, none, some, List, [], ◌∷◌, ◌++◌, arith,
}
use mathlib.Core.List.{append-nil, append_assoc}
use feeds_service.Prelude.Lists.{length, take, drop}
use feeds_service.Obj.{Blob}
use feeds_service.Session.Defs
use feeds_service.Session.Defs.{
  Info, Protocol, Parser, Message, Outcome, error, crash, stuck, Progress, not_enough, failed,
  taken, crashed, Round, stop, again, after, magic, version_01_00_00, write4, write8, read4, read8,
  new_protocol, blank_info, blank_parser, garbage_idx, unpack_info, unpack_head, unpack_protocol,
  unpack_body_data, round_body, round, unpack_loop, unpack, receive, real_size, with_body, extend32,
}
use feeds_service.Session.Frames.{read4-write4}
use feeds_service.Session.Sender.{flatten}
use feeds_service.Session.Faults.{raw_header, raw_garbage, length-raw_header}

-- The protocol and the cache that the error leaves behind.
abbrev pub rejected : ℕ → ℕ → ℕ → Blob → Parser
rejected v h b t = record {
  protocol = some (new_protocol (record blank_info { magic_number = magic; version = v }));
  caching_data = raw_header v h b t;
}

abbrev pub empty_message : Message
empty_message = record { head = []; body = [] }

-- No chunk is empty.
abbrev pub AllFull : List Blob → Type 0
AllFull [] = Unit {0}
AllFull (c ∷ cs) = (1 ≤ length c) × AllFull cs

abbrev pub empty_messages : List Blob → List Message
empty_messages [] = []
empty_messages (c ∷ cs) = empty_message ∷ empty_messages cs

module _ (v h b : ℕ) (fits : v < 2 ^ 32) (other : v ≢ 10000) where
  info-rejected :
      (prev : ℕ) (t : Blob)
      → unpack_info true prev 0 (raw_header v h b t) ≡ failed (rejected v h b t)
  unfolding unpack_info drop
  info-rejected prev t =
      ground (arith, length-raw_header v h b t, read4-write4 v (write4 h ++ (write8 b ++ t)) fits)

  -- Anew, with what the chunk adds to the cache.
  none-rejected :
      (pre chunk t : Blob)
      → pre ++ chunk ≡ raw_header v h b t
      → round true chunk (record { protocol = none; caching_data = pre })
        ≡ stop (error (rejected v h b t) [])
  unfolding round unpack_protocol drop
  none-rejected pre chunk t e = rw (progress, round) refl
    where
      progress :
          unpack_protocol true chunk (record { protocol = none; caching_data = pre })
          ≡ failed (rejected v h b t)
      progress = rw (e, unpack_protocol) (rw (raw_garbage v h b t) (info-rejected (length pre) t))

  some-rejected :
      (c : ℕ) (cs t : Blob)
      → round true (c ∷ cs) (rejected v h b t)
        ≡ again
            (record { protocol = none; caching_data = raw_header v h b t })
            (c ∷ cs)
            (empty_message ∷ [])
  unfolding round unpack_protocol round_body unpack_body_data drop length take
  some-rejected c cs t = ground arith

  unpack_first :
      (t : Blob) → unpack true (raw_header v h b t) blank_parser ≡ error (rejected v h b t) []
  unfolding unpack unpack_loop
  unpack_first t = rw two (rw (none-rejected [] (raw_header v h b t) t refl, unpack_loop) refl)
    where
      two : length (raw_header v h b t) + 2 ≡ suc (length (raw_header v h b t) + 1)
      two = omega arith

  unpack_next :
      (c : ℕ) (cs t : Blob)
      → unpack true (c ∷ cs) (rejected v h b t)
        ≡ error (rejected v h b (t ++ c ∷ cs)) (empty_message ∷ [])
  unfolding unpack unpack_loop
  unpack_next c cs t = rw two (
      rw (some-rejected c cs t, unpack_loop)
        (rw (none-rejected (raw_header v h b t) (c ∷ cs) (t ++ c ∷ cs) refl, unpack_loop) refl))
    where
      two : length (c ∷ cs) + 2 ≡ suc (suc (length (c ∷ cs)))
      two = omega arith

  receive-rejected :
      (chunks : List Blob) (t : Blob)
      → AllFull chunks
      → receive true chunks (rejected v h b t)
        ≡ Defs.ok (rejected v h b (t ++ flatten chunks)) (empty_messages chunks)
  unfolding receive flatten
  receive-rejected [] t full = rw (append-nil t) refl
  receive-rejected ([] ∷ chunks) t (one, full) = absurd (unfold length in omega arith)
  receive-rejected ((c ∷ cs) ∷ chunks) t (one, full) =
      rw (unpack_next c cs t, receive)
        (rw (receive-rejected chunks (t ++ c ∷ cs) full, append_assoc t (c ∷ cs) (flatten chunks))
          refl)

-- A header of a version that is not the parser's, with whatever else of it, makes the session
-- useless: however many chunks follow, none of them empty, a message with no head and no body is
-- delivered for each of them and nothing else, and the parser stays at the header that it has
-- refused.
pub receive-raw_header :
    (v h b : ℕ) (t : Blob) (chunks : List Blob)
    → v < 2 ^ 32
    → v ≢ 10000
    → AllFull chunks
    → receive true (raw_header v h b t ∷ chunks) blank_parser
      ≡ Defs.ok (rejected v h b (t ++ flatten chunks)) (empty_messages chunks)
unfolding receive
receive-raw_header v h b t chunks fits other full =
    rw (unpack_first v h b fits other t, receive)
      (rw (receive-rejected v h b fits other chunks t full) refl)
