-- ===== src/Session/Defs.antt =====
-- src/massdata/SessionParser.cpp. Bytes are numbers; an integer of the header is its bit pattern,
-- and comes in network order. The file that collects a body is the list of its bytes; its name is
-- random and not modelled. A chunk of data has fewer than 2^31 bytes.
use feeds_service.Prelude.{
  ℕ, zero, suc, ◌+◌, ◌-◌, ◌*◌, ◌/◌, ◌%◌, ◌^◌, Bool, not, Option, none, some, List, [], ◌∷◌, ◌++◌,
}
use feeds_service.Prelude.Tests.{◌==◌, ltb, leb, if◌then◌else◌}
use feeds_service.Prelude.Lists.{length, take, drop}
use feeds_service.Obj.{Blob}

-- ntoh: an integer from its first bytes in memory. Fewer bytes are never read.
abbrev pub read4 : Blob → ℕ
read4 (a ∷ b ∷ c ∷ d ∷ _) = ((a * 256 + b) * 256 + c) * 256 + d
read4 _ = 0

abbrev pub read8 : Blob → ℕ
read8 (a ∷ b ∷ c ∷ d ∷ rest) = (((a * 256 + b) * 256 + c) * 256 + d) * 2 ^ 32 + read4 rest
read8 _ = 0

-- hton
abbrev pub write4 : ℕ → Blob
write4 v = v / 2 ^ 24 % 256 ∷ v / 2 ^ 16 % 256 ∷ v / 2 ^ 8 % 256 ∷ v % 256 ∷ []

abbrev pub write8 : ℕ → Blob
write8 v = write4 (v / 2 ^ 32) ++ write4 (v % 2 ^ 32)

-- Protocol::Info
pub record Info : Type 0 where
  pub magic_number : ℕ
  pub version : ℕ
  pub head_size : ℕ
  pub body_size : ℕ

abbrev pub magic : ℕ
magic = 0x00a5202008275a

abbrev pub version_01_00_00 : ℕ
version_01_00_00 = 10000

-- sizeof(Protocol::Info)
abbrev pub info_size : ℕ
info_size = 24

-- `body`: what the body's file holds; `received_body_size` counts the bytes written to it.
pub record Protocol : Type 0 where
  pub info : Info
  pub head_data : Blob
  pub body : Blob
  pub received_body_size : ℕ

pub record Parser : Type 0 where
  pub protocol : Option Protocol
  pub caching_data : Blob

-- A call of the listener.
pub record Message : Type 0 where
  pub head : Blob
  pub body : Blob

-- An int32_t as a size_t.
abbrev pub extend32 : ℕ → ℕ
extend32 w = if ltb w (2 ^ 31) then w else w + (2 ^ 64 - 2 ^ 32)

-- The loop over `garbageIdx`: the first place where the magic number stands, with a whole header
-- behind it, or one past the last place tried.
unfoldable pub garbage_idx : Blob → ℕ
garbage_idx [] = 0
garbage_idx (x ∷ xs) =
    let rest = garbage_idx xs in
    if ltb (length (x ∷ xs)) info_size then 0 else if read8 (x ∷ xs) == magic then 0 else 1 + rest

-- What unpackProtocol returns: CarrierSessionDataNotEnough, another error, or the number of bytes
-- that it took. `crashed`: the code copies from a range that ends before it starts.
pub data Progress : Type 0 where
  not_enough : Parser → Progress
  failed : Parser → Progress
  taken : ℕ → Parser → Progress
  crashed : Progress

abbrev pub blank_info : Info
blank_info = record { magic_number = 0; version = 0; head_size = 0; body_size = 0 }

abbrev pub new_protocol : Info → Protocol
new_protocol info = record { info = info; head_data = []; body = []; received_body_size = 0 }

-- From the test of the head's size on. `prev`: what was cached before this call, and `garbage` of
-- it and of the new data is gone: the difference is a size_t, and a negative int is an error.
unfoldable pub unpack_head : ℕ → ℕ → Protocol → Blob → Progress
unpack_head prev garbage p caching =
    let size = (info_size + extend32 p.info.head_size) % 2 ^ 64 in
    if ltb (length caching) size
    then not_enough (record { protocol = some p; caching_data = caching })
    else if leb (2 ^ 31) p.info.head_size
    then crashed
    else (let done : Protocol = record p {
      head_data = take p.info.head_size (drop info_size caching);
    } in
        let parser : Parser = record { protocol = some done; caching_data = [] } in
        if ltb (size + garbage) prev then failed parser else taken (size + garbage - prev) parser)

-- The header, at the front of the cache. `dir_ok`: the directory of the cache files can be made.
unfoldable pub unpack_info : Bool → ℕ → ℕ → Blob → Progress
unpack_info dir_ok prev garbage caching =
    if ltb (length caching) info_size
    then not_enough (record { protocol = none; caching_data = caching })
    else if not dir_ok
    then failed (record { protocol = none; caching_data = caching })
    else (let number = read8 caching in
        let version = read4 (drop 8 caching) in
        if not (version == version_01_00_00)
        then failed (record {
          protocol =
              some (new_protocol (record blank_info { magic_number = number; version = version }));
          caching_data = caching;
        })
        else unpack_head prev garbage
            (new_protocol (record {
              magic_number = number;
              version = version;
              head_size = read4 (drop 12 caching);
              body_size = read8 (drop 16 caching);
            }))
            caching)

-- `data`: the bytes from `offset` on.
unfoldable pub unpack_protocol : Bool → Blob → Parser → Progress
unpack_protocol dir_ok chunk s = elim s.protocol [
  | none ↦
      let caching = s.caching_data ++ chunk in
      let garbage = garbage_idx caching in
      unpack_info dir_ok (length s.caching_data) garbage (drop garbage caching)
  | some p ↦
      if extend32 p.info.head_size == length p.head_data
      then taken 0 s
      else unpack_head (length s.caching_data) 0 p (s.caching_data ++ chunk)
]

-- The number of bytes that go to the body's file: the sizes are compared as unsigned numbers.
abbrev pub real_size : Protocol → Blob → ℕ
real_size p chunk =
    let needed = (p.info.body_size + 2 ^ 64 - p.received_body_size) % 2 ^ 64 in
    if ltb needed (length chunk) then needed else length chunk

abbrev pub with_body : Protocol → Blob → Protocol
with_body p chunk = record p {
  body = p.body ++ take (real_size p chunk) chunk;
  received_body_size = (p.received_body_size + real_size p chunk) % 2 ^ 64;
}

-- The parser after unpackBodyData, and the message if the body is complete.
unfoldable pub unpack_body_data : Protocol → Blob → Blob → Parser × List Message
unpack_body_data p caching chunk =
    let q = with_body p chunk in
    if q.received_body_size == q.info.body_size
    then (
      record { protocol = none; caching_data = caching },
      record { head = q.head_data; body = q.body } ∷ [],
    )
    else (record { protocol = some q; caching_data = caching }, [])

-- How a call of unpack ends, with the messages that it has delivered. `stuck`: the model's fuel has
-- run out.
pub data Outcome : Type 0 where
  ok : Parser → List Message → Outcome
  error : Parser → List Message → Outcome
  crash : List Message → Outcome
  stuck : Outcome

-- Messages that were delivered before.
abbrev pub after : List Message → Outcome → Outcome
after out (ok s ms) = ok s (out ++ ms)
after out (error s ms) = error s (out ++ ms)
after out (crash ms) = crash (out ++ ms)
after out stuck = stuck

-- One round of the loop of unpack: it ends the call, or leaves the parser, the data that is left
-- and the messages of the round.
pub data Round : Type 0 where
  stop : Outcome → Round
  again : Parser → Blob → List Message → Round

-- With no protocol unpackBodyData would follow a null pointer.
unfoldable pub round_body : Blob → Parser → Round
round_body chunk s = elim s.protocol [
  | none ↦ stop (crash [])
  | some p ↦
      let (t, ms) = unpack_body_data p s.caching_data chunk in
      again t (drop (real_size p chunk) chunk) ms
]

unfoldable pub round : Bool → Blob → Parser → Round
round dir_ok chunk s = elim (unpack_protocol dir_ok chunk s) [
  | not_enough t ↦ stop (ok t [])
  | failed t ↦ stop (error t [])
  | crashed ↦ stop (crash [])
  | taken n t ↦ round_body (drop n chunk) t
]

-- do { … } while(dataPos < data.size())
unfoldable pub unpack_loop : ℕ → Bool → Blob → Parser → Outcome
unpack_loop zero dir_ok chunk s = stuck
unpack_loop (suc fuel) dir_ok chunk s = elim (round dir_ok chunk s) [
  | stop o ↦ o
  | again t [] ms ↦ ok t ms
  | again t (b ∷ rest) ms ↦ after ms (unpack_loop fuel dir_ok (b ∷ rest) t)
]

unfoldable pub unpack : Bool → Blob → Parser → Outcome
unpack dir_ok chunk s = unpack_loop (length chunk + 2) dir_ok chunk s

-- MassDataManager's onReceivedData, once for each chunk that comes in: an error is logged, and the
-- parser goes on as it is.
unfoldable pub receive : Bool → List Blob → Parser → Outcome
receive dir_ok [] s = ok s []
receive dir_ok (c ∷ cs) s = elim (unpack dir_ok c s) [
  | ok t ms ↦ after ms (receive dir_ok cs t)
  | error t ms ↦ after ms (receive dir_ok cs t)
  | crash ms ↦ crash ms
  | stuck ↦ stuck
]

abbrev pub blank_parser : Parser
blank_parser = record { protocol = none; caching_data = [] }
