-- ===== src/Session/Rounds.antt =====
-- src/massdata/SessionParser.cpp: what one round of the loop of unpack takes and leaves.
use feeds_service.Prelude.{
  ℕ, zero, suc, ◌+◌, ◌-◌, ◌%◌, ◌<◌, ◌≤◌, ◌^◌, ◌≡◌, refl, Bool, true, false, Option, none, some, [],
  ◌∷◌, ◌++◌, arith, inl, inr,
}
use feeds_service.Prelude.Tests.{◌==◌, ltb, leb, Bool-cases}
use feeds_service.Prelude.Lists.{length, take, drop, length-drop, length-append}
use feeds_service.Obj.{Blob}
use feeds_service.Session.Defs
use feeds_service.Session.Defs.{
  Info, Protocol, Parser, Message, Outcome, error, crash, stuck, Progress, not_enough, failed,
  taken, crashed, Round, stop, again, after, magic, version_01_00_00, read4, read8, new_protocol,
  blank_info, blank_parser, garbage_idx, unpack_info, unpack_head, unpack_protocol,
  unpack_body_data, round_body, round, unpack_loop, unpack, receive, real_size, with_body, extend32,
}

abbrev pub AllBytes : Blob → Type 0
AllBytes [] = Unit {0}
AllBytes (b ∷ bs) = (b < 256) × AllBytes bs

-- The sizes of a protocol are those of 64-bit fields.
abbrev pub FitsIn : Option Protocol → Type 0
FitsIn none = Unit {0}
FitsIn (some p) = (p.info.body_size < 2 ^ 64) × (p.received_body_size < 2 ^ 64)

abbrev pub is_stuck : Outcome → Bool
is_stuck stuck = true
is_stuck _ = false

AllBytes-append : (xs ys : Blob) → AllBytes xs → AllBytes ys → AllBytes (xs ++ ys)
AllBytes-append [] ys hx hy = hy
AllBytes-append (x ∷ xs) ys (h, hx) hy = (h, AllBytes-append xs ys hx hy)

AllBytes-drop : (n : ℕ) (xs : Blob) → AllBytes xs → AllBytes (drop n xs)
unfolding drop
AllBytes-drop zero xs h = h
AllBytes-drop (suc n) [] h = h
AllBytes-drop (suc n) (x ∷ xs) (_, h) = AllBytes-drop n xs h

read4_bound : (xs : Blob) → AllBytes xs → read4 xs < 2 ^ 32
read4_bound [] h = omega arith
read4_bound (a ∷ []) h = omega arith
read4_bound (a ∷ b ∷ []) h = omega arith
read4_bound (a ∷ b ∷ c ∷ []) h = omega arith
read4_bound (a ∷ b ∷ c ∷ d ∷ xs) (ha, (hb, (hc, (hd, _)))) = omega arith

read8_bound : (xs : Blob) → AllBytes xs → read8 xs < 2 ^ 64
read8_bound [] h = omega arith
read8_bound (a ∷ []) h = omega arith
read8_bound (a ∷ b ∷ []) h = omega arith
read8_bound (a ∷ b ∷ c ∷ []) h = omega arith
read8_bound (a ∷ b ∷ c ∷ d ∷ xs) (ha, (hb, (hc, (hd, hs)))) = omega (arith, read4_bound xs hs)

-- A round that goes on with data left has no protocol any more, and has taken `needs` bytes.
pub record Goes (cache_size needs : ℕ) (whole : Blob) (t : Parser) (rest : Blob) : Type 0 where
  pub gone : 1 ≤ length rest → t.protocol ≡ none
  pub cached : AllBytes t.caching_data
  pub bytes : AllBytes rest
  pub less : length rest + needs ≤ length whole
  pub small : length t.caching_data ≤ cache_size

abbrev pub Continues : ℕ → ℕ → Blob → Round → Type 0
Continues cache_size needs whole (stop o) = is_stuck o ≡ false
Continues cache_size needs whole (again t rest ms) = Goes cache_size needs whole t rest

body-Continues :
    (p : Protocol) (caching chunk whole : Blob) (needs : ℕ)
    → FitsIn (some p)
    → AllBytes caching
    → AllBytes chunk
    → length chunk + needs ≤ length whole
    → Continues
        (length caching)
        needs
        whole
        (round_body chunk (record { protocol = some p; caching_data = caching }))
unfolding round_body unpack_body_data
body-Continues p caching chunk whole needs (body, got) hc hb le =
    let shorter = length-drop (real_size p chunk) chunk in
    let rest_bytes = AllBytes-drop (real_size p chunk) chunk hb in
    elim (Bool-cases ((p.received_body_size + real_size p chunk) % 2 ^ 64 == p.info.body_size)) [
      | inl done ↦ simp done (record {
        gone = λ _. refl;
        cached = hc;
        bytes = rest_bytes;
        less = omega arith;
        small = omega arith;
      })
      | inr more ↦ simp more (record {
        gone = λ full. absurd (ground arith);
        cached = hc;
        bytes = rest_bytes;
        less = omega arith;
        small = omega arith;
      })
    ]

-- What a round does with what unpackProtocol returns.
abbrev resume : Blob → Progress → Round
resume chunk (not_enough t) = stop (Defs.ok t [])
resume chunk (failed t) = stop (error t [])
resume chunk crashed = stop (crash [])
resume chunk (taken n t) = round_body (drop n chunk) t

round-resume :
    (dir_ok : Bool) (chunk : Blob) (s : Parser)
    → round dir_ok chunk s ≡ resume chunk (unpack_protocol dir_ok chunk s)
unfolding round
round-resume dir_ok chunk s =
    elim (unpack_protocol dir_ok chunk s)
      as (λ g.
        elim g as (λ _. Round) [
          | not_enough t ↦ stop (Defs.ok t [])
          | failed t ↦ stop (error t [])
          | crashed ↦ stop (crash [])
          | taken n t ↦ round_body (drop n chunk) t
        ]
        ≡ resume chunk g) [
          | not_enough t ↦ refl
          | failed t ↦ refl
          | crashed ↦ refl
          | taken n t ↦ refl
        ]

module _ (prev garbage : ℕ) (p : Protocol) (caching chunk : Blob) (needs : ℕ) where
  head-Continues :
      FitsIn (some p)
      → AllBytes chunk
      → ((size : ℕ)
          → 24 ≤ size
          → size ≤ length caching
          → length (drop (size + garbage - prev) chunk) + needs ≤ length chunk)
      → Continues 0 needs chunk (resume chunk (unpack_head prev garbage p caching))
  unfolding unpack_head length
  head-Continues fits hb enough =
      elim (Bool-cases (ltb (length caching) ((24 + extend32 p.info.head_size) % 2 ^ 64))) [
        | inl short ↦ simp short refl
        | inr whole ↦ elim (Bool-cases (leb (2 ^ 31) p.info.head_size)) [
          | inl negative ↦ simp (whole, negative) refl
          | inr positive ↦
              elim (Bool-cases (ltb ((24 + extend32 p.info.head_size) % 2 ^ 64 + garbage) prev)) [
                | inl behind ↦ simp (whole, positive, behind) refl
                | inr ahead ↦
                    simp (whole, positive, ahead)
                      (body-Continues
                        (record p { head_data = take p.info.head_size (drop 24 caching) }) []
                        (drop ((24 + extend32 p.info.head_size) % 2 ^ 64 + garbage - prev) chunk)
                        chunk needs fits tt (AllBytes-drop _ chunk hb)
                        (enough ((24 + extend32 p.info.head_size) % 2 ^ 64) (ground arith)
                          (ground arith)))
              ]
        ]
      ]

weaken-Continues :
    (k needs : ℕ) (whole : Blob) (r : Round) → Continues 0 needs whole r → Continues k needs whole r
weaken-Continues k needs whole (stop o) c = c
weaken-Continues k needs whole (again t rest ms) c = record {
  gone = c.gone;
  cached = c.cached;
  bytes = c.bytes;
  less = c.less;
  small = let none_cached = c.small in omega arith;
}

abbrev pub waiting_for : Blob → Parser
waiting_for pre = record { protocol = none; caching_data = pre }

module _ (dir_ok : Bool) (pre chunk : Blob) (hp : AllBytes pre) (hb : AllBytes chunk) where
  info-Continues :
      (prev garbage needs : ℕ) (caching : Blob)
      → AllBytes caching
      → ((size : ℕ)
          → 24 ≤ size
          → size ≤ length caching
          → length (drop (size + garbage - prev) chunk) + needs ≤ length chunk)
      → Continues 0 needs chunk (resume chunk (unpack_info dir_ok prev garbage caching))
  unfolding unpack_info
  info-Continues prev garbage needs caching hc enough =
      elim (Bool-cases (ltb (length caching) 24)) [
        | inl short ↦ simp short refl
        | inr whole ↦ elim (Bool-cases dir_ok) [
          | inr no_dir ↦ simp (whole, no_dir) refl
          | inl dir ↦ elim (Bool-cases (read4 (drop 8 caching) == 10000)) [
            | inr other ↦ simp (whole, dir, other) refl
            | inl same ↦
                simp (whole, dir, same)
                  (head-Continues prev garbage _ caching chunk needs
                    (read8_bound (drop 16 caching) (AllBytes-drop 16 caching hc), omega arith) hb
                    enough)
          ]
        ]
      ]

  none-Continues :
      (needs : ℕ)
      → ((size garbage : ℕ)
          → 24 ≤ size
          → size ≤ length (drop garbage (pre ++ chunk))
          → length (drop (size + garbage - length pre) chunk) + needs ≤ length chunk)
      → Continues 0 needs chunk (round dir_ok chunk (waiting_for pre))
  unfolding unpack_protocol
  none-Continues needs enough =
      rw (round-resume dir_ok chunk (waiting_for pre), unpack_protocol)
        (info-Continues (length pre) (garbage_idx (pre ++ chunk)) needs
          (drop (garbage_idx (pre ++ chunk)) (pre ++ chunk))
          (AllBytes-drop _ (pre ++ chunk) (AllBytes-append pre chunk hp hb))
          (λ size. enough size (garbage_idx (pre ++ chunk))))

  -- From any cache a round takes no more than the chunk has.
  pub cached-Continues : Continues 0 0 chunk (round dir_ok chunk (waiting_for pre))
  cached-Continues =
      none-Continues 0
        λ size garbage least le. omega (arith, length-drop (size + garbage - length pre) chunk)

  -- From an empty one it takes a header at least.
  pub fresh-Continues : length pre ≤ 0 → Continues 0 24 chunk (round dir_ok chunk (waiting_for pre))
  fresh-Continues nothing = none-Continues 24 λ size garbage least le. omega (
    arith,
    length-drop (size + garbage - length pre) chunk,
    length-drop garbage (pre ++ chunk),
    length-append pre chunk,
  )

  pub some-Continues :
      (p : Protocol)
      → FitsIn (some p)
      → Continues
          (length pre)
          0
          chunk
          (round dir_ok chunk (record { protocol = some p; caching_data = pre }))
  unfolding unpack_protocol
  some-Continues p fits =
      rw
        (
          round-resume dir_ok chunk (record { protocol = some p; caching_data = pre }),
          unpack_protocol,
        )
        (elim (Bool-cases (extend32 p.info.head_size == length p.head_data)) [
          | inl done ↦
              simp done (unfold drop in body-Continues p pre chunk chunk 0 fits hp hb (omega arith))
          | inr more ↦ simp more (
              weaken-Continues (length pre) 0 chunk _ (
                head-Continues (length pre) 0 p (pre ++ chunk) chunk 0 fits hb
                  (λ size least le. omega (arith, length-drop (size + 0 - length pre) chunk))))
        ])
