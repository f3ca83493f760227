-- ===== src/Rpc/Faults.antt =====
-- src/rpc.c: messages that rpc_unmarshal_req does not survive.
use Prim.Native.String.{len}
use text.Mathlib.Text.{starts_with}
use feeds_service.Prelude.{
  ℕ, String, str_eq, ◌≡◌, ◌≢◌, ◌<◌, refl, Bool, true, false, none, some, List, [], ◌∷◌, inl, inr,
  arith, ◌↔◌, zero, suc, ◌≤◌, ◌⊎◌,
}
use feeds_service.Prelude.Tests.{Bool-cases}
use feeds_service.Obj.{Blob}
use feeds_service.Rpc.Objects.{
  str, u64, bin, map, Entries, entry, Parsed, accepted, refused, null_pointer, ◌>>=◌, field,
  checked, deref, zalloc, map_nxt_val, header, is_full, has_bytes, id_is_valid, as_bool,
}
use feeds_service.Rpc.Requests.{Req}
use feeds_service.Rpc.Unmarshal.Posts.{unmarshal_declare_post_req}
use feeds_service.Rpc.Parsers.{
  ReqParser, req_parsers_1_0, req_parsers_2_0, crashed, overflow, result_of, find_parser,
  by_version, check_header, strncpy, rpc_unmarshal_req,
}
use feeds_service.Rpc.Encoded.{message}

abbrev pub until_content : String → ℕ → Blob → Entries → Entries
until_content tk chan_id content rest =
    entry (str "access_token") (str tk)
      (entry (str "channel_id") (u64 chan_id) (entry (str "content") (bin content) rest))

-- A declare_post message of version 1.0 that is complete up to the content and goes on without a
-- Boolean `with_notify` is a null pointer dereference, whatever the access token and the rest.
pub declare_post_crash :
    (v tsx_id chan_id : ℕ) (tk : String) (content : Blob) (rest : Entries)
    → is_full tk ≡ true
    → id_is_valid chan_id ≡ true
    → has_bytes content ≡ true
    → (map_nxt_val as_bool "with_notify" rest).0 ≡ none
    → rpc_unmarshal_req true v
        (map (message "1.0" "declare_post" tsx_id (until_content tk chan_id content rest)))
      ≡ (crashed, 1)
unfolding rpc_unmarshal_req check_header by_version header map_nxt_val find_parser req_parsers_1_0
    unmarshal_declare_post_req field checked deref zalloc ◌>>=◌ strncpy
declare_post_crash v tsx_id chan_id tk content rest full valid bytes missing =
    rw (full, valid, bytes, missing) refl

result_of-survives : (p : Parsed (Req × Entries)) → result_of p ≢ overflow
result_of-survives (accepted (req, c)) = grind arith
result_of-survives refused = grind arith
result_of-survives null_pointer = grind arith

find_parser-survives :
    (alloc : Bool) (rows : List ReqParser) (method : String) (tsx_id : ℕ) (params : Entries)
    → find_parser alloc rows method tsx_id params ≢ overflow
unfolding find_parser
find_parser-survives true [] method tsx_id params = grind arith
find_parser-survives false [] method tsx_id params = grind arith
find_parser-survives alloc (row ∷ rows) method tsx_id params =
    elim (Bool-cases (str_eq method row.method)) [
      | inl e ↦ rw e (result_of-survives (row.parser alloc tsx_id params))
      | inr e ↦ rw e (find_parser-survives alloc rows method tsx_id params)
    ]

by_version-survives :
    (alloc : Bool) (v : ℕ) (version method : String) (tsx_id : ℕ) (params : Entries)
    → (by_version alloc v version method tsx_id params).0 ≢ overflow
unfolding by_version
by_version-survives alloc v version method tsx_id params =
    elim (Bool-cases (starts_with "1.0" version)) [
      | inl e ↦ rw e (find_parser-survives alloc req_parsers_1_0 method tsx_id params)
      | inr e ↦ rw e (elim (Bool-cases (starts_with "2.0" version)) [
        | inl f ↦ rw f (find_parser-survives alloc req_parsers_2_0 method tsx_id params)
        | inr f ↦ rw f (grind arith)
      ])
    ]

strncpy_cases :
    (room n : ℕ)
    → ((strncpy room n ≡ none) × (room < n))
      ⊎ (left : ℕ) × (strncpy room n ≡ some left) × (n ≤ room)
unfolding strncpy
strncpy_cases room zero = inr (room, refl, omega arith)
strncpy_cases zero (suc n) = inl (refl, omega arith)
strncpy_cases (suc room) (suc n) = elim (strncpy_cases room n) [
  | inl (e, more) ↦ inl (e, omega arith)
  | inr (left, e, fits) ↦ inr (left, e, omega arith)
]

check_header-overflow :
    (alloc : Bool) (v : ℕ) (version method : String) (tsx_id : ℕ) (params : Entries)
    → is_full version ≡ true
    → ((check_header alloc v (some version) (some method) (some tsx_id) params).0 ≡ overflow)
      ↔ (1024 < len method)
unfolding check_header
check_header-overflow alloc v version method tsx_id params full =
    rw full (elim (Bool-cases (is_full method)) [
      | inl e ↦ rw e (elim (strncpy_cases 1024 (len method)) [
        | inl (f, more) ↦ rw f ((λ _. more), (λ _. refl))
        | inr (left, f, fits) ↦ rw f (
          (λ h. absurd (by_version-survives alloc v version method tsx_id params h)),
          (λ more. absurd (omega arith)),
        )
      ])
      | inr e ↦ rw e ((grind arith), (λ more. absurd (ground arith)))
    ])

-- The method is copied into 1,024 bytes: a message whose header is complete is written past their
-- end if and only if its method is longer.
pub rpc_unmarshal_req_overflow :
    (alloc : Bool) (v : ℕ) (message : Entries) (version method : String) (tsx_id : ℕ)
    → (header message).version ≡ some version
    → (header message).method ≡ some method
    → (header message).tsx_id ≡ some tsx_id
    → is_full version ≡ true
    → ((rpc_unmarshal_req alloc v (map message)).0 ≡ overflow) ↔ (1024 < len method)
unfolding rpc_unmarshal_req
rpc_unmarshal_req_overflow alloc v message version method tsx_id e f g full =
    let h = check_header-overflow alloc v version method tsx_id (header message).params full in
    rw (e, f, g) h
