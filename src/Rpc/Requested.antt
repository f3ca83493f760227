-- ===== src/Rpc/Requested.antt =====
-- src/rpc.c: what rpc_unmarshal_req hands to the handlers, for any object at all.
use mathlib.Core.Path.{subst}
use Prim.Native.String.{len}
use text.Mathlib.Text.{starts_with}
use feeds_service.Prelude.{
  ℕ, String, str_eq, eq_iff, ◌≡◌, refl, Bool, true, false, not, ◌&&◌, Option, none, some, List, [],
  ◌∷◌, inl, inr, ◌∙◌, sym, ap, ◌⊎◌, arith,
}
use feeds_service.Prelude.Tests.{Bool-cases, Option-cases}
use feeds_service.Rpc.Objects.{
  map, Entries, Parsed, accepted, refused, null_pointer, header, is_full,
}
use feeds_service.Rpc.Requests.{Req}
use feeds_service.Rpc.Parsers.{
  ReqParser, req_parsers_1_0, req_parsers_2_0, Unmarshalled, request, failed, crashed, result_of,
  find_parser, by_version, check_header, strncpy, rpc_unmarshal_req,
}
use feeds_service.Rpc.Valid.{is_valid, method_of, struct_method}
use feeds_service.Rpc.Valid.Rules.{named, may_crash, IsSoundAt}
use feeds_service.Rpc.Tables.{
  EveryIsSound, ◌and◌, req_parsers_1_0-EveryIsSound, req_parsers_2_0-EveryIsSound,
}

-- For the `method` of the message.
abbrev IsSoundResult : String → Unmarshalled → Type 0
IsSoundResult method (request req) =
    (is_valid req ≡ true) × (method_of req ≡ method) × (struct_method req ≡ named method)
IsSoundResult method crashed = may_crash method ≡ true
IsSoundResult method _ = Unit {0}

result_of-IsSoundResult :
    (method : String) (p : Parsed (Req × Entries))
    → IsSoundAt method p
    → IsSoundResult method (result_of p)
result_of-IsSoundResult method (accepted (req, c)) h = h
result_of-IsSoundResult method refused h = tt
result_of-IsSoundResult method null_pointer h = h

find_parser-IsSoundResult :
    (alloc : Bool) (rows : List ReqParser) (method : String) (tsx_id : ℕ) (params : Entries)
    → EveryIsSound rows
    → IsSoundResult method (find_parser alloc rows method tsx_id params)
unfolding find_parser
find_parser-IsSoundResult true [] method tsx_id params h = tt
find_parser-IsSoundResult false [] method tsx_id params h = tt
find_parser-IsSoundResult alloc (row ∷ rows) method tsx_id params (r and rs) =
    elim (Bool-cases (str_eq method row.method)) [
      | inl e ↦ rw e (
          rw ((eq_iff method row.method).0 e) (
            result_of-IsSoundResult row.method (row.parser alloc tsx_id params)
              ((r alloc tsx_id).at params)))
      | inr e ↦ rw e (find_parser-IsSoundResult alloc rows method tsx_id params rs)
    ]

by_version-IsSoundResult :
    (alloc : Bool) (v : ℕ) (version method : String) (tsx_id : ℕ) (params : Entries)
    → IsSoundResult method (by_version alloc v version method tsx_id params).0
unfolding by_version
by_version-IsSoundResult alloc v version method tsx_id params =
    elim (Bool-cases (starts_with "1.0" version)) [
      | inl e ↦ rw e (
          find_parser-IsSoundResult alloc req_parsers_1_0 method tsx_id params
            req_parsers_1_0-EveryIsSound)
      | inr e ↦ rw e (elim (Bool-cases (starts_with "2.0" version)) [
        | inl f ↦ rw f (
            find_parser-IsSoundResult alloc req_parsers_2_0 method tsx_id params
              req_parsers_2_0-EveryIsSound)
        | inr f ↦ rw f tt
      ])
    ]

-- A request comes from a message with its method.
abbrev HasSoundResult : Option String → Unmarshalled → Type 0
HasSoundResult (some method) u = IsSoundResult method u
HasSoundResult none u = u ≡ failed

check_header-HasSoundResult :
    (alloc : Bool) (v : ℕ) (version method : Option String) (tsx_id : Option ℕ) (params : Entries)
    → HasSoundResult method (check_header alloc v version method tsx_id params).0
unfolding check_header
check_header-HasSoundResult alloc v (some version) (some method) (some tsx_id) params =
    elim (Bool-cases (not (is_full version && is_full method))) [
      | inl e ↦ rw e tt
      | inr e ↦ rw e (elim (Option-cases (strncpy 1024 (len method))) [
        | inl f ↦ rw f tt
        | inr (left, f) ↦ rw f (by_version-IsSoundResult alloc v version method tsx_id params)
      ])
    ]
check_header-HasSoundResult alloc v none (some method) tsx_id params = tt
check_header-HasSoundResult alloc v (some version) (some method) none params = tt
check_header-HasSoundResult alloc v none none tsx_id params = refl
check_header-HasSoundResult alloc v (some version) none tsx_id params = refl

module _ (alloc : Bool) (v : ℕ) (message : Entries) where
  rpc_unmarshal_req-HasSoundResult :
      HasSoundResult (header message).method (rpc_unmarshal_req alloc v (map message)).0
  unfolding rpc_unmarshal_req
  rpc_unmarshal_req-HasSoundResult =
      let h = header message in
      check_header-HasSoundResult alloc v h.version h.method h.tsx_id h.params

  sound_request :
      (method : Option String) (u : Unmarshalled) (req : Req)
      → HasSoundResult method u
      → u ≡ request req
      → (is_valid req ≡ true)
        × (method ≡ some (method_of req))
        × (struct_method req ≡ named (method_of req))
  sound_request (some method) u req h e =
      let (valid, same, name) = subst (IsSoundResult method) e h in
      (valid, ap some (sym same), name ∙ ap named (sym same))
  sound_request none u req h e = grind arith

  pub rpc_unmarshal_req_valid :
      (req : Req)
      → (rpc_unmarshal_req alloc v (map message)).0 ≡ request req
      → (is_valid req ≡ true)
        × ((header message).method ≡ some (method_of req))
        × (struct_method req ≡ named (method_of req))
  rpc_unmarshal_req_valid req e =
      sound_request (header message).method (rpc_unmarshal_req alloc v (map message)).0 req
        rpc_unmarshal_req-HasSoundResult e

  sound_crash :
      (method : Option String) (u : Unmarshalled)
      → HasSoundResult method u
      → u ≡ crashed
      → (method ≡ some "declare_post") ⊎ (method ≡ some "set_binary")
  sound_crash (some method) u h e =
      let crash : may_crash method ≡ true = subst (IsSoundResult method) e h in
      elim (Bool-cases (str_eq method "declare_post")) [
        | inl f ↦ inl (ap some ((eq_iff method "declare_post").0 f))
        | inr f ↦ inr (ap some ((eq_iff method "set_binary").0 (ground arith)))
      ]
  sound_crash none u h e = grind arith

  -- No message makes rpc_unmarshal_req follow a null pointer, except one of declare_post or
  -- set_binary.
  pub rpc_unmarshal_req_crash :
      (rpc_unmarshal_req alloc v (map message)).0 ≡ crashed
      → ((header message).method ≡ some "declare_post")
        ⊎ ((header message).method ≡ some "set_binary")
  rpc_unmarshal_req_crash e =
      sound_crash (header message).method (rpc_unmarshal_req alloc v (map message)).0
        rpc_unmarshal_req-HasSoundResult e
