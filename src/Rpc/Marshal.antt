-- ===== src/Rpc/Marshal.antt =====
-- src/rpc.c: how responses and notifications are marshalled. What is written is a list of tokens,
-- one for each call of the MessagePack library. Of the strings that the handlers marshal only the
-- reasons of a report may be a null pointer.
use feeds_service.Prelude.{
  ℕ, ◌+◌, String, Bool, true, false, List, [], ◌∷◌, ◌++◌, Option, none, some,
}
use feeds_service.Prelude.Tests.{◌==◌, if◌then◌else◌}
use feeds_service.Obj.{Blob}
use feeds_service.Rpc.Objects.{has_bytes}
pub mod Notifs
pub mod Responses
pub mod Messages
pub mod Objects
pub mod Sends
pub mod Posts
pub mod Unblocked

-- `map_of n` and `array_of n` announce n pairs and n elements. `int_negative n` is -1 - n, and
-- `other_token` what the source never writes.
pub data Token : Type 0 where
  str_token : String → Token
  u64_token int_negative map_of array_of : ℕ → Token
  bin_token : Blob → Token
  bool_token : Bool → Token
  nil_token other_token : Token

abbrev pub Tokens : Type 0
Tokens = List Token

-- Nothing, the key included, for a null pointer.
abbrev pub pack_kv_str : String → Option String → Tokens
pack_kv_str k none = []
pack_kv_str k (some v) = str_token k ∷ str_token v ∷ []

-- Of an error code, which is negative.
abbrev pub pack_kv_i64 : String → ℕ → Tokens
pack_kv_i64 k n = str_token k ∷ int_negative n ∷ []

abbrev pub pack_kv_u64 : String → ℕ → Tokens
pack_kv_u64 k v = str_token k ∷ u64_token v ∷ []

abbrev pub pack_kv_nil : String → Tokens
pack_kv_nil k = str_token k ∷ nil_token ∷ []

abbrev pub pack_kv_bool : String → Bool → Tokens
pack_kv_bool k b = str_token k ∷ bool_token b ∷ []

-- Nothing, the key included, for an empty sequence.
abbrev pub pack_kv_bin : String → Blob → Tokens
pack_kv_bin k b = if has_bytes b then str_token k ∷ bin_token b ∷ [] else []

abbrev pub pack_map : ℕ → Tokens → Tokens
pack_map kvs set_kvs = if kvs == 0 then [] else map_of kvs ∷ set_kvs

abbrev pub pack_kv_map : String → ℕ → Tokens → Tokens
pack_kv_map k map_kvs set_kvs = if map_kvs == 0 then [] else str_token k ∷ pack_map map_kvs set_kvs
