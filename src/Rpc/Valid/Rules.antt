-- ===== src/Rpc/Valid/Rules.antt =====
-- The rules by which each function of src/rpc.c that unmarshals a request ensures that it is valid.
use feeds_service.Prelude.{
  ℕ, String, str_eq, ◌≡◌, Bool, true, false, ◌||◌, Option, none, some, inl, inr,
}
use feeds_service.Prelude.Tests.{if◌then◌else◌, Bool-cases}
use feeds_service.Db.Listings.{QryFld}
use feeds_service.Rpc.Objects.{
  Obj, Entries, Reader, Parsed, accepted, refused, null_pointer, ensure, ◌>>=◌, ◌>>◌, ret, field,
  checked, deref, zalloc, valid_fld, map_nxt_val, is_full, has_bytes, id_is_valid, qry_fld_is_valid,
  as_u64, to_qry_fld, no_thumbnails,
}
use feeds_service.Rpc.Requests.{Req}
use feeds_service.Rpc.Valid.{is_valid, method_of, struct_method, and_intro, no_thumbnails-has_bytes}

-- The requests with a field that may be missing and is read all the same.
abbrev pub may_crash : String → Bool
may_crash method = str_eq method "declare_post" || str_eq method "set_binary"

-- All structs have their method, but those of update_user_info.
abbrev pub named : String → Option String
named method = if str_eq method "update_user_info" then none else some method

abbrev pub IsSoundAt : String → Parsed (Req × Entries) → Type 0
IsSoundAt method (accepted (req, c)) =
    (is_valid req ≡ true) × (method_of req ≡ method) × (struct_method req ≡ named method)
IsSoundAt method refused = Unit {0}
IsSoundAt method null_pointer = may_crash method ≡ true

-- A request that is read is valid and the method's own, and null pointers are followed for the
-- methods above at most.
pub record IsSound (method : String) (m : Reader Req) : Type 0 where
  pub at : (c : Entries) → IsSoundAt method (m c)

module _ {method : String} where
  pub ret-IsSound :
      (req : Req)
      → is_valid req ≡ true
      → method_of req ≡ method
      → struct_method req ≡ named method
      → IsSound method (ret req)
  unfolding ret
  ret-IsSound req v m n = record { at = λ c. (v, m, n) }

  pub zalloc-IsSound :
      (alloc : Bool) (k : Reader Req) → IsSound method k → IsSound method (zalloc alloc >> k)
  unfolding zalloc ◌>>=◌
  zalloc-IsSound true k h = record { at = h.at }
  zalloc-IsSound false k h = record { at = λ c. tt }

  module _ {A : Type 0} where
    pub checked-IsSound :
        (of : Obj → Option A) (ok : A → Bool) (key : String) (f : A → Reader Req)
        → ((a : A) → ok a ≡ true → IsSound method (f a))
        → IsSound method (checked of ok key >>= f)
    unfolding checked ◌>>=◌
    checked-IsSound of ok key f h = record { at = λ c. read (map_nxt_val of key c) }
      where
        read :
            (x : Option A × Entries)
            → IsSoundAt method (feeds_service.Rpc.Objects.and_then (ensure ok x) f)
        read (none, c) = tt
        read (some a, c) = elim (Bool-cases (ok a)) [
          | inl e ↦ rw e ((h a e).at c)
          | inr e ↦ rw e tt
        ]

    pub field-IsSound :
        (of : Obj → Option A) (key : String) (f : Option A → Reader Req)
        → ((o : Option A) → IsSound method (f o))
        → IsSound method (field of key >>= f)
    unfolding field ◌>>=◌
    field-IsSound of key f h = record {
      at = λ c. (h (map_nxt_val of key c).0).at (map_nxt_val of key c).1;
    }

    pub deref-IsSound :
        (o : Option A) (f : A → Reader Req)
        → may_crash method ≡ true
        → ((a : A) → IsSound method (f a))
        → IsSound method (deref o >>= f)
    unfolding deref ◌>>=◌
    deref-IsSound none f m h = record { at = λ c. m }
    deref-IsSound (some a) f m h = record { at = (h a).at }

  pub valid_fld-IsSound :
      (key : String) (f : QryFld → Reader Req)
      → ((fld : QryFld) → IsSound method (f fld))
      → IsSound method (valid_fld key >>= f)
  unfolding valid_fld checked ret ◌>>=◌
  valid_fld-IsSound key f h = record { at = λ c. read (map_nxt_val as_u64 key c) }
    where
      read :
          (x : Option ℕ × Entries)
          → IsSoundAt method (
              feeds_service.Rpc.Objects.and_then
                (feeds_service.Rpc.Objects.and_then
                  (ensure qry_fld_is_valid x)
                  (λ fld c. accepted (to_qry_fld fld, c)))
                f)
      read (none, c) = tt
      read (some a, c) = elim (Bool-cases (qry_fld_is_valid a)) [
        | inl e ↦ rw e ((h (to_qry_fld a)).at c)
        | inr e ↦ rw e tt
      ]

pub ruleset sound_rules = (
  ret-IsSound, zalloc-IsSound, checked-IsSound, field-IsSound, deref-IsSound, valid_fld-IsSound,
  and_intro, no_thumbnails-has_bytes,
)
