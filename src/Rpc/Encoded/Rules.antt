-- ===== src/Rpc/Encoded/Rules.antt =====
-- How each way to read a field of src/rpc.c reads the field's encoding.
use feeds_service.Prelude.{
  ℕ, String, str_eq, eq_iff, ◌≡◌, refl, Bool, true, false, Option, none, some,
}
use feeds_service.Obj.{Blob}
use feeds_service.Db.Listings.{QryFld, by_none, by_id, by_upd_at, by_created_at}
use feeds_service.Rpc.Objects.{
  Obj, str, u64, bin, boolean, Entries, no_entries, entry, Reader, accepted, ◌>>=◌, ◌>>◌, ret,
  field, checked, deref, zalloc, valid_fld, map_nxt_val, as_str, as_u64, as_bin, as_bool, take_if,
}
use feeds_service.Rpc.Requests.{Req}
use feeds_service.Rpc.Encoded.{of_qry_fld}

-- The reader takes the whole of the entries, and returns the request.
pub record Reads (m : Reader Req) (es : Entries) (req : Req) : Type 0 where
  pub at : m es ≡ accepted (req, no_entries)

taken :
    {A : Type 0}
    → (of : Obj → Option A) (key : String) (v : Obj) (es : Entries)
    → map_nxt_val of key (entry (str key) v es) ≡ take_if (of v) es (entry (str key) v es)
unfolding map_nxt_val
taken of key v es = rw ((eq_iff key key).1 refl) refl

module _ {req : Req} where
  pub ret-Reads : Reads (ret req) no_entries req
  unfolding ret
  ret-Reads = record { at = refl }

  pub zalloc-Reads :
      (k : Reader Req) (es : Entries) → Reads k es req → Reads (zalloc true >> k) es req
  unfolding zalloc ◌>>=◌
  zalloc-Reads k es h = record { at = h.at }

  module _ {A : Type 0} where
    checked-Reads :
        (of : Obj → Option A) (ok : A → Bool) (key : String) (f : A → Reader Req) (v : Obj) (a : A)
        (es : Entries)
        → of v ≡ some a
        → ok a ≡ true
        → Reads (f a) es req
        → Reads (checked of ok key >>= f) (entry (str key) v es) req
    unfolding checked ◌>>=◌
    checked-Reads of ok key f v a es e o h = record { at = rw (taken of key v es, e, o) h.at }

    field-Reads :
        (of : Obj → Option A) (key : String) (f : Option A → Reader Req) (v : Obj) (a : A)
        (es : Entries)
        → of v ≡ some a
        → Reads (f (some a)) es req
        → Reads (field of key >>= f) (entry (str key) v es) req
    unfolding field ◌>>=◌
    field-Reads of key f v a es e h = record { at = rw (taken of key v es, e) h.at }

    pub missing-Reads :
        (of : Obj → Option A) (key : String) (f : Option A → Reader Req)
        → Reads (f none) no_entries req
        → Reads (field of key >>= f) no_entries req
    unfolding field map_nxt_val ◌>>=◌
    missing-Reads of key f h = record { at = h.at }

    pub skipped-Reads :
        (of : Obj → Option A) (key : String) (f : Option A → Reader Req) (other : String) (v : Obj)
        (es : Entries)
        → str_eq other key ≡ false
        → Reads (f none) (entry (str other) v es) req
        → Reads (field of key >>= f) (entry (str other) v es) req
    unfolding field map_nxt_val ◌>>=◌
    skipped-Reads of key f other v es e h = record { at = rw e h.at }

    pub deref-Reads :
        (a : A) (f : A → Reader Req) (es : Entries)
        → Reads (f a) es req
        → Reads (deref (some a) >>= f) es req
    unfolding deref ◌>>=◌
    deref-Reads a f es h = record { at = h.at }

  pub checked_str-Reads :
      (ok : String → Bool) (key : String) (f : String → Reader Req) (a : String) (es : Entries)
      → ok a ≡ true
      → Reads (f a) es req
      → Reads (checked as_str ok key >>= f) (entry (str key) (str a) es) req
  checked_str-Reads ok key f a es = checked-Reads as_str ok key f (str a) a es refl

  pub checked_u64-Reads :
      (ok : ℕ → Bool) (key : String) (f : ℕ → Reader Req) (a : ℕ) (es : Entries)
      → ok a ≡ true
      → Reads (f a) es req
      → Reads (checked as_u64 ok key >>= f) (entry (str key) (u64 a) es) req
  checked_u64-Reads ok key f a es = checked-Reads as_u64 ok key f (u64 a) a es refl

  pub checked_bin-Reads :
      (ok : Blob → Bool) (key : String) (f : Blob → Reader Req) (a : Blob) (es : Entries)
      → ok a ≡ true
      → Reads (f a) es req
      → Reads (checked as_bin ok key >>= f) (entry (str key) (bin a) es) req
  checked_bin-Reads ok key f a es = checked-Reads as_bin ok key f (bin a) a es refl

  pub checked_bool-Reads :
      (ok : Bool → Bool) (key : String) (f : Bool → Reader Req) (a : Bool) (es : Entries)
      → ok a ≡ true
      → Reads (f a) es req
      → Reads (checked as_bool ok key >>= f) (entry (str key) (boolean a) es) req
  checked_bool-Reads ok key f a es = checked-Reads as_bool ok key f (boolean a) a es refl

  pub field_str-Reads :
      (key : String) (f : Option String → Reader Req) (a : String) (es : Entries)
      → Reads (f (some a)) es req
      → Reads (field as_str key >>= f) (entry (str key) (str a) es) req
  field_str-Reads key f a es = field-Reads as_str key f (str a) a es refl

  pub field_u64-Reads :
      (key : String) (f : Option ℕ → Reader Req) (a : ℕ) (es : Entries)
      → Reads (f (some a)) es req
      → Reads (field as_u64 key >>= f) (entry (str key) (u64 a) es) req
  field_u64-Reads key f a es = field-Reads as_u64 key f (u64 a) a es refl

  pub field_bin-Reads :
      (key : String) (f : Option Blob → Reader Req) (a : Blob) (es : Entries)
      → Reads (f (some a)) es req
      → Reads (field as_bin key >>= f) (entry (str key) (bin a) es) req
  field_bin-Reads key f a es = field-Reads as_bin key f (bin a) a es refl

  pub field_bool-Reads :
      (key : String) (f : Option Bool → Reader Req) (a : Bool) (es : Entries)
      → Reads (f (some a)) es req
      → Reads (field as_bool key >>= f) (entry (str key) (boolean a) es) req
  field_bool-Reads key f a es = field-Reads as_bool key f (boolean a) a es refl

  pub valid_fld-Reads :
      (key : String) (f : QryFld → Reader Req) (fld : QryFld) (es : Entries)
      → Reads (f fld) es req
      → Reads (valid_fld key >>= f) (entry (str key) (u64 (of_qry_fld fld)) es) req
  unfolding valid_fld checked ret ◌>>=◌
  valid_fld-Reads key f by_none es h = record { at = rw (taken as_u64 key (u64 0) es) h.at }
  valid_fld-Reads key f by_id es h = record { at = rw (taken as_u64 key (u64 1) es) h.at }
  valid_fld-Reads key f by_upd_at es h = record { at = rw (taken as_u64 key (u64 2) es) h.at }
  valid_fld-Reads key f by_created_at es h = record { at = rw (taken as_u64 key (u64 3) es) h.at }

pub ruleset read_rules = (
  ret-Reads, zalloc-Reads, missing-Reads, skipped-Reads, deref-Reads, checked_str-Reads,
  checked_u64-Reads, checked_bin-Reads, checked_bool-Reads, field_str-Reads, field_u64-Reads,
  field_bin-Reads, field_bool-Reads, valid_fld-Reads,
)
