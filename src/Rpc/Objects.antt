-- ===== src/Rpc/Objects.antt =====
-- src/rpc.c: MessagePack objects, and how a request's fields are taken from a map. The library that
-- decodes the bytes is not modelled: an object is what it has decoded. A string has no zero byte.
use Prim.Native.String.{len}
use feeds_service.Prelude.{ℕ, String, str_eq, Bool, true, false, not, Option, none, some, [], ◌∷◌}
use feeds_service.Prelude.Tests.{◌==◌, leb, if◌then◌else◌}
use feeds_service.Prelude.Lists.{length}
use feeds_service.Obj.{Blob}
use feeds_service.Db.Listings.{QryFld, by_none, by_id, by_upd_at, by_created_at}

-- msgpack_object. `negative n` is -1 - n; `other`: a float or an extension.
mutual
  pub data Obj : Type 0 where
    nil other : Obj
    boolean : Bool → Obj
    u64 negative : ℕ → Obj
    str : String → Obj
    bin : Blob → Obj
    array : Objs → Obj
    map : Entries → Obj

  pub data Objs : Type 0 where
    no_objs : Objs
    obj : Obj → Objs → Objs

  -- The pairs of a map, from the index of the cursor on. A null map has no pairs.
  pub data Entries : Type 0 where
    no_entries : Entries
    entry : Obj → Obj → Entries → Entries

abbrev pub is_key : String → Obj → Bool
is_key key (str s) = str_eq s key
is_key key _ = false

module _ {A : Type 0} where
  -- map_nxt_val_...: the value under the cursor, if its key is the one asked for and it has the
  -- type. Otherwise the cursor stays, so that the fields have to come in the order of the calls.
  abbrev pub take_if : Option A → Entries → Entries → Option A × Entries
  take_if none rest here = (none, here)
  take_if (some a) rest here = (some a, rest)

  unfoldable pub map_nxt_val : (Obj → Option A) → String → Entries → Option A × Entries
  map_nxt_val of key no_entries = (none, no_entries)
  map_nxt_val of key (entry k v rest) =
      if is_key key k then take_if (of v) rest (entry k v rest) else (none, entry k v rest)

abbrev pub as_str : Obj → Option String
as_str (str s) = some s
as_str _ = none

abbrev pub as_u64 : Obj → Option ℕ
as_u64 (u64 n) = some n
as_u64 _ = none

abbrev pub as_bin : Obj → Option Blob
as_bin (bin b) = some b
as_bin _ = none

abbrev pub as_bool : Obj → Option Bool
as_bool (boolean b) = some b
as_bool _ = none

abbrev pub as_map : Obj → Option Entries
as_map (map es) = some es
as_map _ = none

-- How a function that unmarshals ends: with a request, with -1, or by following a null pointer.
pub data Parsed (A : Type 0) : Type 0 where
  accepted : A → Parsed A
  refused null_pointer : Parsed A

-- A step that reads from the cursor.
abbrev pub Reader : Type 0 → Type 0
Reader A = Entries → Parsed (A × Entries)

module _ {A B : Type 0} where
  abbrev pub and_then : Parsed (A × Entries) → (A → Reader B) → Parsed (B × Entries)
  and_then (accepted (a, c)) f = f a c
  and_then refused f = refused
  and_then null_pointer f = null_pointer

  infixl 5 ◌>>=◌
  unfoldable pub ◌>>=◌ : Reader A → (A → Reader B) → Reader B
  (m >>= f) c = and_then (m c) f

infixl 5 ◌>>◌
abbrev pub ◌>>◌ : {B : Type 0} → Reader (Unit {0}) → Reader B → Reader B
m >> k = m >>= λ _. k

module _ {A : Type 0} where
  unfoldable pub ret : A → Reader A
  ret a c = accepted (a, c)

  -- A field that may be missing.
  unfoldable pub field : (Obj → Option A) → String → Reader (Option A)
  field of key c = accepted (map_nxt_val of key c)

  abbrev pub ensure : (A → Bool) → Option A × Entries → Parsed (A × Entries)
  ensure ok (none, c) = refused
  ensure ok (some a, c) = if ok a then accepted (a, c) else refused

  -- A field without which, or if it does not pass the test, the request is refused. The tests come
  -- after all reads in the source; since each of them only refuses, each is made with its read.
  unfoldable pub checked : (Obj → Option A) → (A → Bool) → String → Reader A
  checked of ok key c = ensure ok (map_nxt_val of key c)

  -- x->u64_val and the like, on a field that may be missing
  unfoldable pub deref : Option A → Reader A
  deref none c = null_pointer
  deref (some a) c = accepted (a, c)

-- rc_zalloc
unfoldable pub zalloc : Bool → Reader (Unit {0})
zalloc true c = accepted (tt, c)
zalloc false c = refused

-- chan_id_is_valid and the others: all ids start at 1.
abbrev pub id_is_valid : ℕ → Bool
id_is_valid id = leb 1 id

abbrev pub qry_fld_is_valid : ℕ → Bool
qry_fld_is_valid fld = leb fld 3

abbrev pub is_full : String → Bool
is_full s = not (len s == 0)

abbrev pub has_bytes : Blob → Bool
has_bytes b = not (length b == 0)

abbrev pub anything : {A : Type 0} → A → Bool
anything a = true

abbrev pub to_qry_fld : ℕ → QryFld
to_qry_fld fld =
    if fld == 0
    then by_none
    else if fld == 1
    then by_id
    else if fld == 2
    then by_upd_at
    else by_created_at

abbrev pub full_str : String → Reader String
full_str = checked as_str is_full

abbrev pub full_bin : String → Reader Blob
full_bin = checked as_bin has_bytes

abbrev pub given_u64 : String → Reader ℕ
given_u64 = checked as_u64 anything

abbrev pub given_bool : String → Reader Bool
given_bool = checked as_bool anything

abbrev pub valid_id : String → Reader ℕ
valid_id = checked as_u64 id_is_valid

unfoldable pub valid_fld : String → Reader QryFld
valid_fld key = checked as_u64 qry_fld_is_valid key >>= λ fld. ret (to_qry_fld fld)

-- What the functions read first.
pub record Header : Type 0 where
  pub version : Option String
  pub method : Option String
  pub tsx_id : Option ℕ
  pub params : Entries

abbrev pub or_no_entries : Option Entries → Entries
or_no_entries none = no_entries
or_no_entries (some es) = es

unfoldable pub header : Entries → Header
header req =
    let (version, c1) = map_nxt_val as_str "version" req in
    let (method, c2) = map_nxt_val as_str "method" c1 in
    let (tsx_id, c3) = map_nxt_val as_u64 "id" c2 in
    record {
      version = version;
      method = method;
      tsx_id = tsx_id;
      params = or_no_entries (map_nxt_val as_map "params" c3).0;
    }

-- What version 1.0 of a request leaves out.
abbrev pub na : String
na = "NA"

abbrev pub no_thumbnails : Blob
no_thumbnails = 160 ∷ []
