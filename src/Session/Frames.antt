-- ===== src/Session/Frames.antt =====
-- The bytes of a message, and how the parser reads its header.
use feeds_service.Prelude.{ℕ, ◌+◌, ◌<◌, ◌^◌, ◌≡◌, refl, ap, ◌∙◌, List, [], ◌∷◌, ◌++◌, arith}
use mathlib.Core.List.{append_assoc}
use feeds_service.Prelude.Lists.{length, drop}
use feeds_service.Obj.{Blob}
use feeds_service.Session.Defs.{
  Info, Message, read4, read8, write4, write8, magic, version_01_00_00, garbage_idx,
}
use feeds_service.Session.Sender.{pack}

abbrev pub frame : Message → Blob
frame m = pack m.head m.body ++ (m.head ++ m.body)

unfoldable pub frames : List Message → Blob
frames [] = []
frames (m ∷ ms) = frame m ++ frames ms

-- The sizes fit the signed fields of the header.
pub record IsSmall (m : Message) : Type 0 where
  pub head_fits : length m.head < 2 ^ 31
  pub body_fits : length m.body < 2 ^ 63

abbrev pub AllSmall : List Message → Type 0
AllSmall [] = Unit {0}
AllSmall (m ∷ ms) = IsSmall m × AllSmall ms

-- The header of a message.
abbrev pub info_of : Message → Info
info_of m = record {
  magic_number = magic;
  version = version_01_00_00;
  head_size = length m.head;
  body_size = length m.body;
}

abbrev pub header : Message → Blob
header m = pack m.head m.body

pub read4-write4 : (v : ℕ) (t : Blob) → v < 2 ^ 32 → read4 (write4 v ++ t) ≡ v
read4-write4 v t h = omega arith

pub read8-write8 : (v : ℕ) (t : Blob) → v < 2 ^ 64 → read8 (write8 v ++ t) ≡ v
read8-write8 v t h = omega arith

module _ (m : Message) (small : IsSmall m) (t : Blob) where
  pub length-header : length (header m ++ t) ≡ 24 + length t
  unfolding length pack
  length-header = omega arith

  pub read_magic : read8 (header m ++ t) ≡ magic
  unfolding pack
  read_magic = refl

  pub read_version : read4 (drop 8 (header m ++ t)) ≡ version_01_00_00
  unfolding pack drop
  read_version = refl

  pub read_head_size : read4 (drop 12 (header m ++ t)) ≡ length m.head
  unfolding pack drop
  read_head_size =
      let h = small.head_fits in
      read4-write4 (length m.head) (write8 (length m.body) ++ t) (omega arith)

  pub read_body_size : read8 (drop 16 (header m ++ t)) ≡ length m.body
  unfolding pack drop
  read_body_size = let h = small.body_fits in read8-write8 (length m.body) t (omega arith)

  pub no_garbage : garbage_idx (header m ++ t) ≡ 0
  unfolding pack garbage_idx length
  no_garbage = ground arith

pub garbage_idx-short : (xs : Blob) → length xs < 24 → garbage_idx xs ≡ 0
unfolding garbage_idx
garbage_idx-short [] h = refl
garbage_idx-short (x ∷ xs) h = ground arith

pub frames-cons :
    (m : Message) (ms : List Message)
    → frames (m ∷ ms) ≡ header m ++ (m.head ++ (m.body ++ frames ms))
unfolding frames
frames-cons m ms =
    append_assoc (header m) (m.head ++ m.body) (frames ms)
    ∙ ap (◌++◌ (header m)) (append_assoc m.head m.body (frames ms))
