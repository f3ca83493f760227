-- ===== src/Session/Sender.antt =====
-- src/massdata: what a session writes for a message. SessionParser::pack makes the header,
-- MassDataManager sends it, the head and the body, and CarrierSessionHelper::sendData cuts what it
-- sends into steps.
use feeds_service.Prelude.{
  ℕ, zero, suc, ◌%◌, ◌^◌, ◌≤◌, ◌<◌, true, ◌≡◌, refl, sym, ap, ◌∙◌, List, [], ◌∷◌, ◌++◌, arith,
}
use feeds_service.Prelude.Tests.{ltb, if◌then◌else◌}
use mathlib.Core.List.{append_assoc, append-nil}
use feeds_service.Prelude.Lists.{length, take, drop, take-drop, take-append, length-drop}
use feeds_service.Obj.{Blob}
use feeds_service.Session.Defs.{Message, magic, version_01_00_00, write4, write8}

-- Sizes are taken modulo the width of their fields. A body file that is not there has size 0.
unfoldable pub pack : Blob → Blob → Blob
pack head body =
    write8 magic ++ (write4 version_01_00_00 ++ (write4 (length head) ++ write8 (length body)))

abbrev pub step : ℕ
step = 2048

-- The slices that sendData writes, on fuel.
unfoldable pub slices : ℕ → Blob → List Blob
slices zero data_left = []
slices (suc fuel) [] = []
slices (suc fuel) (b ∷ rest) = take step (b ∷ rest) ∷ slices fuel (drop step (b ∷ rest))

-- The writes of sendData, for a vector, while all of them succeed. Its index is an int: vectors and
-- streams of more than 2^31 - 2048 bytes, with which it overflows, are not modelled.
unfoldable pub send_data : Blob → List Blob
send_data bytes = slices (length bytes) bytes

-- The writes of sendData for a stream. Its size is kept in an int: of the 32 bits that are left of
-- it, the upper half is negative, and then nothing is written.
unfoldable pub send_stream : Blob → List Blob
send_stream bytes =
    let data_size = length bytes % 2 ^ 32 in
    if ltb data_size (2 ^ 31) then slices data_size (take data_size bytes) else []

-- sendData(sessionProtocolData), sendData(resultHeadData), sendData(bodyStream)
unfoldable pub send_message : Message → List Blob
send_message m = send_data (pack m.head m.body) ++ (send_data m.head ++ send_stream m.body)

unfoldable pub send_messages : List Message → List Blob
send_messages [] = []
send_messages (m ∷ ms) = send_message m ++ send_messages ms

unfoldable pub flatten : List Blob → Blob
flatten [] = []
flatten (c ∷ cs) = c ++ flatten cs

pub flatten-append : (xs ys : List Blob) → flatten (xs ++ ys) ≡ flatten xs ++ flatten ys
unfolding flatten
flatten-append [] ys = refl
flatten-append (x ∷ xs) ys =
    rw (flatten-append xs ys) (sym (append_assoc x (flatten xs) (flatten ys)))

flatten-slices :
    (fuel : ℕ) (bytes : Blob) → length bytes ≤ fuel → flatten (slices fuel bytes) ≡ bytes
unfolding slices flatten
flatten-slices zero [] h = refl
flatten-slices zero (b ∷ rest) h = unfold length in ground arith
flatten-slices (suc fuel) [] h = refl
flatten-slices (suc fuel) (b ∷ rest) h =
    let shorter = length-drop step (b ∷ rest) in
    let enough : length (drop step (b ∷ rest)) ≤ fuel = unfold length in omega arith in
    rw (flatten-slices fuel (drop step (b ∷ rest)) enough) (take-drop step (b ∷ rest))

-- Whatever its size, the slices of a write put together are its bytes.
pub flatten-send_data : (bytes : Blob) → flatten (send_data bytes) ≡ bytes
unfolding send_data
flatten-send_data bytes = flatten-slices (length bytes) bytes (omega arith)

take-whole : (bytes : Blob) → take (length bytes) bytes ≡ bytes
take-whole bytes = ap (take (length bytes)) (sym (append-nil bytes)) ∙ take-append bytes []

-- So are those of a stream of fewer than 2^31 bytes.
pub flatten-send_stream :
    (bytes : Blob) → length bytes < 2 ^ 31 → flatten (send_stream bytes) ≡ bytes
unfolding send_stream
flatten-send_stream bytes short =
    let size : length bytes % 2 ^ 32 ≡ length bytes = omega arith in
    let test : ltb (length bytes) (2 ^ 31) ≡ true = ground arith in
    rw (size, test, take-whole bytes) (flatten-slices (length bytes) bytes (omega arith))
