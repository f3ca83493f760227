-- ===== src/Tests/Sessions.antt =====
-- Two messages over a session, and headers that go wrong.
use feeds_service.Prelude.{◌≡◌, ◌++◌, ◌-◌, ◌^◌, true, false, [], ◌∷◌, List, arith}
use mathlib.Core.List.{append-nil}
use feeds_service.Prelude.Lists.{length, take, drop, take-drop}
use feeds_service.Obj.{Blob}
use feeds_service.Session.Defs
use feeds_service.Session.Defs.{Message, crash, receive, unpack, version_01_00_00, blank_parser}
use feeds_service.Session.Sender.{send_messages, flatten}
use feeds_service.Session.Frames.{frames, AllSmall}
use feeds_service.Session.Receiver.{receive-frames, receive-send_messages}
use feeds_service.Session.Faults.{raw_header, unpack-crash}
use feeds_service.Session.Rounds.{is_stuck}
use feeds_service.Session.Ends.{unpack-is_stuck}
use feeds_service.Session.Rejected.{rejected, empty_messages, receive-raw_header}

abbrev two : List Message
two = record { head = 1 ∷ 2 ∷ []; body = 3 ∷ [] } ∷ record { head = []; body = 4 ∷ 5 ∷ [] } ∷ []

small : AllSmall two
unfolding length
small = (
  record { head_fits = omega arith; body_fits = omega arith },
  (record { head_fits = omega arith; body_fits = omega arith }, tt),
)

-- The bytes of both messages, in one chunk, and cut inside of the first header.
abbrev both : Blob
both = frames two

abbrev in_two : List Blob
in_two = take 5 both ∷ drop 5 both ∷ []

in_two-frames : flatten in_two ≡ frames two
unfolding flatten
in_two-frames = rw append-nil (take-drop 5 both)

receive-frames_example : receive true in_two blank_parser ≡ Defs.ok blank_parser two
receive-frames_example = receive-frames in_two two small in_two-frames

receive-send_messages_example :
    receive true (send_messages two) blank_parser ≡ Defs.ok blank_parser two
unfolding length
receive-send_messages_example =
    receive-send_messages two small (omega arith, omega arith, (omega arith, omega arith, tt))

unpack-crash_example :
    unpack true (raw_header version_01_00_00 (2 ^ 32 - 1) 0 (7 ∷ [])) blank_parser ≡ crash []
unpack-crash_example = unpack-crash 1 0 (7 ∷ []) (omega arith) (omega arith)

receive-raw_header_example :
    receive true (raw_header 10001 0 0 [] ∷ (1 ∷ []) ∷ (2 ∷ 3 ∷ []) ∷ []) blank_parser
    ≡ Defs.ok
        (rejected 10001 0 0 ([] ++ flatten ((1 ∷ []) ∷ (2 ∷ 3 ∷ []) ∷ [])))
        (empty_messages ((1 ∷ []) ∷ (2 ∷ 3 ∷ []) ∷ []))
unfolding length
receive-raw_header_example =
    receive-raw_header 10001 0 0 [] ((1 ∷ []) ∷ (2 ∷ 3 ∷ []) ∷ []) (omega arith)
      (λ e. absurd (omega arith)) (omega arith, (omega arith, tt))

unpack-is_stuck_example : is_stuck (unpack true (7 ∷ 9 ∷ []) blank_parser) ≡ false
unpack-is_stuck_example =
    unpack-is_stuck true (7 ∷ 9 ∷ []) blank_parser (omega arith, (omega arith, tt)) tt tt
