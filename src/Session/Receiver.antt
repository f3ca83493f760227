-- ===== src/Session/Receiver.antt =====
-- However a stream of messages is cut into chunks, the parser delivers the messages.
use feeds_service.Prelude.{
  ℕ, zero, suc, ◌+◌, ◌-◌, ◌<◌, ◌≤◌, ◌≡◌, refl, ap, sym, ◌∙◌, Bool, true, false, none, List, [], ◌∷◌,
  ◌++◌, arith, inl, inr, ◌^◌,
}
use mathlib.Core.List.{append_assoc, append-nil}
use feeds_service.Prelude.Tests.{◌==◌, ltb, Bool-cases}
use feeds_service.Prelude.Lists.{length, drop, length-append, drop-append, cut}
use feeds_service.Obj.{Blob}
use feeds_service.Session.Defs
use feeds_service.Session.Defs.{
  Info, Protocol, Parser, Message, Progress, not_enough, failed, taken, new_protocol,
  unpack_protocol, extend32, Outcome, after, Round, stop, again, round_body, round, blank_parser,
  unpack_loop, unpack, unpack_head, receive,
}
use feeds_service.Session.Sender.{
  send_message, send_messages, flatten, flatten-append, flatten-send_data, flatten-send_stream,
  pack,
}
use feeds_service.Session.Frames.{
  frame, frames, IsSmall, AllSmall, info_of, header, length-header, frames-cons,
}
use feeds_service.Session.Expects.{
  in_head, in_body, unpack_head_enough, unpack_head_short, unpack_protocol_info,
  unpack_protocol_short, Expects, at_info, at_head, at_body, Advances, waits, moves, body_Advances,
}

-- The header and the head are complete: `t` is the part of the chunk that belongs to bodies.
past_head :
    (m : Message) (pre chunk t : Blob)
    → pre ++ chunk ≡ header m ++ (m.head ++ t)
    → IsSmall m
    → length pre ≤ 24 + length m.head
    → (drop (24 + length m.head - length pre) chunk ≡ t)
      × (length pre + length chunk ≡ 24 + length m.head + length t)
past_head m pre chunk t e small le =
    let front = length-header m small m.head in
    let (ws, split, rest) =
      cut pre chunk (header m ++ m.head) t (e ∙ sym (append_assoc (header m) m.head t))
        (ground arith) in
    let lengths = length-append pre ws in
    let size : length ws ≡ 24 + length m.head - length pre = ground (arith, ap length split) in
    (
      rw (← size, rest) (drop-append ws t),
      ground (arith, length-append pre chunk, ap length rest, length-append ws t),
    )

-- The header is complete, and was not, or the head is not: what unpackProtocol goes on to.
head_Advances :
    (dir_ok : Bool) (s : Parser) (m : Message) (ms : List Message) (pre chunk later t : Blob)
    → AllSmall (m ∷ ms)
    → unpack_protocol dir_ok chunk s
      ≡ unpack_head (length pre) 0 (new_protocol (info_of m)) (header m ++ t)
    → pre ++ chunk ≡ header m ++ t
    → t ++ later ≡ m.head ++ (m.body ++ frames ms)
    → length pre < 24 + length m.head
    → Advances chunk later (m ∷ ms) (round dir_ok chunk s)
unfolding round
head_Advances dir_ok s m ms pre chunk later t small step e stream lt =
    elim (Bool-cases (ltb (length t) (length m.head))) [
      | inl short ↦
          let size = length-header m small.0 t in
          let stay = unpack_head_short m small.0 (length pre) t (ground arith) in
          waits (in_head m (header m ++ t)) (rw (step ∙ stay, round) refl) (
            at_head (header m ++ t) m ms refl refl (ground arith) (ground arith) (
              append_assoc (header m) t later
              ∙ ap (◌++◌ (header m)) stream
              ∙ sym (frames-cons m ms)))
      | inr enough ↦
          let (t2, split, next) =
            cut m.head (m.body ++ frames ms) t later (sym stream) (ground arith) in
          let e2 : pre ++ chunk ≡ header m ++ (m.head ++ t2) = rw (← split) e in
          let (dropped, sizes) = past_head m pre chunk t2 e2 small.0 (omega arith) in
          let go = unpack_head_enough m small.0 (length pre) t2 (omega arith) in
          let all =
            step
            ∙ ap (λ x. unpack_head (length pre) 0 (new_protocol (info_of m)) (header m ++ x)) split
            ∙ go in
          rw (all, round)
            (rw dropped (
              body_Advances m ms small [] m.body t2 chunk later refl (sym next) (omega arith)
                (λ more. inl (omega arith))))
    ]

-- The cache and the chunk together hold a whole header of the stream.
with_header :
    (m : Message) (ms : List Message) (pre chunk later : Blob)
    → IsSmall m
    → (pre ++ chunk) ++ later ≡ frames (m ∷ ms)
    → 24 ≤ length (pre ++ chunk)
    → (t : Blob) × (pre ++ chunk ≡ header m ++ t) × (t ++ later ≡ m.head ++ (m.body ++ frames ms))
with_header m ms pre chunk later small e le =
    let size = length-header m small [] in
    let nothing : length {A = ℕ} [] ≡ 0 = unfold length in refl in
    let plain = ap length (append-nil (header m)) in
    let (t, split, next) =
      cut (header m) (m.head ++ (m.body ++ frames ms)) (pre ++ chunk) later
        (sym (e ∙ frames-cons m ms)) (omega arith) in
    (t, split, sym next)

info-Advances :
    (dir_ok : Bool) (pre chunk later : Blob) (ms : List Message)
    → dir_ok ≡ true
    → AllSmall ms
    → length pre < 24
    → (pre ++ chunk) ++ later ≡ frames ms
    → Advances chunk later ms (round dir_ok chunk (record { protocol = none; caching_data = pre }))
unfolding round
info-Advances dir_ok pre chunk later ms dir small lt e =
    elim (Bool-cases (ltb (length (pre ++ chunk)) 24)) [
      | inl short ↦
          waits _ (rw (unpack_protocol_short dir_ok pre chunk (ground arith), round) refl)
            (at_info (pre ++ chunk) refl (ground arith) e)
      | inr enough ↦ whole_header ms small e (ground arith)
    ]
  where
    whole_header :
        (ms : List Message)
        → AllSmall ms
        → (pre ++ chunk) ++ later ≡ frames ms
        → 24 ≤ length (pre ++ chunk)
        → Advances chunk later ms
            (round dir_ok chunk (record { protocol = none; caching_data = pre }))
    whole_header [] small e le =
        unfold frames length in
        absurd (omega (arith, ap (length {A = ℕ}) e, length-append (pre ++ chunk) later))
    whole_header (m ∷ ms) small e le =
        let (t, split, next) = with_header m ms pre chunk later small.0 e le in
        head_Advances dir_ok _ m ms pre chunk later t small
          (unpack_protocol_info dir_ok m small.0 pre chunk t dir split) split next (omega arith)

in_head-Advances :
    (dir_ok : Bool) (m : Message) (ms : List Message) (pre chunk later : Blob)
    → AllSmall (m ∷ ms)
    → 24 ≤ length pre
    → length pre < 24 + length m.head
    → (pre ++ chunk) ++ later ≡ frames (m ∷ ms)
    → Advances chunk later (m ∷ ms) (round dir_ok chunk (in_head m pre))
in_head-Advances dir_ok m ms pre chunk later small le lt e =
    let sizes = length-append pre chunk in
    let (t, split, next) = with_header m ms pre chunk later small.0 e (omega arith) in
    head_Advances dir_ok (in_head m pre) m ms pre chunk later t small (step t split) split next lt
  where
    step :
        (t : Blob)
        → pre ++ chunk ≡ header m ++ t
        → unpack_protocol dir_ok chunk (in_head m pre)
          ≡ unpack_head (length pre) 0 (new_protocol (info_of m)) (header m ++ t)
    step t split =
        let fits = small.0.head_fits in
        let nothing : length {A = ℕ} [] ≡ 0 = unfold length in refl in
        let some_head : (extend32 (length m.head) == length {A = ℕ} []) ≡ false = ground arith in
        unfold unpack_protocol in simp (some_head, split) refl

body_round :
    (dir_ok : Bool) (m : Message) (ms : List Message) (got left chunk later : Blob)
    → AllSmall (m ∷ ms)
    → got ++ left ≡ m.body
    → 1 ≤ length left
    → chunk ++ later ≡ left ++ frames ms
    → Advances chunk later (m ∷ ms) (round dir_ok chunk (in_body m got))
unfolding round drop
body_round dir_ok m ms got left chunk later small whole full stream =
    let fits = small.0.head_fits in
    let same : (extend32 (length m.head) == length m.head) ≡ true = ground arith in
    let none_taken : unpack_protocol dir_ok chunk (in_body m got) ≡ taken 0 (in_body m got) =
      unfold unpack_protocol in simp same refl in
    rw (none_taken, round)
      (body_Advances m ms small got left chunk chunk later whole stream (omega arith)
        (λ more. inr full))

-- A round of the loop, on any part of the stream.
round-Advances :
    (dir_ok : Bool) (s : Parser) (chunk later : Blob) (ms : List Message)
    → dir_ok ≡ true
    → AllSmall ms
    → Expects s (chunk ++ later) ms
    → Advances chunk later ms (round dir_ok chunk s)
round-Advances dir_ok s chunk later ms dir small (at_info pre e lt stream) =
    rw e
      (info-Advances dir_ok pre chunk later ms dir small lt (append_assoc pre chunk later ∙ stream))
round-Advances dir_ok s chunk later ms dir small (at_head pre m rest e is le lt stream) =
    let small' : AllSmall (m ∷ rest) = rw is at small in
    let stream' : (pre ++ chunk) ++ later ≡ frames (m ∷ rest) =
      append_assoc pre chunk later ∙ stream ∙ ap frames is in
    rw (e, is) (in_head-Advances dir_ok m rest pre chunk later small' le lt stream')
round-Advances dir_ok s chunk later ms dir small (at_body m rest got left e is whole full stream) =
    let small' : AllSmall (m ∷ rest) = rw is at small in
    rw (e, is) (body_round dir_ok m rest got left chunk later small' whole full stream)

-- The messages that a call delivers, and what the parser expects then.
pub record Delivers (o : Outcome) (later : Blob) (ms : List Message) : Type 0 where
  pub parser : Parser
  pub out : List Message
  pub next : List Message
  pub ends : o ≡ feeds_service.Session.Defs.ok parser out
  pub order : ms ≡ out ++ next
  pub small : AllSmall next
  pub expects : Expects parser later next

-- The recursive calls, on what a round leaves of the chunk.
abbrev Continues : ℕ → Bool → Blob → Type 0
Continues fuel dir_ok later =
    (s : Parser) (chunk : Blob) (ms : List Message)
    → length chunk < fuel
    → AllSmall ms
    → Expects s (chunk ++ later) ms
    → Delivers (unpack_loop fuel dir_ok chunk s) later ms

unpack_round-Delivers :
    (fuel : ℕ) (dir_ok : Bool) (s : Parser) (chunk later : Blob) (ms : List Message)
    → Continues fuel dir_ok later
    → length chunk < suc fuel
    → AllSmall ms
    → Advances chunk later ms (round dir_ok chunk s)
    → Delivers (unpack_loop (suc fuel) dir_ok chunk s) later ms
unfolding unpack_loop
unpack_round-Delivers fuel dir_ok s chunk later ms continue enough small (waits t is ex) = record {
  parser = t;
  out = [];
  next = ms;
  ends = rw (is, unpack_loop) refl;
  order = refl;
  small = small;
  expects = ex;
}
unpack_round-Delivers fuel dir_ok s chunk later ms continue enough small
      (moves t [] out next is order less small' ex) =
    record {
      parser = t;
      out = out;
      next = next;
      ends = rw (is, unpack_loop) refl;
      order = order;
      small = small';
      expects = ex;
    }
unpack_round-Delivers fuel dir_ok s chunk later ms continue enough small
      (moves t (b ∷ rest) out next is order less small' ex) =
    let full : 1 ≤ length (b ∷ rest) = unfold length in omega arith in
    let shorter = less full in
    let d = continue t (b ∷ rest) next (omega arith) small' ex in
    record {
      parser = d.parser;
      out = out ++ d.out;
      next = d.next;
      ends = rw (is, unpack_loop) (rw (d.ends) refl);
      order = order ∙ ap (◌++◌ out) (d.order) ∙ sym (append_assoc out (d.out) (d.next));
      small = d.small;
      expects = d.expects;
    }

unpack_loop-Delivers :
    (fuel : ℕ) (dir_ok : Bool) (s : Parser) (chunk later : Blob) (ms : List Message)
    → dir_ok ≡ true
    → length chunk < fuel
    → AllSmall ms
    → Expects s (chunk ++ later) ms
    → Delivers (unpack_loop fuel dir_ok chunk s) later ms
unpack_loop-Delivers zero dir_ok s chunk later ms dir enough small h = absurd (omega arith)
unpack_loop-Delivers (suc fuel) dir_ok s chunk later ms dir enough small h =
    unpack_round-Delivers fuel dir_ok s chunk later ms
      (λ t rest next lt small' ex.
        unpack_loop-Delivers fuel dir_ok t rest later next dir lt small' ex)
      enough small (round-Advances dir_ok s chunk later ms dir small h)

-- Nothing is expected any more.
Expects-done :
    (s : Parser) (ms : List Message)
    → AllSmall ms
    → Expects s [] ms
    → (s ≡ blank_parser) × (ms ≡ [])
Expects-done s [] small (at_info pre e lt stream) =
    let nothing : pre ≡ [] = unfold frames in (rw append-nil at stream) in
    (e ∙ ap (λ c. record { protocol = none; caching_data = c }) nothing, refl)
Expects-done s (m ∷ ms) small (at_info pre e lt stream) =
    let whole = length-header m small.0 (m.head ++ (m.body ++ frames ms)) in
    let same = ap (length {A = ℕ}) (rw append-nil at stream) in
    let cons = ap (length {A = ℕ}) (frames-cons m ms) in absurd (omega arith)
Expects-done s ms small (at_head pre m rest e is le lt stream) =
    let small' : AllSmall (m ∷ rest) = rw is at small in
    let whole = length-header m small'.0 (m.head ++ (m.body ++ frames rest)) in
    let same = ap (length {A = ℕ}) (rw append-nil at stream) in
    let cons = ap (length {A = ℕ}) (ap frames is ∙ frames-cons m rest) in
    let parts = length-append m.head (m.body ++ frames rest) in absurd (omega arith)
Expects-done s ms small (at_body m rest got left e is whole full stream) =
    let nothing : length {A = ℕ} [] ≡ 0 = unfold length in refl in
    absurd (omega (arith, ap (length {A = ℕ}) stream, length-append left (frames rest)))

receive-Expects :
    (chunks : List Blob) (s : Parser) (ms : List Message)
    → AllSmall ms
    → Expects s (flatten chunks) ms
    → receive true chunks s ≡ feeds_service.Session.Defs.ok blank_parser ms
unfolding receive flatten unpack
receive-Expects [] s ms small h = let (done, all) = Expects-done s ms small h in rw (done, all) refl
receive-Expects (c ∷ cs) s ms small h =
    let d =
      unpack_loop-Delivers (length c + 2) true s c (flatten cs) ms refl (omega arith) small h in
    rw (d.ends, receive)
      (rw (receive-Expects cs (d.parser) (d.next) (d.small) (d.expects)) (rw (d.order) refl))

-- However the bytes of any messages of moderate sizes are cut into chunks, a parser that starts
-- afresh delivers these messages, in order and whole, and is afresh after them.
pub receive-frames :
    (chunks : List Blob) (ms : List Message)
    → AllSmall ms
    → flatten chunks ≡ frames ms
    → receive true chunks blank_parser ≡ feeds_service.Session.Defs.ok blank_parser ms
receive-frames chunks ms small e =
    receive-Expects chunks blank_parser ms small (at_info [] refl (unfold length in omega arith) e)

-- Heads and bodies with which the index of sendData, an int that goes up by 2,048, does not overflow.
abbrev pub AllSendable : List Message → Type 0
AllSendable [] = Unit {0}
AllSendable (m ∷ ms) =
    (length m.head + 2048 ≤ 2 ^ 31) × (length m.body + 2048 ≤ 2 ^ 31) × AllSendable ms

flatten-send_message : (m : Message) → length m.body < 2 ^ 31 → flatten (send_message m) ≡ frame m
unfolding send_message
flatten-send_message m short =
    rw
      (
        flatten-append (feeds_service.Session.Sender.send_data (pack m.head m.body)),
        flatten-append (feeds_service.Session.Sender.send_data m.head),
      )
      (rw
        (
          flatten-send_data (pack m.head m.body),
          flatten-send_data m.head,
          flatten-send_stream m.body short,
        )
        refl)

flatten-send_messages :
    (ms : List Message) → AllSendable ms → flatten (send_messages ms) ≡ frames ms
unfolding send_messages frames flatten
flatten-send_messages [] h = refl
flatten-send_messages (m ∷ ms) (head, body, h) =
    flatten-append (send_message m) (send_messages ms)
    ∙ rw (flatten-send_message m (omega arith), flatten-send_messages ms h) refl

-- What a session writes, slice by slice, for any messages with heads and bodies of 2^31 - 2048 bytes
-- at most is what the parser at the other end delivers.
pub receive-send_messages :
    (ms : List Message)
    → AllSmall ms
    → AllSendable ms
    → receive true (send_messages ms) blank_parser ≡ feeds_service.Session.Defs.ok blank_parser ms
receive-send_messages ms small short =
    receive-frames (send_messages ms) ms small (flatten-send_messages ms short)
