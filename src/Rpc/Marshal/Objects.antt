-- ===== src/Rpc/Marshal/Objects.antt =====
-- Which tokens are one object of MessagePack: after a map's token come its keys and values, after
-- an array's token its elements.
use feeds_service.Prelude.{ℕ, zero, suc, ◌+◌, ◌≡◌, ap, ◌∙◌, Bool, true, false, [], ◌∷◌, ◌++◌, arith}
use mathlib.Core.List.{append_assoc, append-nil}
use feeds_service.Rpc.Objects.{
  Obj, nil, other, boolean, u64, negative, str, bin, array, map, Objs, no_objs, obj, Entries,
  no_entries, entry,
}
use feeds_service.Rpc.Marshal.{
  Token, Tokens, str_token, u64_token, int_negative, map_of, array_of, bin_token, bool_token,
  nil_token, other_token,
}

abbrev pub children : Token → ℕ
children (map_of n) = n + n
children (array_of n) = n
children _ = 0

-- The tokens are exactly `n` objects: each takes one away, and its parts are to come first.
unfoldable pub are_objects : ℕ → Tokens → Bool
are_objects zero [] = true
are_objects (suc n) [] = false
are_objects zero (t ∷ ts) = false
are_objects (suc n) (t ∷ ts) = are_objects (n + children t) ts

abbrev pub is_object : Tokens → Bool
is_object = are_objects 1

mutual
  -- The tokens of an object.
  pub tokens_of : Obj → Tokens
  tokens_of nil = nil_token ∷ []
  tokens_of other = other_token ∷ []
  tokens_of (boolean b) = bool_token b ∷ []
  tokens_of (u64 n) = u64_token n ∷ []
  tokens_of (negative n) = int_negative n ∷ []
  tokens_of (str s) = str_token s ∷ []
  tokens_of (bin b) = bin_token b ∷ []
  tokens_of (array os) = array_of (count os) ∷ tokens_of_all os
  tokens_of (map es) = map_of (pairs es) ∷ tokens_of_pairs es

  tokens_of_all : Objs → Tokens
  tokens_of_all no_objs = []
  tokens_of_all (obj o os) = tokens_of o ++ tokens_of_all os

  tokens_of_pairs : Entries → Tokens
  tokens_of_pairs no_entries = []
  tokens_of_pairs (entry k v es) = tokens_of k ++ (tokens_of v ++ tokens_of_pairs es)

  count : Objs → ℕ
  count no_objs = 0
  count (obj o os) = suc (count os)

  pairs : Entries → ℕ
  pairs no_entries = 0
  pairs (entry k v es) = suc (pairs es)

leaf : (n : ℕ) (ts : Tokens) → are_objects (n + 0) ts ≡ are_objects n ts
leaf n ts = let same : n + 0 ≡ n = omega arith in ap (λ k. are_objects k ts) same

-- An object that comes first is taken away as a whole.
mutual
  unfolding are_objects tokens_of

  are_objects-tokens_of :
      (o : Obj) (n : ℕ) (ts : Tokens) → are_objects (suc n) (tokens_of o ++ ts) ≡ are_objects n ts
  are_objects-tokens_of nil n ts = leaf n ts
  are_objects-tokens_of other n ts = leaf n ts
  are_objects-tokens_of (boolean b) n ts = leaf n ts
  are_objects-tokens_of (u64 k) n ts = leaf n ts
  are_objects-tokens_of (negative k) n ts = leaf n ts
  are_objects-tokens_of (str s) n ts = leaf n ts
  are_objects-tokens_of (bin b) n ts = leaf n ts
  are_objects-tokens_of (array os) n ts = are_objects-tokens_of_all os n ts
  are_objects-tokens_of (map es) n ts = are_objects-tokens_of_pairs es n ts

  are_objects-tokens_of_all :
      (os : Objs) (n : ℕ) (ts : Tokens)
      → are_objects (n + count os) (tokens_of_all os ++ ts) ≡ are_objects n ts
  are_objects-tokens_of_all no_objs n ts = leaf n ts
  are_objects-tokens_of_all (obj o os) n ts =
      let one : n + suc (count os) ≡ suc (n + count os) = omega arith in
      rw (one, append_assoc (tokens_of o) (tokens_of_all os) ts)
        (are_objects-tokens_of o (n + count os) (tokens_of_all os ++ ts)
          ∙ are_objects-tokens_of_all os n ts)

  are_objects-tokens_of_pairs :
      (es : Entries) (n : ℕ) (ts : Tokens)
      → are_objects (n + (pairs es + pairs es)) (tokens_of_pairs es ++ ts) ≡ are_objects n ts
  are_objects-tokens_of_pairs no_entries n ts = leaf n ts
  are_objects-tokens_of_pairs (entry k v es) n ts =
      let two : n + (suc (pairs es) + suc (pairs es)) ≡ suc (suc (n + (pairs es + pairs es))) =
        omega arith in
      let later = tokens_of_pairs es ++ ts in
      rw
        (
          two,
          append_assoc (tokens_of k) (tokens_of v ++ tokens_of_pairs es) ts,
          append_assoc (tokens_of v) (tokens_of_pairs es) ts,
        )
        (are_objects-tokens_of k (suc (n + (pairs es + pairs es))) (tokens_of v ++ later)
          ∙ (are_objects-tokens_of v (n + (pairs es + pairs es)) later
              ∙ are_objects-tokens_of_pairs es n ts))

pub tokens_of-is_object : (o : Obj) → is_object (tokens_of o) ≡ true
unfolding are_objects
tokens_of-is_object o = rw (← append-nil (tokens_of o)) (are_objects-tokens_of o 0 [])
