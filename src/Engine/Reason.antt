-- ===== src/Engine/Reason.antt =====
-- `_bounded_trace_reason` of backend/src/wandermind/cognitive/engine.py, over code points.
use wander_mind.Prelude.{
  refl, ℕ, ◌-◌, ◌≤◌, Text, text, Bool, ◌||◌, ◌&&◌, List, [], ◌∷◌, ◌++◌, length, take, arith, leb,
  ◌==◌, if◌then◌else◌, is_empty, ◌≡◌, length-append, length-take,
}

-- The characters at which `str.split()` splits.
unfoldable pub is_space : ℕ → Bool
is_space c =
    (leb 9 c && leb c 13)
    || (leb 28 c && leb c 32)
    || c == 133
    || c == 160
    || c == 5760
    || (leb 8192 c && leb c 8202)
    || c == 8232
    || c == 8233
    || c == 8239
    || c == 8287
    || c == 12288

-- A finished word goes before the rest of the words, and only if it has a character.
unfoldable pub flush : Text → List Text → List Text
flush [] words = words
flush (c ∷ cs) words = (c ∷ cs) ∷ words

-- `reason.split()`, with the characters of the word that is being read.
unfoldable pub split_words : Text → Text → List Text
unfolding flush
split_words word [] = flush word []
split_words word (c ∷ cs) =
    let ended = flush word (split_words [] cs) in
    let longer = split_words (word ++ c ∷ []) cs in if is_space c then ended else longer

-- `" ".join(words)`
unfoldable pub join_words : List Text → Text
join_words [] = []
join_words (w ∷ []) = w
join_words (w ∷ v ∷ ws) = w ++ 32 ∷ join_words (v ∷ ws)

unfoldable pub rstrip : Text → Text
rstrip [] = []
rstrip (c ∷ cs) = let rest = rstrip cs in if is_empty rest && is_space c then [] else c ∷ rest

-- `sha256_hex` is `sha256(text.encode("utf-8")).hexdigest()`.
unfoldable pub bounded_trace_reason : (Text → Text) → ℕ → Text → Text
unfolding split_words join_words rstrip
bounded_trace_reason sha256_hex max_length reason =
    let normalized = join_words (split_words [] reason) in
    let suffix = text " ... [truncated sha256:" ++ take 16 (sha256_hex normalized) ++ text "]" in
    if leb (length normalized) max_length
    then normalized
    else rstrip (take (max_length - length suffix) normalized) ++ suffix

length-rstrip : (t : Text) → length (rstrip t) ≤ length t
unfolding rstrip
length-rstrip [] = omega arith
length-rstrip (c ∷ cs) = ground (arith, length-rstrip cs)

abbrev opening : Text
opening = text " ... [truncated sha256:"

length-opening : length opening ≡ 23
unfolding text
length-opening = refl

length-closing : length (text "]") ≡ 1
unfolding text
length-closing = refl

length-suffix : (digest : Text) → length (opening ++ take 16 digest ++ text "]") ≤ 40
unfolding text
length-suffix digest = omega (
  arith,
  length-append {0} opening (take 16 digest ++ text "]"),
  length-append {0} (take 16 digest) (text "]"),
  length-take {0} 16 digest,
  length-opening,
  length-closing,
)

-- A recorded reason has at most `max_length` characters, where that is at least the 40 of the
-- marker that replaces what is cut; so a step of the trace never breaks the limit of its field.
pub length-bounded_trace_reason :
    (sha256_hex : Text → Text) (max_length : ℕ) (reason : Text)
    → 40 ≤ max_length
    → length (bounded_trace_reason sha256_hex max_length reason) ≤ max_length
unfolding bounded_trace_reason
length-bounded_trace_reason sha256_hex max_length reason h =
    let normalized = join_words (split_words [] reason) in
    let suffix = opening ++ take 16 (sha256_hex normalized) ++ text "]" in
    ground (
      arith,
      length-suffix (sha256_hex normalized),
      length-append {0} (rstrip (take (max_length - length suffix) normalized)) suffix,
      length-rstrip (take (max_length - length suffix) normalized),
      length-take {0} (max_length - length suffix) normalized,
    )
