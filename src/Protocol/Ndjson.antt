-- ===== src/Protocol/Ndjson.antt =====
-- `readNdjsonLines` of packages/core/src/protocol/ndjson.ts. A text is the list of its code units, a read
-- of the stream is a chunk, as the streaming decoder returns its text, or an error: one of the stream, or
-- that of a time limit. `flushed` is what the decoder returns at the end, for a character cut short. A
-- consumer that stops early is not modelled.
use stratasync.Prelude.{
  ℕ, Bool, true, false, ◌||◌, ◌&&◌, List, [], ◌∷◌, ◌++◌, leb, ◌==◌, if◌then◌else◌,
}

pub data Read : Type 0 where
  chunk : List ℕ → Read
  fails : Read

-- What `trim` strips: white space and line ends.
abbrev pub is_space : ℕ → Bool
is_space c =
    leb 9 c && leb c 13
    || c == 32
    || c == 160
    || c == 5760
    || leb 8192 c && leb c 8202
    || c == 8232
    || c == 8233
    || c == 8239
    || c == 8287
    || c == 12288
    || c == 65279

unfoldable pub trim_start : List ℕ → List ℕ
trim_start [] = []
trim_start (c ∷ cs) = let rest = trim_start cs in if is_space c then rest else c ∷ cs

abbrev pub end_at : ℕ → List ℕ → List ℕ
end_at c [] = if is_space c then [] else c ∷ []
end_at c (d ∷ ds) = c ∷ d ∷ ds

unfoldable pub trim_end : List ℕ → List ℕ
trim_end [] = []
trim_end (c ∷ cs) = end_at c (trim_end cs)

unfoldable pub trim : List ℕ → List ℕ
trim cs = trim_end (trim_start cs)

-- A code unit before the first of the lines, or before the rest.
abbrev pub before : ℕ → List (List ℕ) × List ℕ → List (List ℕ) × List ℕ
before c ([], rest) = ([], c ∷ rest)
before c (line ∷ lines, rest) = ((c ∷ line) ∷ lines, rest)

-- `split("\n")` and `pop()`: the lines that ended, and the rest.
unfoldable pub split_lines : List ℕ → List (List ℕ) × List ℕ
split_lines [] = ([], [])
split_lines (c ∷ cs) =
    let (lines, rest) = split_lines cs in
    if c == 10 then ([] ∷ lines, rest) else before c (lines, rest)

abbrev pub line_or_none : List ℕ → List (List ℕ)
line_or_none [] = []
line_or_none (c ∷ cs) = (c ∷ cs) ∷ []

-- The lines that are yielded: trimmed, without the empty ones.
unfoldable pub yielded : List (List ℕ) → List (List ℕ)
yielded [] = []
yielded (line ∷ lines) = line_or_none (trim line) ++ yielded lines

-- The yielded lines, and whether the stream was drained; if not, it is cancelled.
unfoldable pub read_ndjson_lines : List ℕ → List Read → List ℕ → List (List ℕ) × Bool
read_ndjson_lines buffer [] flushed = (line_or_none (trim (buffer ++ flushed)), true)
read_ndjson_lines buffer (fails ∷ reads) flushed = ([], false)
read_ndjson_lines buffer (chunk t ∷ reads) flushed =
    let (lines, rest) = split_lines (buffer ++ t) in
    let (later, drained) = read_ndjson_lines rest reads flushed in (yielded lines ++ later, drained)
