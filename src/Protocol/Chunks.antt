-- ===== src/Protocol/Chunks.antt =====
-- Streams against the whole text that their chunks make.
use stratasync.Prelude.{
  ℕ, ◌≡◌, refl, sym, ap, ◌∙◌, inl, inr, Bool, true, false, ◌||◌, List, [], ◌∷◌, ◌++◌, map, arith,
  Bool-cases, ◌==◌,
}
use stratasync.Protocol.Ndjson.{
  Read, chunk, fails, trim, before, split_lines, line_or_none, yielded, read_ndjson_lines,
}

abbrev pub text_of : List (List ℕ) → List ℕ
text_of [] = []
text_of (t ∷ ts) = t ++ text_of ts

abbrev pub has_newline : List ℕ → Bool
has_newline [] = false
has_newline (c ∷ cs) = c == 10 || has_newline cs

-- The lines of a whole text, the last one included.
abbrev pub lines_of : List ℕ → List (List ℕ)
lines_of t = yielded ((split_lines t).0 ++ (split_lines t).1 ∷ [])

append_assoc : {A : Type 0} (a b c : List A) → (a ++ b) ++ c ≡ a ++ (b ++ c)
append_assoc [] b c = refl
append_assoc (x ∷ a) b c = rw (append_assoc a b c) refl

append_none : {A : Type 0} (a : List A) → a ++ [] ≡ a
append_none [] = refl
append_none (x ∷ a) = rw (append_none a) refl

yielded-append : (a b : List (List ℕ)) → yielded (a ++ b) ≡ yielded a ++ yielded b
unfolding yielded
yielded-append [] b = refl
yielded-append (l ∷ a) b =
    ap (λ k. line_or_none (trim l) ++ k) (yielded-append a b)
    ∙ sym (append_assoc (line_or_none (trim l)) (yielded a) (yielded b))

-- The lines that ended in a first part, then those of what was left of it and a second part.
and_then : List (List ℕ) × List ℕ → List ℕ → List (List ℕ) × List ℕ
and_then (lines, rest) t = let (more, left) = split_lines (rest ++ t) in (lines ++ more, left)

split_lines_newline :
    (c : ℕ) (cs : List ℕ)
    → (c == 10) ≡ true
    → split_lines (c ∷ cs) ≡ ([] ∷ (split_lines cs).0, (split_lines cs).1)
unfolding split_lines
split_lines_newline c cs e = rw e refl

split_lines_other :
    (c : ℕ) (cs : List ℕ) → (c == 10) ≡ false → split_lines (c ∷ cs) ≡ before c (split_lines cs)
unfolding split_lines
split_lines_other c cs e = rw e refl

and_then-newline :
    (p : List (List ℕ) × List ℕ) (t : List ℕ)
    → ([] ∷ (and_then p t).0, (and_then p t).1) ≡ and_then ([] ∷ p.0, p.1) t
unfolding and_then
and_then-newline p t = refl

and_then-before :
    (c : ℕ) (p : List (List ℕ) × List ℕ) (t : List ℕ)
    → (c == 10) ≡ false
    → before c (and_then p t) ≡ and_then (before c p) t
unfolding and_then
and_then-before c ([], rest) t e = sym (split_lines_other c (rest ++ t) e)
and_then-before c (line ∷ lines, rest) t e = refl

split_lines-append : (s t : List ℕ) → split_lines (s ++ t) ≡ and_then (split_lines s) t
split_lines-append [] t = unfold split_lines and_then in refl
split_lines-append (c ∷ s) t = elim (Bool-cases (c == 10)) [
  | inl e ↦
      split_lines_newline c (s ++ t) e
      ∙ ap (λ (q : List (List ℕ) × List ℕ). ([] ∷ q.0, q.1)) (split_lines-append s t)
      ∙ and_then-newline (split_lines s) t
      ∙ sym (ap (λ q. and_then q t) (split_lines_newline c s e))
  | inr e ↦
      split_lines_other c (s ++ t) e
      ∙ ap (before c) (split_lines-append s t)
      ∙ and_then-before c (split_lines s) t e
      ∙ sym (ap (λ q. and_then q t) (split_lines_other c s e))
]

before-has_no_newline :
    (c : ℕ) (p : List (List ℕ) × List ℕ)
    → (c == 10) ≡ false
    → has_newline p.1 ≡ false
    → has_newline (before c p).1 ≡ false
before-has_no_newline c ([], rest) e h = rw e h
before-has_no_newline c (line ∷ lines, rest) e h = h

rest_has_no_newline : (t : List ℕ) → has_newline (split_lines t).1 ≡ false
rest_has_no_newline [] = unfold split_lines in refl
rest_has_no_newline (c ∷ t) = elim (Bool-cases (c == 10)) [
  | inl e ↦ rw (split_lines_newline c t e) (rest_has_no_newline t)
  | inr e ↦
      rw (split_lines_other c t e)
        (before-has_no_newline c (split_lines t) e (rest_has_no_newline t))
]

split_one : (t : List ℕ) → has_newline t ≡ false → split_lines t ≡ ([], t)
split_one [] h = unfold split_lines in refl
split_one (c ∷ t) h =
    split_lines_other c t (ground arith) ∙ ap (before c) (split_one t (ground arith))

has_newline-append :
    (s t : List ℕ) → has_newline s ≡ false → has_newline t ≡ false → has_newline (s ++ t) ≡ false
has_newline-append [] t h k = k
has_newline-append (c ∷ s) t h k = ground (arith, has_newline-append s t)

yielded_none : yielded [] ≡ []
unfolding yielded
yielded_none = refl

yielded_one : (t : List ℕ) → yielded (t ∷ []) ≡ line_or_none (trim t)
unfolding yielded
yielded_one t = append_none (line_or_none (trim t))

lines_of-one : (t : List ℕ) → has_newline t ≡ false → lines_of t ≡ line_or_none (trim t)
lines_of-one t h =
    ap (λ (q : List (List ℕ) × List ℕ). yielded (q.0 ++ q.1 ∷ [])) (split_one t h) ∙ yielded_one t

lines_of-append :
    (s u : List ℕ)
    → lines_of (s ++ u) ≡ yielded (split_lines s).0 ++ lines_of ((split_lines s).1 ++ u)
lines_of-append s u =
    ap (λ (q : List (List ℕ) × List ℕ). yielded (q.0 ++ q.1 ∷ [])) (split_lines-append s u)
    ∙ unfold and_then in
      (ap yielded (
          append_assoc (split_lines s).0 (split_lines ((split_lines s).1 ++ u)).0
            ((split_lines ((split_lines s).1 ++ u)).1 ∷ []))
        ∙ yielded-append (split_lines s).0 (
            (split_lines ((split_lines s).1 ++ u)).0
            ++ (split_lines ((split_lines s).1 ++ u)).1 ∷ []))

ended-append :
    (s u : List ℕ)
    → yielded (split_lines (s ++ u)).0
      ≡ yielded (split_lines s).0 ++ yielded (split_lines ((split_lines s).1 ++ u)).0
ended-append s u =
    ap (λ (q : List (List ℕ) × List ℕ). yielded q.0) (split_lines-append s u)
    ∙ unfold and_then in yielded-append (split_lines s).0 (split_lines ((split_lines s).1 ++ u)).0

-- The buffer has no line end, so that the first lines of the rest of the stream begin with it.
drained :
    (buffer : List ℕ) (chunks : List (List ℕ)) (flushed : List ℕ)
    → has_newline buffer ≡ false
    → has_newline flushed ≡ false
    → read_ndjson_lines buffer (map chunk chunks) flushed
      ≡ (lines_of (buffer ++ (text_of chunks ++ flushed)), true)
unfolding read_ndjson_lines
drained buffer [] flushed b f =
    ap (λ l. (l, true))
      (sym (lines_of-one (buffer ++ flushed) (has_newline-append buffer flushed b f)))
drained buffer (t ∷ chunks) flushed b f =
    ap (λ (q : List (List ℕ) × Bool). (yielded (split_lines (buffer ++ t)).0 ++ q.0, q.1))
      (drained (split_lines (buffer ++ t)).1 chunks flushed (rest_has_no_newline (buffer ++ t)) f)
    ∙ ap (λ l. (l, true))
        (sym (lines_of-append (buffer ++ t) (text_of chunks ++ flushed))
          ∙ ap lines_of (
              append_assoc buffer t (text_of chunks ++ flushed)
              ∙ ap (λ l. buffer ++ l) (sym (append_assoc t (text_of chunks) flushed))))

-- However a text is cut into chunks, the lines of a stream that is drained are its lines, trimmed and
-- without the empty ones; what the decoder returns at the end has no line end in it.
pub read_ndjson_lines-lines_of :
    (chunks : List (List ℕ)) (flushed : List ℕ)
    → has_newline flushed ≡ false
    → read_ndjson_lines [] (map chunk chunks) flushed ≡ (lines_of (text_of chunks ++ flushed), true)
read_ndjson_lines-lines_of chunks flushed f = drained [] chunks flushed refl f

failed_after :
    (buffer : List ℕ) (chunks : List (List ℕ)) (reads : List Read) (flushed : List ℕ)
    → has_newline buffer ≡ false
    → read_ndjson_lines buffer (map chunk chunks ++ fails ∷ reads) flushed
      ≡ (yielded (split_lines (buffer ++ text_of chunks)).0, false)
unfolding read_ndjson_lines
failed_after buffer [] reads flushed b =
    ap (λ l. (l, false))
      (sym (
        ap (λ (q : List (List ℕ) × List ℕ). yielded q.0)
          (split_one (buffer ++ []) (has_newline-append buffer [] b refl))
        ∙ yielded_none))
failed_after buffer (t ∷ chunks) reads flushed b =
    ap (λ (q : List (List ℕ) × Bool). (yielded (split_lines (buffer ++ t)).0 ++ q.0, q.1))
      (failed_after (split_lines (buffer ++ t)).1 chunks reads flushed
        (rest_has_no_newline (buffer ++ t)))
    ∙ ap (λ l. (l, false))
        (sym (ended-append (buffer ++ t) (text_of chunks))
          ∙ ap (λ l. yielded (split_lines l).0) (append_assoc buffer t (text_of chunks)))

-- A stream that fails yields the lines that had ended by then, and nothing of the one that had not.
pub read_ndjson_lines-fails :
    (chunks : List (List ℕ)) (reads : List Read) (flushed : List ℕ)
    → read_ndjson_lines [] (map chunk chunks ++ fails ∷ reads) flushed
      ≡ (yielded (split_lines (text_of chunks)).0, false)
read_ndjson_lines-fails chunks reads flushed = failed_after [] chunks reads flushed refl
