-- ===== src/Persistence/History/Parse.antt =====
-- `ParseStatusFile` (internal/persistence/jsondb/jsondb.go) against a reading of the file byte by
-- byte: how it seeks the next line, and how it ends.
use mathlib.Core.List.{append_assoc, append-nil}
use light_soar.Prelude.{
  ℕ, zero, suc, ◌+◌, ◌<◌, ◌==◌, Bool, true, false, Bool-cases, Option, none, some, [], ◌∷◌, ◌++◌,
  length, Text, if◌then◌else◌, if_split, ◌≡◌, subst, inl, inr, refl, sym, ap, ◌∙◌, arith,
}
use light_soar.Persistence.Record.Defs.{RunRecord}
use light_soar.Persistence.History.Files.{
  Outside, HistoryError, Attempt, fails, Disk, File, file_at, drop_text,
}
use light_soar.Persistence.History.Writer.{
  drop_return, is_lost, cut_line, line_text, read_line, newer, parsed, take_line, parse_lines,
  or_eof, parse_opened, parse_status_file,
}
use light_soar.Persistence.History.Lines.{
  drop_text-all, drop_text-next, length-drop_text, drop_return-cases, cut_line_found, cut_line_none,
}

module _ (outside : Outside) where
  -- The file read byte by byte: `word` is the line so far.
  unfoldable pub last_status : (word : Text) → Option RunRecord → Text → Option RunRecord
  unfolding drop_return newer is_lost
  last_status word result [] = if is_lost word then result else take_line outside word result
  last_status word result (c ∷ s) =
      if c == b'\n'
      then last_status [] (take_line outside (drop_return word) result) s
      else last_status (word ++ c ∷ []) result s

  abbrev through : Text × Bool → (word : Text) → Option RunRecord → Text → Option RunRecord
  unfolding drop_return newer drop_text last_status
  through (line, false) word result s =
      if is_lost (word ++ line) then result else take_line outside (word ++ line) result
  through (line, true) word result s =
      last_status [] (take_line outside (drop_return (word ++ line)) result)
        (drop_text (suc (length line)) s)

  through_shift :
      (c : ℕ) (cut : Text × Bool) (word : Text) (result : Option RunRecord) (s : Text)
      → through cut (word ++ c ∷ []) result s ≡ through (c ∷ cut.0, cut.1) word result (c ∷ s)
  unfolding drop_text through
  through_shift c (line, false) word result s = rw (append_assoc word (c ∷ []) line) refl
  through_shift c (line, true) word result s = rw (append_assoc word (c ∷ []) line) refl

  last_status-cut_line :
      (s word : Text) (result : Option RunRecord)
      → last_status word result s ≡ through (cut_line s) word result s
  unfolding last_status cut_line drop_text
  last_status-cut_line [] word result =
      ap (λ t. if is_lost t then result else take_line outside t result) (sym (append-nil word))
  last_status-cut_line (c ∷ s) word result = elim (Bool-cases (c == b'\n')) [
    | inl here ↦ rw here (
        ap (λ t. last_status [] (take_line outside (drop_return t) result) s)
          (sym (append-nil word)))
    | inr later ↦ rw later (
        last_status-cut_line s (word ++ c ∷ []) result ∙ through_shift c (cut_line s) word result s)
  ]

  abbrev Reads : (fuel offset : ℕ) → Option RunRecord → Text → Type 0
  unfolding parse_lines last_status drop_text
  Reads fuel offset result content =
      length (drop_text offset content) < fuel
      → parse_lines outside fuel offset result content
        ≡ some (parsed (last_status [] result (drop_text offset content)))

  -- How the loop goes on with the next line.
  abbrev goes_on :
      (fuel offset : ℕ) → Option RunRecord → Text → Option Text → Option (Attempt RunRecord)
  unfolding parse_lines newer
  goes_on fuel offset result content none = some (parsed result)
  goes_on fuel offset result content (some line) =
      parse_lines outside fuel (offset + length line + 1) (take_line outside line result) content

  parse_lines-step :
      (fuel offset : ℕ) (result : Option RunRecord) (content : Text)
      → parse_lines outside (suc fuel) offset result content
        ≡ goes_on fuel offset result content (read_line (drop_text offset content))
  unfolding parse_lines
  parse_lines-step fuel offset result content = go (read_line (drop_text offset content))
    where
      go :
          (o : Option Text)
          → elim o [
            | none ↦ some (parsed result)
            | some line ↦
                parse_lines outside fuel
                  (offset + length line + 1)
                  (take_line outside line result)
                  content
          ]
            ≡ goes_on fuel offset result content o
      go none = refl
      go (some line) = refl

  module _ (fuel offset : ℕ) (result : Option RunRecord) (content : Text) (c : ℕ) (s : Text)
      (e : drop_text offset content ≡ c ∷ s) (short : length s < fuel)
      (later : (offset : ℕ) (result : Option RunRecord) → Reads fuel offset result content) where
    reads_after :
        (line : Text)
        → last_status [] (take_line outside line result) (drop_text (suc (length line)) (c ∷ s))
          ≡ last_status [] result (c ∷ s)
        → goes_on fuel offset result content (some line)
          ≡ some (parsed (last_status [] result (c ∷ s)))
    unfolding Reads drop_text
    reads_after line h =
        let behind = drop_text-next offset (length line) content e in
        later (offset + length line + 1) (take_line outside line result)
          (omega (arith, ap length behind, length-drop_text (length line) s))
        ∙ ap (λ t. some (parsed t)) (ap (last_status [] (take_line outside line result)) behind ∙ h)

    whole : (line : Text) → cut_line (c ∷ s) ≡ (line, false) → line ≡ c ∷ s
    whole line k = sym (ap (λ x. x.0) k) ∙ cut_line_none (c ∷ s) (ap (λ x. x.1) k)

    split_first :
        (cut : Text × Bool)
        → cut_line (c ∷ s) ≡ cut
        → through cut [] result (c ∷ s) ≡ last_status [] result (c ∷ s)
    split_first cut k =
        sym (last_status-cut_line (c ∷ s) [] result ∙ ap (λ x. through x [] result (c ∷ s)) k)

    after_line : (line : Text) (n : ℕ) → Option RunRecord
    unfolding newer drop_return drop_text last_status
    after_line line n =
        last_status [] (take_line outside (drop_return line) result) (drop_text n (c ∷ s))

    -- A line whose last byte was a return leaves the end of the line to be read as an empty line.
    after_return :
        (line : Text)
        → cut_line (c ∷ s) ≡ (line, true)
        → suc (length (drop_return line)) ≡ length line
        → after_line line (suc (length (drop_return line))) ≡ after_line line (suc (length line))
    unfolding after_line last_status drop_return newer take_line
    after_return line k h =
        ap (after_line line) h
        ∙ ap (last_status [] (take_line outside (drop_return line) result)) (
            subst
              (λ x. drop_text (length x.0) (c ∷ s) ≡ b'\n' ∷ drop_text (suc (length x.0)) (c ∷ s)) k
              (cut_line_found (c ∷ s) (ap (λ x. x.1) k)))

    -- What the end of the file makes of the last line.
    at_end :
        (b : Bool) (line : Text)
        → is_lost line ≡ b
        → cut_line (c ∷ s) ≡ (line, false)
        → (if b then result else take_line outside line result) ≡ last_status [] result (c ∷ s)
    unfolding through
    at_end b line lost k =
        ap (λ x. if x then result else take_line outside line result) (sym lost)
        ∙ split_first (line, false) k

    reads_line :
        (cut : Text × Bool)
        → cut_line (c ∷ s) ≡ cut
        → goes_on fuel offset result content (line_text cut)
          ≡ some (parsed (last_status [] result (c ∷ s)))
    unfolding through last_status drop_return newer after_line take_line line_text is_lost goes_on
    reads_line (line, false) k =
        if_split
          (λ o.
            goes_on fuel offset result content o ≡ some (parsed (last_status [] result (c ∷ s))))
          (is_lost line) (λ lost. ap (λ t. some (parsed t)) (at_end true line lost k))
          (λ kept. reads_after line (
            rw (drop_text-all (suc (length line)) (c ∷ s) (omega (arith, ap length (whole line k))))
              (at_end false line kept k)))
    reads_line (line, true) k = reads_after (drop_return line) (
        elim (drop_return-cases line) [
          | inl same ↦ ap (λ t. after_line line (suc (length t))) same
          | inr returned ↦ after_return line k returned
        ]
        ∙ split_first (line, true) k)

  pub reads_all :
      (fuel offset : ℕ) (result : Option RunRecord) (content : Text)
      → length (drop_text offset content) < fuel
      → parse_lines outside fuel offset result content
        ≡ some (parsed (last_status [] result (drop_text offset content)))
  unfolding Reads read_line last_status newer take_line
  reads_all zero offset result content h = absurd (omega arith)
  reads_all (suc fuel) offset result content h =
      parse_lines-step fuel offset result content
      ∙ go (λ o r. reads_all fuel o r content) (drop_text offset content) refl
    where
      go :
          ((o : ℕ) (r : Option RunRecord) → Reads fuel o r content)
          → (rest : Text) → drop_text offset content ≡ rest
          → goes_on fuel offset result content (read_line rest)
            ≡ some (parsed (last_status [] result rest))
      go later [] e = refl
      go later (c ∷ s) e =
          reads_line fuel offset result content c s e (omega (arith, ap length e)) later
            (cut_line (c ∷ s)) refl

  unfoldable pub read_bytes : Option File → Attempt RunRecord
  unfolding last_status
  read_bytes none = fails HistoryError.no_such_file
  read_bytes (some f) = parsed (last_status [] none f.content)

  -- The loop of `ParseStatusFile`, which seeks each line behind the bytes of the one before, ends for
  -- every content of the file, and gives the last status that a line holds in a reading byte by byte:
  -- `eof` if no line holds one, and `no_such_file` if there is no file. The return that a line may
  -- have before its end is dropped, and a last line without an end is lost whose bytes end with a full
  -- buffer of the reader, such as one of 4096 bytes.
  pub parse_status_file-last_status :
      (name : Text) (disk : Disk)
      → parse_status_file outside name disk ≡ read_bytes (file_at disk name)
  unfolding parse_status_file drop_text read_bytes parse_opened
  parse_status_file-last_status name disk = go (file_at disk name)
    where
      go : (o : Option File) → parse_opened outside o ≡ read_bytes o
      go none = refl
      go (some f) = ap or_eof (reads_all (suc (length f.content)) 0 none f.content (omega arith))
