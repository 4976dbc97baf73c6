-- ===== src/Util/Words.antt =====
-- `Tokenize` against a definition by recursion on the string.
use mathlib.Core.List.{append_assoc, append-nil}
use gpu_moses.Prelude.{
  ℕ, add-one, zero, suc, ◌+◌, ◌≤◌, ◌<◌, ◌≡◌, refl, ap, sym, ◌∙◌, Bool, true, false, not, Option,
  none, some, List, [], ◌∷◌, ◌++◌, arith, length, length-append, inl, inr, if◌then◌else◌,
}
use gpu_moses.Outcome.{Outcome, done}
use gpu_moses.Text.{Str, substr, distance, one_of, none_of, find_first_of, find_first_not_of}
use gpu_moses.Text.Find.{
  None, Splits-cases, find_from_at, find_from_clean, find_from_npos, substr_rest, substr_span,
}
use gpu_moses.Util.{tokenize_loop, tokenize_into, tokenize}

-- A token, unless it is empty.
unfoldable pub push : Str → List Str → List Str
push [] toks = toks
push (c ∷ tok) toks = (c ∷ tok) ∷ toks

module _ (ds : Str) where
  -- The token that the string starts with, which may be empty, and the tokens after it.
  unfoldable pub first_word : Str → Str × List Str
  unfolding push
  first_word [] = ([], [])
  first_word (c ∷ str) =
      let (tok, toks) = first_word str in
      if one_of ds c then ([], push tok toks) else (c ∷ tok, toks)

  -- The tokens: the longest runs of characters that are no delimiters.
  unfoldable pub words : Str → List Str
  unfolding first_word push
  words str = push (first_word str).0 (first_word str).1

  -- Delimiters in front change nothing.
  pub words_skip : (gap str : Str) → None (none_of ds) gap → words (gap ++ str) ≡ words str
  unfolding words
  words_skip [] str h = refl
  words_skip (c ∷ gap) str h = ground (arith, words_skip gap str h.1)

  pub first_word_run :
      (tok str : Str)
      → None (one_of ds) tok
      → first_word (tok ++ str) ≡ (tok ++ (first_word str).0, (first_word str).1)
  unfolding first_word
  first_word_run [] str h = refl
  first_word_run (c ∷ tok) str h = rw (h.0, first_word_run tok str h.1) refl

  not-true : (b : Bool) → not b ≡ true → b ≡ false
  not-true b h = ground arith

  first_word_end : (tok : Str) → None (one_of ds) tok → first_word tok ≡ (tok, [])
  unfolding first_word
  first_word_end [] h = refl
  first_word_end (c ∷ tok) h = rw (h.0, first_word_end tok h.1) refl

  -- A token that reaches to the end of the string, or to a delimiter.
  pub words_run_end :
      (c : ℕ) (tok : Str) → None (one_of ds) (c ∷ tok) → words (c ∷ tok) ≡ (c ∷ tok) ∷ []
  unfolding words
  words_run_end c tok h = rw (h.0, first_word_end tok h.1) refl

  pub words_run :
      (c : ℕ) (tok : Str) (d : ℕ) (rest : Str)
      → None (one_of ds) (c ∷ tok)
      → one_of ds d ≡ true
      → words (c ∷ (tok ++ (d ∷ rest))) ≡ (c ∷ tok) ∷ words (d ∷ rest)
  unfolding words
  words_run c tok d rest h hit =
      rw (first_word_run (c ∷ tok) (d ∷ rest) h, hit, append-nil tok) refl

  words_gap : (gap : Str) → None (none_of ds) gap → words gap ≡ []
  unfolding words
  words_gap gap h = rw (← append-nil gap) (words_skip gap [] h)

  pub not-false : (b : Bool) → b ≡ true → not b ≡ false
  not-false b h = ground arith

  loop_step :
      (fuel : ℕ) (str tok : Str) (last : ℕ) (pos : Option ℕ) (output : List Str)
      → substr (some last) (distance pos (some last)) str ≡ done tok
      → tokenize_loop (suc fuel) ds str (some last) pos output ≡ (
          let last' = find_first_not_of ds str pos in
          tokenize_loop fuel ds str last' (find_first_of ds str last') (output ++ tok ∷ []))
  unfolding tokenize_loop
  loop_step fuel str tok last none output e = rw e refl
  loop_step fuel str tok last (some p) output e = rw e refl

  loop_end :
      (fuel : ℕ) (str : Str) (output : List Str)
      → tokenize_loop (suc fuel) ds str none none output ≡ done output
  unfolding tokenize_loop
  loop_end fuel str output = refl

  -- From `pos` on, and on from where that is.
  abbrev resume : ℕ → Str → Option ℕ → List Str → Outcome (List Str)
  resume fuel str last output = tokenize_loop fuel ds str last (find_first_of ds str last) output

  -- A gap and the start of the next token.
  resume_token :
      (fuel : ℕ) (front gap : Str) (c : ℕ) (str : Str) (output : List Str)
      → None (none_of ds) gap
      → none_of ds c ≡ true
      → resume fuel
          (front ++ (gap ++ (c ∷ str)))
          (find_first_not_of ds (front ++ (gap ++ (c ∷ str))) (some (length front)))
          output
        ≡ resume fuel ((front ++ gap) ++ (c ∷ str)) (some (length (front ++ gap))) output
  resume_token fuel front gap c str output before pass =
      rw
        (
          find_from_at (none_of ds) front gap c str before pass,
          append_assoc front gap (c ∷ str),
          length-append front gap,
        )
        refl

  -- Past a delimiter: the loop goes on at the next token, or ends.
  resume_gap :
      (fuel : ℕ) (front : Str) (d : ℕ) (rest : Str) (output : List Str)
      → one_of ds d ≡ true
      → ((front' : Str) (c : ℕ) (str : Str)
          → one_of ds c ≡ false
          → length (c ∷ str) ≤ length rest
          → resume (suc fuel) (front' ++ (c ∷ str)) (some (length front')) output
            ≡ done (output ++ words (c ∷ str)))
      → resume
          (suc fuel)
          (front ++ (d ∷ rest))
          (find_first_not_of ds (front ++ (d ∷ rest)) (some (length front)))
          output
        ≡ done (output ++ words (d ∷ rest))
  resume_gap fuel front d rest output hit go_on = elim (Splits-cases (none_of ds) rest) [
    | inl clean ↦
        let gap : None (none_of ds) (d ∷ rest) = (not-false (one_of ds d) hit, clean) in
        rw
          (
            find_from_clean (none_of ds) front (d ∷ rest) gap,
            find_from_npos (one_of ds) (front ++ (d ∷ rest)),
            words_gap (d ∷ rest) gap,
            append-nil output,
          )
          (loop_end fuel (front ++ (d ∷ rest)) output)
    | inr (gap, c, str, e, before, pass) ↦
        let gap' : None (none_of ds) (d ∷ gap) = (not-false (one_of ds d) hit, before) in
        rw e (
          resume_token (suc fuel) front (d ∷ gap) c str output gap' pass
          ∙ go_on (front ++ (d ∷ gap)) c str (not-true (one_of ds c) pass)
              (omega (arith, ap length e, length-append gap (c ∷ str)))
          ∙ ap (λ (w : List Str). done (output ++ w)) (sym (words_skip (d ∷ gap) (c ∷ str) gap')))
  ]

  -- A token that a delimiter ends.
  loop_run :
      (fuel : ℕ) (front : Str) (c : ℕ) (tok : Str) (d : ℕ) (rest : Str) (output : List Str)
      → None (one_of ds) (c ∷ tok)
      → one_of ds d ≡ true
      → resume (suc fuel) (front ++ ((c ∷ tok) ++ (d ∷ rest))) (some (length front)) output
        ≡ resume fuel
            ((front ++ (c ∷ tok)) ++ (d ∷ rest))
            (find_first_not_of ds
              ((front ++ (c ∷ tok)) ++ (d ∷ rest))
              (some (length (front ++ (c ∷ tok)))))
            (output ++ (c ∷ tok) ∷ [])
  loop_run fuel front c tok d rest output run hit =
      rw
        (
          find_from_at (one_of ds) front (c ∷ tok) d rest run hit,
          append_assoc front (c ∷ tok) (d ∷ rest),
          length-append front (c ∷ tok),
        )
        (loop_step fuel (front ++ ((c ∷ tok) ++ (d ∷ rest))) (c ∷ tok) (length front)
          (some (length front + length (c ∷ tok))) output (substr_span front (c ∷ tok) (d ∷ rest)))

  -- The loop, at the start of a token.
  loop-words :
      (fuel : ℕ) (front : Str) (c : ℕ) (str : Str) (output : List Str)
      → one_of ds c ≡ false
      → length (c ∷ str) < fuel
      → resume fuel (front ++ (c ∷ str)) (some (length front)) output
        ≡ done (output ++ words (c ∷ str))
  unfolding distance
  loop-words zero front c str output h enough = absurd (omega arith)
  loop-words (suc zero) front c str output h enough = absurd (omega arith)
  loop-words (suc (suc fuel)) front c str output h enough = elim (Splits-cases (one_of ds) str) [
    | inl clean ↦
        rw (find_from_clean (one_of ds) front (c ∷ str) (h, clean), words_run_end c str (h, clean))
          (loop_step (suc fuel) (front ++ (c ∷ str)) (c ∷ str) (length front) none output
              (substr_rest front (c ∷ str))
            ∙ rw
                (
                  find_from_npos (none_of ds) (front ++ (c ∷ str)),
                  find_from_npos (one_of ds) (front ++ (c ∷ str)),
                )
                (loop_end fuel (front ++ (c ∷ str)) (output ++ (c ∷ str) ∷ [])))
    | inr (tok, d, rest, e, before, hit) ↦
        let longer : length str ≡ length tok + suc (length rest) =
          omega (arith, ap length e, length-append tok (d ∷ rest)) in
        rw e (
          loop_run (suc fuel) front c tok d rest output (h, before) hit
          ∙ resume_gap fuel (front ++ (c ∷ tok)) d rest (output ++ (c ∷ tok) ∷ []) hit
              (λ front' c' str' free short.
                loop-words (suc fuel) front' c' str' (output ++ (c ∷ tok) ∷ []) free (omega arith))
          ∙ ap done (
              append_assoc output ((c ∷ tok) ∷ []) (words (d ∷ rest))
              ∙ ap (λ (w : List Str). output ++ w) (sym (words_run c tok d rest (h, before) hit))))
  ]

  start-words :
      (output : List Str) (str : Str)
      → resume (suc (length str)) str (find_first_not_of ds str (some 0)) output
        ≡ done (output ++ words str)
  start-words output str = elim (Splits-cases (none_of ds) str) [
    | inl clean ↦
        rw
          (
            find_from_clean (none_of ds) [] str clean,
            find_from_npos (one_of ds) str,
            words_gap str clean,
            append-nil output,
          )
          (loop_end (length str) str output)
    | inr (gap, c, rest, e, before, pass) ↦
        let longer : length str ≡ length gap + suc (length rest) =
          omega (arith, ap length e, length-append gap (c ∷ rest)) in
        rw (ap length e, e)
          (resume_token (suc (length (gap ++ (c ∷ rest)))) [] gap c rest output before pass
            ∙ loop-words (suc (length (gap ++ (c ∷ rest)))) gap c rest output
                (not-true (one_of ds c) pass) (omega (arith, length-append gap (c ∷ rest)))
            ∙ ap (λ (w : List Str). done (output ++ w)) (sym (words_skip gap (c ∷ rest) before)))
  ]

  -- `Tokenize` of a string ends without an exception, within the rounds that it is given. Its tokens are
  -- the longest runs of characters that are no delimiters, in order.
  pub tokenize-words : (str : Str) → tokenize str ds ≡ done (words str)
  unfolding tokenize
  tokenize-words str = rw (add-one (length str)) (start-words [] str)

  pub tokenize_into-words :
      (output : List Str) (str : Str) → tokenize_into output str ds ≡ done (output ++ words str)
  unfolding tokenize_into
  tokenize_into-words output str = rw (add-one (length str)) (start-words output str)
