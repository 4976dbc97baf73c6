-- ===== src/Util/Join.antt =====
-- Tokens that are joined with a delimiter, and what `Tokenize` makes of that.
use gpu_moses.Prelude.{ℕ, ◌≡◌, refl, ap, ◌∙◌, true, List, [], ◌∷◌, ◌++◌, All}
use gpu_moses.Outcome.{done}
use gpu_moses.Text.{Str, one_of}
use gpu_moses.Text.Find.{None}
use gpu_moses.Util.{tokenize}
use gpu_moses.Util.Words.{words, not-false, words_run, words_run_end, words_skip, tokenize-words}

-- A string that is not empty and has no delimiter.
abbrev pub IsToken : Str → Str → Type 0
IsToken ds [] = ⊥
IsToken ds (c ∷ tok) = None (one_of ds) (c ∷ tok)

abbrev pub join : ℕ → List Str → Str
join d [] = []
join d (tok ∷ []) = tok
join d (tok ∷ (tok' ∷ toks)) = tok ++ (d ∷ join d (tok' ∷ toks))

words-join :
    (ds : Str) (d : ℕ) (toks : List Str)
    → one_of ds d ≡ true
    → All (IsToken ds) toks
    → words ds (join d toks) ≡ toks
unfolding words
words-join ds d [] hit h = refl
words-join ds d ([] ∷ toks) hit h = absurd h.0
words-join ds d ((c ∷ tok) ∷ []) hit h = words_run_end ds c tok h.0
words-join ds d ((c ∷ tok) ∷ (tok' ∷ toks)) hit h =
    words_run ds c tok d (join d (tok' ∷ toks)) h.0 hit
    ∙ ap (◌∷◌ (c ∷ tok)) (
        words_skip ds (d ∷ []) (join d (tok' ∷ toks)) (not-false ds (one_of ds d) hit, tt)
        ∙ words-join ds d (tok' ∷ toks) hit h.1)

-- If no token is empty or has a delimiter in it, `Tokenize` gives back the tokens that were joined with a
-- delimiter.
pub tokenize-join :
    (ds : Str) (d : ℕ) (toks : List Str)
    → one_of ds d ≡ true
    → All (IsToken ds) toks
    → tokenize (join d toks) ds ≡ done toks
tokenize-join ds d toks hit h =
    tokenize-words ds (join d toks) ∙ ap done (words-join ds d toks hit h)
