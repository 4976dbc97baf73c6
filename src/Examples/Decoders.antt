-- ===== src/Examples/Decoders.antt =====
-- Manager.cu: two words, a phrase table with one translation of each, a beam of 1 and a limit of 6.
use gpu_moses.Prelude.{
  ℕ, zero, suc, ◌+◌, ◌*◌, ◌≤◌, ◌<◌, ◌≡◌, refl, sym, ap, arith, some, none, List, [], ◌∷◌, All, true,
  length,
}
use gpu_moses.Outcome.{done, fault, uninitialised, ◌>>=◌, Returns, Returns-inv, done-injective}
use gpu_moses.Text.{Str, codes, find_str, substr, find_from, after_last, distance}
use gpu_moses.Util.{tokenize_multi_char_separator, tokenize_into, trim}
use gpu_moses.Cuda.Buffer.{Buffer, size}
use gpu_moses.Cuda.Holds.{Holds}
use gpu_moses.Vocab.{Vocab}
use gpu_moses.Node.{new_node}
use gpu_moses.Bitmap.{is_complete}
use gpu_moses.Signed.{pos}
use gpu_moses.Hypothesis.{Hypothesis, fields, TargetPhrase}
use gpu_moses.Stack.{Stack}
use gpu_moses.Scores.{Scores}
use gpu_moses.PhraseTable.{Table, ids_of_string, read_target, load}
use gpu_moses.PhraseTable.Spec.{IsTable}
use gpu_moses.PhraseTable.Load.{read_lines, new-IsTable, load-Agrees}
use gpu_moses.Process.{InputPath, get_input_path, back, fill_stacks}
use gpu_moses.Process.Extend.{IsSearch, NonEmpty}
use gpu_moses.Process.Paths.{IsPath, IsPaths}
use gpu_moses.Process.Run.{fill_stacks-IsSearch}
use gpu_moses.Process.Grid.{IsIn}
use gpu_moses.InputPaths.{fill_paths}
use gpu_moses.InputPaths.Filled.{IsLaunch, LooksUp, fill_paths-LooksUp}
use gpu_moses.Decoder.{debug_tps_arr, process}
use gpu_moses.Decoder.Correct.{EveryWord, fill_paths-fill_stacks}
use gpu_moses.Decoder.Debug.{process-debug_tps_arr}
use gpu_moses.Examples.Extensions.{
  two_weights, parts, Sound, Scored, parts-IsParts, one_word-IsParts, target, target-Scored,
}
use gpu_moses.Examples.Tables.{empty, table, number_of, same}

abbrev lines : List Str
lines = codes "das ||| the ||| 3" ∷ codes "haus ||| house ||| 5" ∷ []

abbrev entries : List (List ℕ × TargetPhrase (Scores ℕ))
entries = (0 ∷ [], target (1 ∷ []) 3) ∷ (2 ∷ [], target (3 ∷ []) 5) ∷ []

abbrev known : Vocab Str
known = record {
  coll = codes "das" ∷ codes "the" ∷ codes "haus" ∷ codes "house" ∷ [];
  coll_inv = (codes "house", 3) ∷ (codes "haus", 2) ∷ (codes "the", 1) ∷ (codes "das", 0) ∷ [];
}

loads :
    Returns
      (λ r. IsTable entries r.0 × (r.1 ≡ known))
      (load 0 ◌+◌ ◌*◌ number_of same same same two_weights [] table 2 lines empty
        (new_node none ∷ []))
unfolding read_lines tokenize_multi_char_separator find_str substr ids_of_string tokenize_into trim
    find_from after_last distance read_target
loads =
    load-Agrees 0 ◌+◌ ◌*◌ number_of same same same two_weights [] table 2 lines empty []
      (new_node none ∷ []) new-IsTable

abbrev pt : Table (TargetPhrase (Scores ℕ))
pt = (Returns-inv loads).0.0

pt-IsTable : IsTable entries pt
pt-IsTable = (Returns-inv loads).2.0

abbrev input : Buffer ℕ
input = record { max_size = 2; cells = some 0 ∷ some 2 ∷ [] }

input-Holds : Holds input (0 ∷ 2 ∷ [])
input-Holds = record { contents = refl; fits = omega arith }

-- The threads of a grid of two by two, from the last to the first.
abbrev order : List (ℕ × ℕ)
order = (1, 1) ∷ (1, 0) ∷ (0, 1) ∷ (0, 0) ∷ []

each_thread : (start end : ℕ) → start ≤ end → end < 2 → IsIn (start, end) order
each_thread zero zero ordered inside = (3, refl)
each_thread zero (suc zero) ordered inside = (2, refl)
each_thread (suc zero) (suc zero) ordered inside = (0, refl)
each_thread start (suc (suc end)) ordered inside = absurd (omega arith)
each_thread (suc start) zero ordered inside = absurd (omega arith)
each_thread (suc (suc start)) (suc zero) ordered inside = absurd (omega arith)

order-IsLaunch : IsLaunch 2 order
order-IsLaunch = record {
  inside = (omega arith, (omega arith, (omega arith, (omega arith, tt))));
  each = each_thread;
}

fill_paths-LooksUp_example :
    Returns
      (λ paths.
        (start end : ℕ)
        → start ≤ end
        → end < 2
        → (path : InputPath (Scores ℕ)) × (get_input_path 2 start end paths ≡ done path)
          × (path.range ≡ some (record { start_pos = start; end_pos = end }))
          × LooksUp 2 entries pt pt-IsTable input (0 ∷ 2 ∷ []) input-Holds refl start end path)
      (fill_paths 2 input pt order order)
fill_paths-LooksUp_example =
    fill_paths-LooksUp 2 entries pt pt-IsTable input (0 ∷ 2 ∷ []) input-Holds refl order order
      order-IsLaunch order-IsLaunch

words_known : EveryWord entries (0 ∷ 2 ∷ [])
words_known zero inside = omega arith
words_known (suc zero) inside = omega arith
words_known (suc (suc g)) inside = absurd (omega arith)

entries-Scored : All (λ e. Scored 2 e.1.tp_scores) entries
entries-Scored = (target-Scored 2 (1 ∷ []) 3, (target-Scored 2 (3 ∷ []) 5, tt))

abbrev no_words : Buffer ℕ
no_words = record { max_size = 0; cells = [] }

fill_paths-fill_stacks_example :
    Returns
      (λ stacks.
        (s : Stack (Hypothesis (Scores ℕ))) × (back stacks ≡ done s)
        × (xs : List (Hypothesis (Scores ℕ))) × Holds s.m_coll xs
        × (0 < length xs)
        × All (λ h. is_complete (fields h).bitmap ≡ true) xs)
      (fill_paths 2 input pt order order >>= λ paths.
        fill_stacks (parts 2) (pos 6) 2 paths no_words (λ k. 3 ∷ 0 ∷ 3 ∷ []))
fill_paths-fill_stacks_example =
    fill_paths-fill_stacks (parts 2) (Sound 2) (Scored 2) 6 2
      (parts-IsParts 2 (omega arith, omega arith)) entries pt input (0 ∷ 2 ∷ []) no_words order
      order (λ k. 3 ∷ 0 ∷ 3 ∷ []) pt-IsTable entries-Scored input-Holds refl words_known
      order-IsLaunch order-IsLaunch

process-debug_tps_arr_example :
    Returns (λ paths. debug_tps_arr paths ≡ fault uninitialised) (fill_paths 2 input pt order order)
    × (process (parts 2) (pos 6) input pt no_words order order (λ k. []) ≡ fault uninitialised)
process-debug_tps_arr_example =
    process-debug_tps_arr (parts 2) (pos 6) entries pt input (0 ∷ 2 ∷ []) no_words order order
      (λ k. []) pt-IsTable input-Holds (omega arith) order-IsLaunch order-IsLaunch

-- One word, and its path.
abbrev one_path : InputPath (Scores ℕ)
one_path = record {
  target_phrases = some (some (record { max_size = 1; cells = some (target (1 ∷ []) 3) ∷ [] }));
  range = some (record { start_pos = 0; end_pos = 0 });
}

one_path-IsPaths : IsPaths (Scored 1) 1 (one_path ∷ [])
unfolding get_input_path
one_path-IsPaths = record { path_of = path; word_of = word }
  where
    path :
        (start end : ℕ)
        → start ≤ end
        → end < 1
        → (path : InputPath (Scores ℕ)) × (get_input_path 1 start end (one_path ∷ []) ≡ done path)
          × IsPath (Scored 1) start end path
    path zero zero ordered inside = (
      one_path,
      refl,
      record {
        found = _;
        written = refl;
        readable = (
          target (1 ∷ []) 3 ∷ [],
          record { contents = refl; fits = omega arith },
          (target-Scored 1 (1 ∷ []) 3, tt),
        );
        ranged = refl;
      },
    )
    path (suc start) zero ordered inside = absurd (omega arith)
    path start (suc end) ordered inside = absurd (omega arith)

    word :
        (g : ℕ) (path : InputPath (Scores ℕ))
        → g < 1
        → get_input_path 1 g g (one_path ∷ []) ≡ done path
        → (tps : Buffer (TargetPhrase (Scores ℕ))) × (path.target_phrases ≡ some (some tps))
          × (0 < size tps)
    word zero path inside e = (
      _,
      ap (λ (p : InputPath (Scores ℕ)). p.target_phrases) (sym (done-injective one_path path e)),
      omega arith,
    )
    word (suc g) path inside e = absurd (omega arith)

fill_stacks-IsSearch_example :
    Returns
      (λ stacks.
        IsSearch (parts 1) (Sound 1) (Scored 1) 6 1 stacks
        × NonEmpty (parts 1) (Sound 1) (Scored 1) 6 1 1 stacks)
      (fill_stacks (parts 1) (pos 6) 1 (one_path ∷ []) no_words (λ k. []))
fill_stacks-IsSearch_example =
    fill_stacks-IsSearch (parts 1) (Sound 1) (Scored 1) 6 1 one_word-IsParts (one_path ∷ [])
      one_path-IsPaths no_words (λ k. [])
