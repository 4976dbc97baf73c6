-- ===== src/Lib.antt =====
-- A model of gpu-moses, a phrase-based translation decoder on CUDA, and proofs of what makes it
-- correct. Paths are those of the repository.
--
-- How the decoder works. An input sentence is a sequence of word ids. The phrase table (a trie
-- over source words) gives translations for its ranges. Search keeps one beam of hypotheses for
-- each number of covered words; each extension of a hypothesis covers a further range, is subject
-- to a limit on reordering, is scored by the features (the language model among them), and is
-- added to the beam of its number of covered words under that beam's lock. A full beam is pruned.
-- The output is the chain of phrases of the best hypothesis that covers all words.
--
-- Files:
--
--   Prelude         lists over the native numbers, Boolean tests and their lemmas
--   Outcome         how a call ends: a value, or a fault (trap, assert, throw, undefined behaviour)
--   Cuda.Buffer     the storage of src/CUDA/Array.h and src/CUDA/Vector.h; Array and Vector hold what
--                   differs, Search is upperBound, Compare is Array::Compare, Insert and Shift are
--                   insert, push_back and Shift against lists
--   Cuda.Set, Map   src/CUDA/Set.h and src/CUDA/Map.h
--   Lock            src/CUDA/Lock.h, as a step relation
--   Range, Bitmap   src/Range.h, src/Bitmap.h and src/Bitmap.cu: coverage of the input
--   Node            src/Node.h: the tries, on an explicit heap
--   Stack           src/Stack.cu: Stack::add and Stack::prune
--   Hypothesis      src/Hypothesis.cu
--   Signed          the int arithmetic of distances
--   Manager         src/Manager.cu: RangeToInd, ComputeDistortionDistance, the tests of ProcessStack
--   Distortion      the distance of src/FF/Distortion.cu
--   Search          the loop of ProcessStack over target phrases
--   Process         the kernels of src/Manager.cu on the stacks, and src/Stacks.cu: Extend, Apply and Step are
--                   the invariants, Kernel the threads in any order, Round and Run the loop; Laws is
--                   what is asked of the scores, the features and the orderers
--   InputPaths      InitInputPaths and Lookup of src/Manager.cu
--   Decoder         Process of src/Manager.cu, from the phrase table to the last stack; Correct is about its
--                   launches, Debug about DebugTPSArr, which it calls between them, and Program
--                   about its parts as the program has them
--   Scores          src/Scores.cu and src/ScoresUnmanaged.cu
--   Features        the vectors of Create and FindFeatureFunction of src/FF/FeatureFunctions.cu, SetWeights of
--                   src/System.cu
--   Output          GetBestHypo of src/Manager.cu
--   LanguageModel   ShiftOrPush, Score and Load of src/LM/LanguageModel.cu
--   Applied         EvaluateWhenApplied of the features, and SetState
--   Vocab           src/MyVocab.cpp
--   Text            what the code uses of std::string
--   Util, Decimal   src/Util.h and src/Util.cpp: the functions on strings and on whole numbers
--   FeatureLine     src/FF/FeatureFunction.cu, and SetParameter of the phrase table and the language model
--   Configure       Create of src/FF/FeatureFunctions.cu on the lines of the configuration, LoadWeights
--                   of src/System.cu
--   PhraseTable     src/TranslationModel/PhraseTableMemory.cu: Load and Lookup
--   ConfigFile      ReadConfigFile of src/Parameter.cpp
--   Parameter       src/Parameter.cpp: the table of options, the test for illegal switches, and
--                   OverwriteParam
--   Examples        each theorem at a concrete input
--
-- State. A buffer is a capacity and a list of cells, and a cell that was never written is none;
-- size() is the number of cells. Reads and writes outside of a buffer and reads of unwritten cells
-- are faults. A heap of trie nodes is a list and a pointer an index of it. A stack also lists what
-- it has deleted. Functions that change an object return the new one.
--
-- Loops are structural recursion on the number of rounds that the loop's bounds give, except
-- upperBound and the loops of the tokenizers, which are recursion on fuel: one more than the
-- length. That is enough, since every round makes the interval shorter or passes a character. A
-- size_t is a number below 2^64 and wraps where the code relies on it (the target range of the
-- initial hypothesis is -1) or adds up what a user gives (Create). The int indices of the binary
-- search and of Shift, and the int casts of positions, are taken to be in range: a buffer has
-- fewer than 2^30 cells.
--
-- A string is the list of its bytes. Threads. A launch on separate cells runs its threads in an
-- order that is an argument. A launch of ProcessStack is a schedule: each step is the start of one
-- thread, up to its decision, or one round of its loop, so that the calls of add on one stack come
-- one after the other, as under its lock; when the schedule is used up, the threads that are left
-- run to their ends, so that every complete order is one of these.
--
-- Parts of the decoder. Process takes the sums of scores, the features and the two orderers as a
-- record of parts, with the laws of Process.Laws. Decoder.Program fills it with the code of Scores
-- and Applied for a configuration whose stateful features are Distortions. A language model is not
-- among these, since its Score may read past the end of a context (LanguageModel.PastEnd).
--
-- Parameters: the order of a set's entries, the two orders of hypotheses, the type of scores with
-- its operations and what is read as a score; in the vocabulary and in Features also the type of
-- strings with its equality. Not modelled: allocation that fails, the kernel launches themselves,
-- output for debugging but for what DebugTPSArr reads, input from files, the copy of third-party
-- utilities in src/util, and the parts that the manifest lists as such.
pub mod Prelude
pub mod Outcome
pub mod Applied
pub mod Bitmap
pub mod ConfigFile
pub mod Configure
pub mod Cuda
pub mod Decimal
pub mod Decoder
pub mod Distortion
pub mod Examples
pub mod FeatureLine
pub mod Features
pub mod Hypothesis
pub mod InputPaths
pub mod LanguageModel
pub mod Lock
pub mod Manager
pub mod Node
pub mod Output
pub mod Parameter
pub mod PhraseTable
pub mod Process
pub mod Range
pub mod Scores
pub mod Search
pub mod Signed
pub mod Stack
pub mod Text
pub mod Util
pub mod Vocab
