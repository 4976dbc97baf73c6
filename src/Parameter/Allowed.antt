-- ===== src/Parameter/Allowed.antt =====
-- The table of options that the constructor of Parameter.cpp adds, in its order. The options in
-- comments are left out.
use gpu_moses.Prelude.{none, some, List, [], ◌∷◌, ◌++◌}
use gpu_moses.Parameter.Table.{Param}

-- Lines of the constructor: the options of searching: main, factorization, search, tuning and distortion.
abbrev pub main_options : List Param
main_options =
    record {
      name = "config";
      abbrev_name = some "f";
      description = "location of the configuration file";
    }
    ∷ record {
      name = "input-file";
      abbrev_name = some "i";
      description = "location of the input file to be translated";
    }
    ∷ record {
      name = "verbose";
      abbrev_name = some "v";
      description = "verbosity level of the logging";
    }
    ∷ record {
      name = "show-weights";
      abbrev_name = none;
      description = "print feature weights and exit";
    }
    ∷ record { name = "mapping"; abbrev_name = none; description = "description of decoding steps" }
    ∷ record {
      name = "placeholder-factor";
      abbrev_name = none;
      description =
          "Which source factor to use to store the original text for placeholders. The factor must not be used by a translation or gen model";
    }
    ∷ record {
      name = "search-algorithm";
      abbrev_name = none;
      description =
          "Which search algorithm to use.\n0=normal stack (default)\n1=cube pruning\n3=chart (with cube pruning)\n4=stack with batched lm requests\n5=chart (with incremental search)\n6=string-to-tree\n7=tree-to-string\n8=tree-to-string (SCFG-based)\n9=forest-to-string";
    }
    ∷ record {
      name = "beam-threshold";
      abbrev_name = some "b";
      description = "threshold for threshold pruning";
    }
    ∷ record {
      name = "stack";
      abbrev_name = some "s";
      description = "maximum stack size for histogram pruning. 0 = unlimited stack size";
    }
    ∷ record {
      name = "weight";
      abbrev_name = none;
      description =
          "weights for ALL models, 1 per line 'WeightName value'. Weight names can be repeated";
    }
    ∷ record {
      name = "weight-overwrite";
      abbrev_name = none;
      description =
          "special parameter for mert. All on 1 line. Overrides weights specified in 'weights' argument";
    }
    ∷ record {
      name = "feature-add";
      abbrev_name = none;
      description = "Add a feature function on the command line. Used by mira to add BLEU feature";
    }
    ∷ record {
      name = "weight-add";
      abbrev_name = none;
      description =
          "Add weight for FF if it doesn't exist, i.e weights here are added 1st, and can be override by the ini file or on the command line. Used to specify initial weights for FF that was also specified on the copmmand line";
    }
    ∷ record {
      name = "max-phrase-length";
      abbrev_name = none;
      description = "maximum phrase length (default 20)";
    }
    ∷ record {
      name = "threads";
      abbrev_name = some "th";
      description = "number of threads to use in decoding (defaults to single-threaded)";
    }
    ∷ record {
      name = "distortion-limit";
      abbrev_name = some "dl";
      description =
          "distortion (reordering) limit in maximum number of words (0 = monotone, -1 = unlimited)";
    }
    ∷ record {
      name = "monotone-at-punctuation";
      abbrev_name = some "mp";
      description = "do not reorder over punctuation";
    }
    ∷ record {
      name = "cube-pruning-pop-limit";
      abbrev_name = some "cbp";
      description = "How many hypotheses should be popped for each stack. (default = 1000)";
    }
    ∷ record {
      name = "cube-pruning-diversity";
      abbrev_name = some "cbd";
      description = "How many hypotheses should be created for each coverage. (default = 0)";
    }
    ∷ record {
      name = "cube-pruning-lazy-scoring";
      abbrev_name = some "cbls";
      description = "Don't fully score a hypothesis until it is popped";
    }
    ∷ []

-- Lines of the constructor: the options of input and output.
abbrev pub input_options : List Param
input_options =
    record {
      name = "drop-unknown";
      abbrev_name = some "du";
      description = "drop unknown words instead of copying them";
    }
    ∷ record {
      name = "mark-unknown";
      abbrev_name = some "mu";
      description = "mark unknown words in output";
    }
    ∷ record {
      name = "unknown-word-prefix";
      abbrev_name = none;
      description = "prefix to unknwon word when marked (default: 'UNK')";
    }
    ∷ record {
      name = "unknown-word-suffix";
      abbrev_name = none;
      description = "suffix to unknwon word when marked (default: '')";
    }
    ∷ record {
      name = "input-factors";
      abbrev_name = none;
      description = "list of factors in the input";
    }
    ∷ record {
      name = "inputtype";
      abbrev_name = none;
      description = "text (0), confusion network (1), word lattice (2), tree (3) (default = 0)";
    }
    ∷ record {
      name = "xml-input";
      abbrev_name = some "xi";
      description =
          "allows markup of input with desired translations and probabilities. values can be 'pass-through' (default), 'inclusive', 'exclusive', 'constraint', 'ignore'";
    }
    ∷ record {
      name = "output-factors";
      abbrev_name = none;
      description = "list if factors in the output";
    }
    ∷ record {
      name = "translation-details";
      abbrev_name = some "T";
      description = "for each best hypothesis, report translation details to the given file";
    }
    ∷ record {
      name = "output-hypo-score";
      abbrev_name = none;
      description =
          "Output the hypo score to stdout with the output string. For search error analysis. Default is false";
    }
    ∷ record {
      name = "report-segmentation";
      abbrev_name = some "t";
      description = "report phrase segmentation in the output";
    }
    ∷ record {
      name = "report-segmentation-enriched";
      abbrev_name = some "tt";
      description = "report phrase segmentation in the output with additional information";
    }
    ∷ []

-- Lines of the constructor: n-best lists, servers and the rest.
abbrev pub other_options : List Param
other_options =
    record {
      name = "n-best-list";
      abbrev_name = none;
      description =
          "file and size of n-best-list to be generated; specify - as the file in order to write to STDOUT";
    }
    ∷ record {
      name = "n-best-factor";
      abbrev_name = none;
      description =
          "factor to compute the maximum number of contenders (=factor*nbest-size). value 0 means infinity, i.e. no threshold. default is 0";
    }
    ∷ record {
      name = "server";
      abbrev_name = none;
      description = "Run moses as a translation server.";
    }
    ∷ record { name = "server-port"; abbrev_name = none; description = "Port for moses server" }
    ∷ record {
      name = "server-log";
      abbrev_name = none;
      description = "Log destination for moses server";
    }
    ∷ record {
      name = "serial";
      abbrev_name = none;
      description = "Run server in serial mode, processing only one request at a time.";
    }
    ∷ record {
      name = "server-maxconn";
      abbrev_name = none;
      description = "Max. No of simultaneous HTTP transactions allowed by the server.";
    }
    ∷ record {
      name = "server-maxconn-backlog";
      abbrev_name = none;
      description = "Max. No. of requests the OS will queue if the server is busy.";
    }
    ∷ record {
      name = "server-keepalive-maxconn";
      abbrev_name = none;
      description = "Max. No. of requests the server will accept on a single TCP connection.";
    }
    ∷ record {
      name = "server-keepalive-timeout";
      abbrev_name = none;
      description = "Max. number of seconds the server will keep a persistent connection alive.";
    }
    ∷ record {
      name = "server-timeout";
      abbrev_name = none;
      description =
          "Max. number of seconds the server will wait for a client to submit a request once a connection has been established.";
    }
    ∷ record {
      name = "max-chart-span";
      abbrev_name = none;
      description = "maximum num. of source word chart rules can consume (default 10)";
    }
    ∷ record {
      name = "non-terminals";
      abbrev_name = none;
      description = "list of non-term symbols, space separated";
    }
    ∷ record {
      name = "decoding-graph-backoff";
      abbrev_name = some "dpb";
      description = "only use subsequent decoding paths for unknown spans of given length";
    }
    ∷ record {
      name = "feature";
      abbrev_name = none;
      description = "All the feature functions should be here";
    }
    ∷ record {
      name = "cpu-affinity-offset";
      abbrev_name = none;
      description = "CPU Affinity. Default = -1 (no affinity)";
    }
    ∷ record {
      name = "cpu-affinity-increment";
      abbrev_name = none;
      description =
          "Set to 1 (default) to put each thread on different cores. 0 to run all threads on one core";
    }
    ∷ []

abbrev pub allowed : List Param
allowed = main_options ++ input_options ++ other_options
