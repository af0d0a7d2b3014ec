-- ===== src/Lib.antt =====
-- The front end of the lemon compiler: its scanner, parser, symbol table and resolver, and the containers
-- that the phases share.
--
-- The compiler reads a source file into memory and hands it to the scanner (src/scanner.c), which runs in
-- a thread of its own, cuts the text into tokens and sends them on a channel (src/lib/channel.h) to the
-- parser. Words are looked up in a perfect hash (src/assets/kmap.c, which gperf makes from
-- src/assets/keywords.txt). The later phases keep their symbols in hash tables (src/lib/map.h), their lists
-- in vectors (src/lib/vector.h) and their messages in growable strings (src/lib/str.h), which all take
-- memory from an arena (src/utils/arena.c), one for each thread.
--
-- Files:
--   Base            shared names, tests, lists with native lengths, byte strings
--   Ring            indices that go round a buffer, for Channel and Map
--   Token           `token`, `token_type` and pointers into the text, of src/scanner.h
--   Keywords        `kmap_lookup` of src/assets/kmap.c; Table its tables, Correct its theorem
--   Scanner         `Scan` and what it calls, of src/scanner.c: `consume` is `Consume`, `consume_if_peek` is
--                   `ConsumeIfPeek` and so on. Chars has the character tests, Grammar says how a token of
--                   each type is spelled, Steps what one round of the loop keeps, Numbers, Words and
--                   Literals treat the consumers, Progress the whole switch, Tokens termination, Stream
--                   the tokens sent, Lines the line numbers
--   Channel         `ChannelInit`, `ChannelSend`, `ChannelRecv`, `ChannelClose`, `ChannelShutdown`; Fifo the
--                   queue that the ring buffer holds, Threads the interleavings of two threads
--   Map             `MapInit`, `MapInsert`, `MapGet`, `MapSet`, `MapRemove` and their helpers; Hash the index of
--                   a key, Probe the loops round the buffer, Valid the invariant and searches, Update and
--                   Writes what one write keeps, Resize the copy into a larger buffer, Insert insertion
--   Vector          the operations of src/lib/vector.h; Takes list lemmas, Laws what they do
--   Str             the `vstring` operations of src/lib/str.h; Texts the text of a string, Trim `vStringTrim`
--   Arena           `Align`, `ArenaInit`, `ArenaAllocate` and `ArenaReallocate` of src/utils/arena.c; Blocks what an
--                   allocation gives, Reallocate what a reallocation keeps
--   Parser          src/parser.c and parser.h: `recursive_descent` is `RecursiveDescent`, `rec_decl` is `RecDecl` and so
--                   on for every function. Tree has the nodes; Actions the state, exceptions and channel
--                   operations; Expressions, Declarations and Statements the productions; Runs and Stops say
--                   what a step keeps, Tokens, Attempts and Recovery treat the channel operations, TypeRuns,
--                   ExprRuns, DeclRuns, FiatRuns and StmtRuns the productions, Chains and
--                   Sums the operators and their precedence, Reads ties the circle of
--                   calls, Caught and Decides have what the whole parser comes to
--   SymTable        `SymTableInit`, `SymTableSpawn`, `SymTableInsert`, `SymTableLookup` and the names of src/symtable.c;
--                   Scopes says what a name means in a scope, Entries treats insertion, Spawning new tables,
--                   Capacity how long symbols keep their slots
--   Graph           src/lib/graph.h, the shallow wrapper over Map
--   Resolver        phase 1 of src/resolver.c: `insert_module` is `InsertModule`, `insert_children` is `InsertChildren`,
--                   `sort` is `Sort`, `resolve_dependencies` is `ResolveDependencies`. Loads is `SyntaxTreeInit` with
--                   the files of src/utils/file.c before it; Imports says which file reaches which and what
--                   order is right; Search has the invariant of the search, Places, Opens, Closes and Visits
--                   its steps with Sorts, Dependencies and OnDisk what it comes to. Phase 2: Types has the texts of types
--                   and signatures, Notation how a program writes them, TypeTexts and Signatures what they are;
--                   Frames has the operations on `struct frame`,
--                   Lookups and Symbols the functions from `ResolveModule` to `ResolveBlock`, Init `ResolveSymbols` and
--                   `ResolverInit`; Steady says what it is to keep the stack of tables, Primitives, Homes and Balance
--                   treat the functions, Finds says what a type name finds, Begins `SymTableInit`, Lengths and Whole both phases
--   Tests           runs, and the theorems at concrete values
--
-- State is passed explicitly. The scanner's state is a record whose `sent` is the list of the tokens sent; a
-- pointer into the text is its offset with the rest of the text behind it, and the terminating NUL is the
-- end of the list. A channel is a record of its buffer and indices, and a function on it is what a thread
-- does while it holds the mutex; a wait is an outcome. The value in a failed assertion's or an abort's place is
-- an outcome of its own (`assert_failed`, `failed`, `aborted`, `none`): assertions are enabled in the build.
--
-- Loops: `Scan` runs on one round of fuel for each character and one for the end, which is enough since each
-- round moves on. The loops round a hash table run on as many rounds as there are slots: a
-- search returns to its start after that many, and a probe of a well-formed table that is not full meets an
-- open slot before.
--
-- The parser's state has the tokens that are still to come on the channel, since the parser waits for each and
-- the scanner sends each once. An exception is an outcome, which `attempt` catches as the `Try` blocks do. Its
-- functions call one another through a record, `Calls`, which `knot` makes on fuel; each loop has fuel of its
-- own. `parse` gives one unit for each token and one more to both, which is enough since every round of a
-- loop and every circle of calls takes a token (`parse_total`). Error messages are counted, not built.
--
-- The modules of the resolver are in a store, and a pointer to one is its index there; the static variable of
-- `Sort` is a field of the network, NULL before the first call. The text of each file on the disk is an
-- argument, and the files that can be read and reached are taken to be listed by some list of names. The
-- search has one unit of fuel for each of these names and one more, which is enough since each call that
-- goes down enters a name that was not in the graph (`resolve_dependencies-Settled`), and so has the walk along
-- the list, which has no file twice (`resolver_init-Finished`). A pointer to a symbol is the table that has it
-- with its name: between a lookup and the write through it nothing is inserted into that table. The
-- `snprintf` of the C library is an argument; what is said of a text that a number stands in supposes what
-- the library documents of it (`Prints`).
--
-- `sym_table_lookup` has fuel for its recursion up the tree; more than the index of the table is enough, since a
-- parent stands in front of its children in the store (`sym_table_lookup-Sees`).
--
-- Numbers are natural numbers. The hash of a key wraps at 2 ^ 64 as written. The scanner's offsets and lines
-- are bounded by the length of a text in memory. The length of a table, a vector or a string is compared
-- with the largest 64-bit number where the source does so. A size in bytes (`cap * sizeof(T)`) is not modelled:
-- an allocation that comes back is taken to have the size asked for, and one that fails aborts the program.
--
-- Not modelled: the links from the syntax tree to symbols and tables, which the resolver writes and does not
-- read; a pointer to a symbol that is kept while its table grows; the texts of messages; the output of a
-- symbol table as JSON; `ArenaFree`; the command line, the log, the reading of files and the JSON
-- output (src/utils), which are input and output; libc and pthreads, which are not part of the
-- repository; the copies of other projects' libraries in extern.
pub mod Base
pub mod Token
pub mod Keywords
pub mod Scanner
pub mod Ring
pub mod Channel
pub mod Map
pub mod Vector
pub mod Str
pub mod Arena
pub mod Parser
pub mod SymTable
pub mod Graph
pub mod Resolver
pub mod Tests
