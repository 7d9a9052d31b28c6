-- ===== src/Lib.antt =====
-- ForgeZero is a build tool for C and assembly written in Go. The development models parts of it and
-- proves what they do. A Go string or byte slice is a list of numbers, its bytes. Numbers are natural
-- numbers, with the wrap-around of a machine width written out; an int of the expression evaluator is
-- its 64-bit pattern. Loops are recursions on lists, or on fuel with theorems that the fuel is enough.
--
-- Gloria (internal/gloria), the small system language:
--   Gloria/Token.antt models types.go, Gloria/Lexer.antt models lexer.go. The state of the lexer is
--   the record Lexer with the fields of the Go struct; each method answers the new state. The
--   children of Lexer hold the invariant (Advance), the loop over whitespace and comments (Trivia),
--   the cases of NextToken (Tokens) and calls of it in a row (Stream). Every inner loop has the length
--   of the input as its fuel.
--   Gloria/Code.antt models the byte emitters of codegen.go. Gloria/Action.antt is the monad in which
--   CompileFunc is written: its state is the rest of the tokens of a function and compilerState, and
--   its outcomes are a value, an error, a run-time panic and an endless loop. Gloria/Compile.antt
--   models the statements of emitter.go, Compile/Blocks.antt if, while, return and the loop over the
--   statements, and Gloria/Link.antt Emit: the collection of the functions, their code and the
--   patches of the jump to main and of the calls. The children hold the proofs: that actions end
--   (Action/Runs, Compile/Statements, Blocks/Loops, Blocks/Names, Link/Ends), where jumps and calls
--   lead (Blocks/Jumps, Blocks/Calls, Link/Patch, Link/Lands) and what the peephole pass does to code
--   (Code/Peephole). A loop over tokens has a unit of fuel more than there are tokens, and the loop
--   that makes the tokens one more than there are bytes. A stack offset is the depth whose negative
--   it is. Not modelled: functions that nothing calls.
-- Linker (internal/linker/flat_layout.go), the writer of flat images:
--   Linker/Layout.antt models NewNakedMemoryLayout, EmitFlatBinary and what they call. The children
--   of Layout hold the placement of the sections (Naked), the check of their packing (Packing), the
--   sort (Order), the bytes that are written (Image) and the image as a whole (Emit). The copy that
--   forge.MoveBytes does by an assembly routine is modelled as a copy of the bytes that fit.
-- Fzp (internal/fzp), the preprocessor:
--   Fzp/Tokens.antt models the tokenizer of lexer.go, Fzp/Expr.antt its parser, which evaluates as
--   it reads, and Fzp/Conditions.antt the conditional directives of processor.go with their stack.
--   The position of the tokenizer and of the parser is what is left of their input. The parser has
--   one unit of fuel more than there are tokens. Macros are association lists. TrimSpace and Fields
--   are modelled on ASCII text. Not modelled: includes, definitions and the cache, which work on
--   files and on Go maps in random order.
-- Assembler (internal/assembler), the native assembler for x86:
--   Assembler/Text.antt models bytesutil.go, Assembler/Memory.antt and Assembler/Operand.antt the
--   parser of registers and operands in x86.go, and Assembler/Encode.antt the instructions of
--   x86.go, each as a function from the text behind its name to the bytes that it adds to the
--   section. The loop over the parts of a memory operand has a unit of fuel more than there are
--   bytes, and is called with the proof that this is enough. Encode/Address.antt reads the bytes
--   of a memory operand as a processor does. Assembler/Dispatch.antt models the choice of an
--   instruction by its name in emitter.go, and Assembler/Directives.antt the data directives db, dw,
--   dd and dq. Assembler/State.antt models the state of the parser with its symbols and relocations,
--   Assembler/Jumps.antt the instructions of x86.go that name a symbol, Assembler/Sections.antt the
--   directives on sections and Assembler/Lines.antt parseLine and the loop over the lines; a line has
--   a unit of fuel more than it has bytes. Assembler/Target.antt models the targets, Assembler/Tables.antt
--   the tables of an object file and Assembler/Object.antt its writer. Object/Read.antt, Entries.antt
--   and Relocations.antt read an object file from the format.
--   Not modelled: the files that are read and written, and the pools of buffers. The texts of errors
--   are left out.
-- Drivers (internal/drivers):
--   Drivers/Chan.antt models the queue of chan/mpsc.go, whose calls run under a mutex, as functions
--   on its record. Chan/Window.antt holds the lemmas on positions that wrap around, and Chan/Fifo.antt
--   the items of a queue as a list. NewMPSC doubles its size at most 63 times. Drivers/Ring.antt models
--   tryEnqueue and tryDequeue of the ring queues in scheduler/intqueue.go as steps of threads in any
--   order, one for each atomic operation. Ring/Sound.antt holds the invariant, Ring/Run.antt and
--   Ring/Changes.antt the steps, and Ring/Fifo.antt the runs. nextPowerOfTwo is not modelled.
-- Builder (internal/builder/graph.go):
--   Builder/Graph.antt models topoSort, which orders the nodes of a dependency graph. The children of
--   Graph hold the positions of the dependents (Counts), the cells that they fill (Filled, Adjacent),
--   the loop over the queue (Relax, Order) and the answers (Sorts, Invalid). A slice from the pool of
--   scratch slices is an argument of the model, the list of its cells. The loop over the queue has a
--   unit of fuel more than there are nodes. Builder/Remap.antt models remapDependencies, which numbers
--   the nodes by an order; sort.Ints is a parameter that keeps how often each number occurs.
--   Builder/Dag.antt models runDAGBuild as steps on the state that its tasks share. The loop that
--   starts the first tasks reads a count without the mutex and then calls schedule, in two steps,
--   and a task that has the mutex takes a step for each write of a count, so that the loop may
--   read a count between its fall to 0 and its mark. What else a task does under the mutex is one
--   step, and so is a call of schedule, whose test of the bitmap is atomic. A build may succeed or
--   fail. Dag/Falls.antt holds the counts, Dag/Safe.antt the invariant, Dag/Tells.antt and
--   Dag/Lowers.antt the steps, Dag/Keeps.antt the runs, Dag/Starts.antt the dependents. Not
--   modelled: the reading of dependency files, the pool, and the result of runDAGBuild.
-- Utils (internal/utils):
--   Utils/Deps.antt models ParseDepFile of deps.go, with a unit of fuel more than there are bytes.
-- Prelude: numbers, lists, bytes and the conditional.
-- Each part has a module Runs with tests and with its theorems at concrete inputs.
--
-- Not modelled: the command line, the rest of the builder with its caches, the other drivers, the
-- configuration, the package manager and the parts that only run other programs.
pub mod Prelude
pub mod Gloria
pub mod Linker
pub mod Fzp
pub mod Assembler
pub mod Drivers
pub mod Builder
pub mod Utils
