-- ===== src/Lib.antt =====
-- Bombyx, an interpreter of a small scripting language: core/larva.c reads a source text and writes
-- code for it into a buffer, core/expression.c does so for expressions, and core/larva_silk.c runs
-- the code on a stack of variables. The files here are about these three and what they stand on: the
-- tables of names, the values and their memory, the operators, the stack and the code buffer.
--
-- The parts, and the files about them:
--   * Table, Table/*: the hash table of linked lists that core/block.c, core/map.c and core/var.c
--     each have a copy of, with values of any type: `hash`, `lookup`, `add`, `delete`, `clear`.
--     Table/Laws and Table/Methods state what the operations do to the partial function from names
--     that a table stands for; Block, Map and VarTable are the three copies by their names in C.
--   * Value, Double, Memory, Env: core/var.h, core/array.h and core/common.h. A `var` is the record
--     Var, what its `data` points to is an Object at an address of the Heap, and `bombyx_env_t` is
--     Env. Code that takes the environment is in the monad M of Env: it returns, leaves by longjmp
--     (1 in larva_error, 2 in runtime_error), or does what C leaves undefined (Fault of Run).
--   * Array, Array/*: core/array.c, with the cells that were allocated, so that a write outside of
--     them and a read of an unset one are faults.
--   * Copy, Copy/*: op_assign and op_copy of core/operator.c with var_unset and the operations
--     of core/var.c on the memory of variables. Copying and freeing recur through maps and arrays:
--     op_copy, map_table_clone and array_clone take one another as arguments.
--   * Operator, Operator/*: the other functions of core/operator.c. A function that writes through
--     the `var *` of an operand returns the variable.
--   * Stack, Stack/*: core/stack.c.
--   * Bytecode, Bytecode/*: core/bytecode.c, the instruction codes of core/bytecode.h, and how
--     core/larva_silk.c reads the operands behind an instruction (Bytecode/Reader).
--   * Larva, Larva/*: core/larva.c up to larva_digest. Chew is larva_chew, with the `unsigned int
--     i` that wraps; Rounds is the same without the counter, and Counter says when they agree.
--     Endless is about where they do not. Pieces has source texts and what is kept of them, and
--     Chewed any text. Token has the readers of tokens, and Words what they read. Init is
--     larva_init, on a Source: the bytes of the text, `code_length` and `code_pos`; what a file
--     holds, and dlopen, are arguments; Included is about the zero at the end of the text. Reading
--     and Digest are larva_digest, in the monad of the parser of expressions: a piece of it takes
--     the text from `code_pos` on and the code buffer. Lines is a language of lines with their
--     text and code, independent of it; Balanced, Gives, Declares, Parameters, Statements,
--     Assignments and Programs prove that larva_digest compiles it.
--   * Expression, Expression/*: core/expression.c. A function of the parser takes the text that is left
--     and the code buffer (ParserData); Literal, Atom and Levels are its functions from the tightest
--     level to the loosest, and Parse the whole of it with parse, which cuts an expression out of a
--     source text. Grammar is the language as trees with their text and code, independent of the
--     parser; Reads, Ends, Tokens, Loops, Operands, Comparisons, Boundaries and Compiles prove one level after
--     another, and Correct the whole. Calls, elements, strings, fractions, exponents, blanks and the
--     signs of `--` and `++` are in the parser and not in the grammar.
--   * Silk, Silk/*: core/larva_silk.c. The variables of the loop are Locals, what stands behind each
--     `case` is a function case_... of Values, Elements, Operators, Control or Flow, and Step has the
--     dispatch, one round and the loop. Arguments is about BCO_REVERSE_STACK, Unwinding about the
--     loop of RETURN, Skipping about the skip mode, with the rounds of the loop as a relation, and
--     Arithmetic and Evaluation about the code of arithmetic expressions, compiled and run.
--     Path is var_apath of core/var.c. What the loop calls and is not modelled, output, time, JSON
--     and the functions of cocoons, is the parameter Host, with what malloc leaves in the `ref` of a
--     new variable.
--   * Cocoon, Cocoon/Laws: core/cocoon.c, with dlopen as an argument and the working directory, which
--     chdir sets, as a state that larva_init has too.
--   * System, System/Replaced: str_replace of core/sys.c, with the bytes that it allocates, and what
--     it replaces.
--   * Ctype: the tests on bytes of the C library.
--   * Prelude, Prelude/*, Run: numbers, lists, tests and outcomes that the parts share. Tests, with
--     Tests/Data, applies the theorems at small inputs.
--
-- What stands for what:
--   * Numbers are ℕ. `unsigned int` and DWORD arithmetic wraps by `% 2 ^ 32` where it is written
--     out; a `size_t` does not wrap, but for the comparison in bc_add_double and bc_add_string.
--   * A name or a text is the list of its bytes before the zero; `char` is signed in the hash.
--   * `double` is an interface, Double: its operators, comparisons, "%.6g" and bytes are parameters,
--     with two laws: eight bytes, from which the value is read back.
--   * Allocation never fails, and an address that was freed is not given out again, so a use after
--     free is a fault. The pool of doubles of core/challoc.c and malloc are one heap.
--   * Memory that C leaves unset is 0 in bytes, and the cell
--     `raw` in arrays. A pointer to a variable of the table is its name.
--   * op_copy and var_unset take fuel, the depth of nesting of values; one level is enough for numbers
--     and strings. reverse_string walks on `data_size` rounds, more than half of the length.
--   * The parser takes fuel, which bounds how deep the levels stand inside of one another and the rounds
--     of each loop; more than two for each byte of the text is enough for the grammar. larva_digest
--     takes fuel for its expressions and parameters, more than the writes of the program, and rounds,
--     more than two for each line. larva_chew and the
--     loops inside of it take one round more than there are bytes; where `i` wraps they would not end;
--     the loop of
--     larva_init takes rounds, since a file may include itself. The loop of the
--     interpreter takes rounds, since programs need not end. A RETURN goes back through at most the 256
--     levels that a byte counts.
--
-- Not modelled: the JSON conversions of core/var.c; what core/sys.c has besides str_replace; what
-- prints or frees at the end; core/challoc.c, vendor, cocoons, console.c, web.c and core/debugger.c,
-- which are libraries, extensions or input and output.
pub mod Prelude
pub mod Run
pub mod Table
pub mod Block
pub mod Value
pub mod Double
pub mod Bytecode
pub mod Env
pub mod Array
pub mod Memory
pub mod Larva
pub mod System
pub mod Map
pub mod VarTable
pub mod Copy
pub mod Operator
pub mod Stack
pub mod Ctype
pub mod Cocoon
pub mod Silk
pub mod Expression
pub mod Tests
