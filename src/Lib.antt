-- ===== src/Lib.antt =====
-- Prime Mover is a build tool, one self-contained file: a Lua 5.0 interpreter in C, with a POSIX
-- library, that a shell script compiles on first use and that then runs the build engine, a Lua
-- script. This library models the C of the interpreter. A path such as lua/lzio.c is from the
-- repository's root.
--
-- The parts modelled, and how they interact:
-- - Opcodes: lua/lopcodes.h and lua/lopcodes.c. The fields of an instruction (GET_OPCODE, GETARG_A
--   and the others, SETARG_..., CREATE_ABC, CREATE_ABx) are the bit operations of the macros;
--   Opcodes/Mode has the enumeration OpCode and luaP_opmodes; Opcodes/Fields describes the fields by
--   division and remainder, and Opcodes/Laws has the laws that the other parts use.
-- - Proto: the part of lua/lobject.h that a compiled function consists of. Header is the struct
--   Proto without its nested functions, and Proto a header with the functions nested in it.
-- - Debug: lua/ldebug.c from precheck to luaG_checkcode, the check that the code of a function is
--   safe to run. It reads instructions through Opcodes. A failed `check` returns 0 from the function
--   around it, which is `rejected` in the monad of Debug/Outcome, and a read outside an array is
--   `fault`. Debug/Progress and Debug/Soundness have its proofs.
-- - Zio: lua/lzio.c and lua/lzio.h, the stream that a chunk is read from. The reader that the host
--   gives is the list of the blocks that it will return. Zio/Contents and Zio/Read compare the
--   operations with the list of bytes that the stream still holds.
-- - Chunk: lua/ldump.c (Chunk/Dump), and lua/lundump.c and lua/lundump.h (Chunk/Load for the parts of
--   a function, Chunk/Undump for functions, the header and chunks). Loading reads through Zio, gives
--   each function to Debug, and raises an error where luaG_checkcode returns 0. Chunk/Memory has the
--   bytes of a word in memory, in either order. The loads are a state monad over the stream, with the
--   errors of the source as values, `undefined` among them for behaviour that C does not define.
-- - Modes: lua/modemuncher.h, which lua/lposix.c includes for chmod and umask. Modes/Clauses is the
--   abstract syntax of a mode string and what it means.
-- - Strings: lua/lstrlib.c, the functions on strings that do not match patterns, and lmemfind.
-- - Patterns: the pattern matcher of lua/lstrlib.c, match and all that it calls. Patterns has the
--   classes of characters, Patterns/Matching the matcher; a position in the subject or the pattern is
--   a number, the captures are a list of the length `level`, and a call of match from within is a
--   continuation. A char is unsigned. Patterns/Find has string.find and the iterator of string.gfind,
--   Patterns/First and Patterns/Found what they find.
-- - Objects: of lua/lobject.c and lua/lobject.h, the floating point bytes in which the sizes of
--   tables are written (luaO_int2fb, fb2int), luaO_log2 and luaO_chunkid.
-- - Tables: lua/ltable.c. A table is its array part and its hash part, functions on indices with
--   their sizes; a node is known by its index, and a TObject is `none` where it is nil. Tables has the
--   searches, Tables/Insert newkey up to the growth, Tables/Resize the growth, luaH_set, luaH_setnum
--   and luaH_new, Tables/Traverse luaH_next. Their calls of newkey are an argument, which newkey with
--   less fuel fills. Tables/Chains has the invariant of the hash part, which Tables/Links and
--   Tables/Moves show for the two ways of newkey; Tables/Present, Tables/Refine and Tables/Places read
--   the hash part as a map, Tables/Assign both parts, where luaH_set does not grow the table;
--   Tables/Growth and Tables/Rehash carry the invariant through a growth that ends.
--   What lua_Number is, and the hash of a string, are parameters; Tables/Equal names what is relied
--   on: equal numbers have equal hashes.
-- - Lexer: lua/llex.c. The input is the bytes that `current` and the stream hold together, which
--   Zio/Contents relates to a stream of blocks. Lexer/Readers has read_numeral, read_long_string and
--   read_string, Lexer/Lex luaX_lex, luaX_setinput and luaX_token2str; a turn of a loop is a function,
--   and Lexer/Ends and Lexer/Lines show that turns take bytes. Lexer/Quoted sets read_string against
--   luaI_addquoted of lua/lstrlib.c, which Strings has. luaO_str2d is a parameter.
-- - Interning: lua/lstring.c, the table of all strings, by which equal strings are one object, as the
--   tables, the lexer and the virtual machine take for granted. Interning/Resize shows what a growth
--   does, Interning/Unique that a text has one string. An address that memory gives is a counter.
-- - Upvalues: of lua/lfunc.c, luaF_findupval and luaF_close, through which closures share the
--   variables of a function, while it runs and after.
-- - JumpLists: of lua/lcode.c, luaK_getjump, luaK_fixjump and luaK_concat, which keep the jumps that
--   wait for their destination in a list through their operands. The fuel of the loop is the
--   number of jumps in the first list.
-- - Prelude: names shared by all parts; lists, integers and bit operations over the native numbers.
--
-- Sizes. An int has 32 bits, a size_t, an Instruction and a long have 64, a lua_Number is the 64 bits
-- of a double (an LP64 machine, little or big endian). They are natural numbers below the power of
-- two, or integers where the source computes with the sign, and wrap-around is written out where the
-- source has it: the passage of sizes through int in ezread, luaO_chunkid, push_onecapture and
-- gfind_aux, and the count of zgetc at the end of a stream. Where fb2int overflows, it has no result.
--
-- Fuel. symbexec_loop gets as many rounds as there are instructions before lastpc, and each round
-- that goes on increases pc. read_loop gets a round for each byte that is wanted, since a round
-- that goes on has taken a byte. load_function gets the number of bytes of the stream, since a
-- nested function takes more than one byte. munch_loop gets a turn for each byte of the mode
-- string, since a turn that goes on has passed a comma. do_match gets the length of the pattern,
-- since each call of match from within is further in the pattern; the loops over a class in
-- brackets are bounded likewise, and int2fb_loop by the 32 bits of its number, lmemfind_loop by the
-- places where the first byte may be. A search along a chain gets one round more than there are nodes,
-- and so does the search for the node before another. newkey gets the number of growths that may
-- nest, on which no bound is shown: that a growth ends is not proved. The loops of the lexer get one turn more than the input has bytes,
-- since a turn that goes on has taken one. The hash of a string gets one round more than it has
-- bytes, since a step is at least 1.
--
-- Not modelled: memory allocation and its failure; the garbage collector, the call stack and the
-- execution loop; the parser and, but for the lists of jumps, the code generator; string.gsub, and
-- of string.format all but %q;
-- the other libraries and the embedding interface; lua/lposix.c, which calls the operating
-- system; the build engine, which is no C. Of lua/ldebug.c the functions that inspect a running
-- state and format messages are left out.
pub mod Chunk
pub mod Debug
pub mod Interning
pub mod JumpLists
pub mod Lexer
pub mod Modes
pub mod Objects
pub mod Opcodes
pub mod Patterns
pub mod Prelude
pub mod Proto
pub mod Strings
pub mod Tables
pub mod Upvalues
pub mod Zio
