-- ===== src/Lib.antt =====
-- A model of fscript-extensions, Objective-C and C code that extends the F-Script language: FSClass,
-- which lets scripts define classes at run time, and fscript-CLI, a command-line interpreter with files,
-- formatted output and regular expressions.
--
-- The parts and how they interact. A script creates classes through FSClass; each has a shadow object,
-- and the shadows are registered by name and by class pointer. A script then adds properties and methods.
-- A property's accessors are functions of FSClass/Callbacks.m, and a method is a block, which is called
-- by a trampoline: machine code that is made for the block and installed as the method. Selectors give
-- the number of arguments and the names of properties. Every class of the runtime takes the same
-- messages through functions on `NSObject`, which make a shadow for it. The interpreter loads files and
-- libraries, reads lines, asks for more while brackets are open, and gives scripts files, the standard
-- input, programs, `sprintf:`, regular expressions, and a few methods on collections and numbers.
--
-- Prelude, with Prelude.Tests and Prelude.Lists: shared names, texts, lists over native numbers.
-- Dictionary: NSMutableDictionary as the sources use it, for keys with decidable equality.
-- Trampoline: FSClass/Trampoline.m and FSClass/trampolines. Call is a call of a method and memory;
--   Ppc, Ppc64, I386 and X8664 hold the byte tables, which the interpreters Powerpc, Ia32 and Amd64 run;
--   Create is createMethodTrampoline. The interpreters know the instructions that the tables use, and
--   every other one is a fault; the fuel of a run is the number of instructions of its table.
-- Selector: FSClass/Functions.m, isLegitSelector, getSelectorParameterCount, createMethodSignature.
-- PropertyName: _isLegitPropertyName, FSClass/FSClassStringUtil.m, and property names from selectors.
-- ClassModel: FSClass/FSClass.m, FSClass/FSClassCreation.m and FSClass/Callbacks.m. `World` is the state:
--   the shadows (`FsClass`), numbered from the oldest, the classes of the runtime, and the registries.
--   A method that may raise an exception returns `Outcome`; the new state is part of its result.
--   `parentClass` is followed by `chain`, on fuel: a parent is older than its children, so that a
--   shadow's number is enough (ClassModel.Chain). Store replaces shadows. ClassProperties and Properties
--   are the lookups along the chain, Creation, FastClasses and Anonymous the initialisers and newClass
--   methods, Methods is onMessage:do: and _installMethod, Introspection the reflection methods,
--   AddProperty the methods that add properties, Instances the allocator and the accessors, Super the
--   super calls. Wrapped is FSClass/MethodImplementations.m, whose replies keep the state behind an
--   exception too, and the methods that `initialize` makes of it; Interface is what the headers declare.
-- File: fscript-CLI/FSFile.m. A loop of reads has the length of what is left of the file as fuel, as
--   every chunk but an empty one takes a character. File.Handle is an NSFileHandle of a regular file,
--   File.Object the object in front of it (Buffered: its reads, Reset, Written, Wrappers, Opening), and
--   File.Interface what fscript-CLI/FSFile.h declares. readlinesWithSeparator: has the length of the
--   buffer and of what is left of the file, and two, as rounds, as each but the last takes a character.
-- Stdin: fscript-CLI/FSFileStdin.m, which overrides the reading of lines (File.Interface.Override).
-- Foreach: fscript-CLI/BlockForeach.m, a loop on fuel over what the two blocks do.
-- Loading: fscript-CLI/Functions.m. The loop that counts the line of an error has the location of the
--   error and two as rounds, as each round moves its position on.
-- SystemUtility: fscript-CLI/FSSystemUtility.m, with Import for libraries, Search for commands, and
--   Commands for programs and the shell; Interface is the header, filled from them.
-- FileTests: fscript-CLI/FileTest.m. Collections: fscript-CLI/FSNSDictionaryPairs.m,
--   fscript-CLI/FSAWNSMutableDictionary.m and fscript-CLI/ArrayUtil.m. Numbers:
--   fscript-CLI/FSNSNumberMod.m and fscript-CLI/StringNumberConversion.m.
-- ToolHelp: fscript-CLI/FSToolHelp.m, the help texts.
-- Sprintf: fscript-CLI/StringSprintf.m, the buffer macros, strings and integers. The loop that prints
--   digits has the number itself as fuel, as each round divides it by 8 or more. Format: its main loop,
--   with the length of the format as fuel, as each round takes a character or more.
-- Nestings: findNestings and nestedPrompt of fscript-CLI/interpreter.m, with the bytes of the buffer that
--   goes from line to line. Interpreter: its loop over lines, which runs the commands that are complete,
--   with the prompts and what is printed.
-- Regex: the enumerator, splitting, replacement (Replace), and options and matches (Matches) of
--   fscript-CLI/FSRegex.m. The enumeration has the places that are left as fuel, as each match moves on
--   by one or more. StringRegex: fscript-CLI/StringRegex.m, with the cache of compiled patterns.
-- Tests: every result at a concrete input, and runs of the definitions.
--
-- The headers are records of operations over a state, or over none, which the definitions fill.
--
-- Numbers are natural numbers, and integers where they may be negative. Texts are lists of codes, and of
-- ASCII characters in File, Stdin and Sprintf. What a buffer overrun or the reading of memory that was
-- never written leads to is an outcome of its own (Format.Formatted, Nestings.Nestings, the exception
-- `instance_as_class`), of which nothing more is said. The block of `replace:withBlock:` is a function without
-- effects. Arguments of the definitions are `malloc`, `mprotect`, the
-- addresses of functions, what the file manager knows and grants, what `ceil` and `log10` return, the
-- environment, what a program does that is launched, what F-Script does with a script, what `pcre_exec`
-- finds and PCRE knows of names, and the numbers that Foundation reads in strings; an `int` is as large
-- as the memory allows, but in Numbers and Loading, where its limits matter.
--
-- Not modelled: the floating-point conversions of `sprintf:`, which the C library does; the methods of
-- FSFile in the background, which need a run loop; the counting of references; the copy of PCRE 7.8 in
-- fscript-CLI/pcre-7.8, another project's library; fscript-CLI/fscript.m, the command line, which hands
-- its arguments on; the history of libedit; the functions of FSClass/Callbacks.m that nothing installs; and the
-- projects' own test programs and example scripts.
pub mod Prelude
pub mod Trampoline
pub mod Selector
pub mod PropertyName
pub mod Dictionary
pub mod ClassModel
pub mod File
pub mod Stdin
pub mod Sprintf
pub mod Format
pub mod Nestings
pub mod Regex
pub mod Foreach
pub mod Loading
pub mod SystemUtility
pub mod FileTests
pub mod Collections
pub mod Numbers
pub mod StringRegex
pub mod Interpreter
pub mod ToolHelp
pub mod Tests
