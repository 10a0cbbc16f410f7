-- ===== src/ToolHelp.antt =====
-- The texts of fscript-CLI/FSToolHelp.m. The bundles, in the order of their identifiers, and the version of
-- the F-Script framework are arguments.
pub mod Answers
use fscript_extensions.Prelude.{
  Option, none, some, List, length, replicate, ltb, Bytes, codes, [], ◌∷◌, ◌++◌, ◌-◌, ◌==◌,
  if◌then◌else◌,
}
use fscript_extensions.Trampoline.Create.{Arch, i386, ppc, ppc64, x86_64}
use fscript_extensions.Regex.Matches.{count}
use fscript_extensions.Selector.{get_selector_parameter_count}
use fscript_extensions.SystemUtility.{libraries}

-- `architecture`
abbrev pub architecture : Arch → Bytes
architecture ppc = codes "PowerPC 32bit"
architecture ppc64 = codes "PowerPC 64bit"
architecture i386 = codes "x86 32bit"
architecture x86_64 = codes "x86 64bit"

-- What `%@` prints of a string, or of `nil`.
abbrev pub text_or_null : Option Bytes → Bytes
text_or_null none = codes "(null)"
text_or_null (some s) = s

abbrev pub description : Bytes
description =
    codes "Available help topics:\n  help version\n  help quit\n  help import\n  help frameworks\n"

-- `version`; the interpreter has the version 2.2, and PCRE the version 7.8.
unfoldable pub version : Arch → Option Bytes → Bytes
version arch framework_version =
    codes "Architecture:       "
    ++ (architecture arch
        ++ (codes "\nF-Script Framework: "
            ++ (text_or_null framework_version
                ++ codes "\nfscript CLI:        2.2\nRegex Library:      PCRE 7.8")))

abbrev pub import_text : Bytes
import_text =
    codes "To import libraries or scripts, type 'sys import:filename'.\n"
    ++ codes "To see current library directories, type 'sys libraries.'\n"

abbrev pub quit : Bytes
quit = codes "To exit, type 'sys exit' and hit return, or type Control-D."

-- `bundleIdentifier` and `CFBundleShortVersionString`
pub record Bundle : Type 0 where
  pub bundle_identifier : Option Bytes
  pub short_version : Option Bytes

-- `%-35s`
abbrev pub left_justified : Bytes → Bytes
left_justified s = s ++ replicate (35 - length s) b' '

-- A line for each bundle that has an identifier.
unfoldable pub bundle_lines : List Bundle → Bytes
bundle_lines [] = []
bundle_lines (b ∷ bundles) = elim b.bundle_identifier [
  | none ↦ bundle_lines bundles
  | some identifier ↦
      codes "  "
      ++ (left_justified identifier
          ++ (text_or_null b.short_version ++ b'\n' ∷ bundle_lines bundles))
]

unfoldable pub frameworks : List Bundle → List Bundle → Bytes
unfolding bundle_lines
frameworks all_frameworks all_bundles =
    codes "Frameworks:\n"
    ++ (bundle_lines all_frameworks ++ (codes "\nBundles:\n" ++ bundle_lines all_bundles))

-- `methodSignatureForSelector:`, as to the number of arguments; behind 8 it is what `NSObject` knows, and
-- that is nothing for a message that is not one of its own.
unfoldable pub method_signature_for_selector : Bytes → Option Bytes
unfolding get_selector_parameter_count
method_signature_for_selector selector =
    let count = get_selector_parameter_count selector in
    if ltb 8 count then none else some (codes "@@:" ++ replicate count b'@')

-- `forwardInvocation:`
unfoldable pub forward_invocation : Bytes → Bytes
unfolding get_selector_parameter_count
forward_invocation selector =
    if get_selector_parameter_count selector == 0
    then codes "There is no help avavilable for '" ++ (selector ++ codes "'")
    else codes "Usage: 'help foo'"

-- A message that the class has no method for; nothing is the exception for an unknown one.
unfoldable pub unknown_message : Bytes → Option Bytes
unfolding method_signature_for_selector forward_invocation
unknown_message selector = elim (method_signature_for_selector selector) [
  | none ↦ none
  | some _ ↦ some (forward_invocation selector)
]

-- What fscript-CLI/FSToolHelp.h declares.
pub record ToolHelp : Type 0 where
  pub description : Bytes
  pub import : Bytes
  pub version : Bytes
  pub quit : Bytes
  pub frameworks : Bytes

unfoldable pub tool_help : Arch → Option Bytes → List Bundle → List Bundle → ToolHelp
unfolding version frameworks
tool_help arch framework_version all_frameworks all_bundles = record {
  description = description;
  import = import_text;
  version = version arch framework_version;
  quit = quit;
  frameworks = frameworks all_frameworks all_bundles;
}
