-- ===== src/StringRegex/Cached.antt =====
-- The cache of compiled patterns (fscript-CLI/StringRegex.m).
use fscript_extensions.Prelude.{
  ap, Option, some, arith, inl, inr, Bytes, Option-cases, ◌≡◌, ◌∙◌, ◌≢◌,
}
use fscript_extensions.StringRegex.{Cache, get_regex}
use fscript_extensions.Regex.Matches.{FsRegex}
use fscript_extensions.Dictionary.{object_for, set_object, string_key, pointer_key}
use fscript_extensions.Dictionary.Laws.{object_for-set_object, object_for-set_other}

-- A pattern is compiled once: when a regular expression for it has been gotten, any later call gets the
-- same one and compiles nothing, and the cache gives the other patterns what it gave before.
pub get_regex-again :
    (compile other_compile : Bytes → Option FsRegex) (pattern another : Bytes) (cache later : Cache)
    (regex : FsRegex)
    → get_regex compile pattern cache ≡ some (regex, later)
    → another ≢ pattern
    → (get_regex other_compile pattern later ≡ some (regex, later))
      × (object_for another later ≡ object_for another cache)
unfolding get_regex
get_regex-again compile other_compile pattern another cache later regex e ne =
    elim (Option-cases (object_for pattern cache)) [
      | inr (r, known) ↦ (ground (arith, known, e), ground (arith, known, e))
      | inl unknown ↦ elim (Option-cases (compile pattern)) [
        | inl bad ↦ (ground (arith, unknown, bad, e), ground (arith, unknown, bad, e))
        | inr (r, made) ↦
            let same : later ≡ set_object pattern r cache = ground (arith, unknown, made, e) in
            let r_same : r ≡ regex = ground (arith, unknown, made, e) in
            (
              ground (
                arith,
                ap (object_for pattern) same ∙ object_for-set_object pattern r cache,
                r_same,
              ),
              ap (object_for another) same ∙ object_for-set_other another pattern r cache ne,
            )
      ]
    ]
