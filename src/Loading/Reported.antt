-- ===== src/Loading/Reported.antt =====
-- The error that `loadFile` of fscript-CLI/Functions.m reports.
use fscript_extensions.Prelude.{
  ℕ, suc, sym, ap, Bool, not, some, arith, inl, inr, length, drop, Bytes, Bool-cases, length-append,
  [], ◌∷◌, ◌+◌, ◌-◌, ◌≤◌, ◌≡◌, ◌∙◌, ◌&&◌,
}
use fscript_extensions.Loading.Place.{
  Ends, drop-behind, error_place-place, newline-cases, place, place-behind,
}
use fscript_extensions.Loading.{
  ExecutionResult, FileSystem, chop_shebang, error_place, execution_error, get_file_mod_time,
  has_shebang, load_file, run_script, script_error,
}
use fscript_extensions.Trampoline.Ppc.Dispatch.{found}

-- The script is the end of the file, and its places are those of the file.
chop-place :
    (as_library : Bool) (contents script : Bytes) (cut location : ℕ)
    → chop_shebang as_library contents ≡ some (script, cut)
    → place contents (length contents - length script + location) 1 1
      ≡ place script location (suc cut) 1
unfolding chop_shebang
chop-place as_library contents script cut location e =
    elim (Bool-cases (not as_library && has_shebang contents)) [
      | inr plain ↦
          let same : contents ≡ script = ground (arith, plain, e) in
          let no_cut : cut ≡ 0 = ground (arith, plain, e) in
          rw (no_cut, ← same)
            (ap (λ k. place contents k 1 1) {x = length contents - length contents + location}
              {y = location} (omega arith))
      | inl shebang ↦ elim (newline-cases contents) [
        | inl (nothing, _) ↦ absurd (ground (arith, shebang, nothing, e))
        | inr (before, after, found, clean, parts) ↦
            let rest : drop (length before + 1) contents ≡ script =
              ground (arith, shebang, found, e) in
            let one : cut ≡ 1 = ground (arith, shebang, found, e) in
            let end_of : script ≡ after =
              sym rest
              ∙ ap (λ r. drop (length before + 1) r) parts
              ∙ drop-behind before after b'\n' in
            let count : length contents - length script + location ≡ length before + suc location =
              omega
                (arith, ap length parts, length-append before (b'\n' ∷ after), ap length end_of) in
            rw one (
              ap (λ r. place r (length contents - length script + location) 1 1) parts
              ∙ place-behind before after (length contents - length script + location) location 1 1
                  clean count
              ∙ ap (λ r. place r location 2 1) (sym end_of))
      ]
    ]

module _ {W : Type 0} (lp64 : Bool) (fs : FileSystem) (execute : Bytes → W → ExecutionResult × W)
    (path contents script : Bytes) (as_library : Bool) (world : W) (date cut location : ℕ)
    (message : Bytes) where
  run_script-error :
      (execute script world).0 ≡ execution_error location message
      → error_place lp64 script location cut ≡ some (place script location (suc cut) 1)
      → run_script lp64 execute script cut world ≡ (
        script_error
            (place script location (suc cut) 1).0
            (place script location (suc cut) 1).1
            message,
        (execute script world).1,
      )
  unfolding run_script
  run_script-error e p = ground (arith, e, p)

  load_file-run :
      get_file_mod_time fs path ≡ some date
      → chop_shebang as_library contents ≡ some (script, cut)
      → load_file lp64 fs execute [] (some contents) path as_library world
        ≡ run_script lp64 execute script cut world
  unfolding load_file
  load_file-run d c = ground (arith, d, c)

  -- A script that fails is reported at the line and the character where its error stands in the file,
  -- also where the first line was cut off as a shebang, if the file's attributes can be read, the error's
  -- location lies in the script, and the counting of lines ends.
  pub load_file-error :
      get_file_mod_time fs path ≡ some date
      → chop_shebang as_library contents ≡ some (script, cut)
      → (execute script world).0 ≡ execution_error location message
      → location ≤ length script
      → Ends lp64 script location
      → let at = place contents (length contents - length script + location) 1 1 in
        load_file lp64 fs execute [] (some contents) path as_library world
        ≡ (script_error at.0 at.1 message, (execute script world).1)
  load_file-error d c e inside ends =
      load_file-run d c
      ∙ run_script-error e (error_place-place lp64 script location cut inside ends)
      ∙ ap (λ (at : ℕ × ℕ). (script_error at.0 at.1 message, (execute script world).1))
          (sym (chop-place as_library contents script cut location c))
