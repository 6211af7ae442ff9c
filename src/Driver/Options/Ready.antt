-- ===== src/Driver/Options/Ready.antt =====
-- tests/stdriver.py: the options of the command line, as they are written, and the checks, taken together.
use cush.Prelude.{
  ◌≡◌, ◌≢◌, ◌⊎◌, refl, sym, ap, ◌∙◌, inl, inr, Bool, true, false, not, ◌&&◌, Option, none, some,
  List, [], ◌∷◌, ◌++◌, if◌then◌else◌, append_assoc, append-nil, map,
}
use cush.Prelude.Int.{pos}
use cush.Prelude.Text.{Text, codes, contains, text_eq, text_eq_iff}
use cush.Driver.Result.{Result, exit, halted, ok, ◌>>=◌}
use cush.Driver.Options.{
  Options, apply_option, apply_options, check_args, check_output_spec, configure, defaults,
}

-- The options that are handled and do not ask for help.
pub data Flag : Type 0 where
  verbose lists json milestone basic advanced : Flag
  filter long_filter base plugin spec : Text → Flag

-- The pair that `getopt` gives for an option.
abbrev pub written : Flag → Text × Text
written verbose = (codes "-v", [])
written lists = (codes "-l", [])
written json = (codes "-j", [])
written milestone = (codes "-m", [])
written basic = (codes "-b", [])
written advanced = (codes "-a", [])
written (filter a) = (codes "-t", a)
written (long_filter a) = (codes "--test", a)
written (base a) = (codes "-B", a)
written (plugin a) = (codes "-p", a)
written (spec a) = (codes "-o", a)

abbrev pub newer {ℓ} : {A : Type ℓ} → A → Option A → A
newer a none = a
newer a (some b) = b

-- The last option of a kind, or what there was before.
abbrev pub last_of {ℓ} : {A : Type ℓ} → (Flag → Option A) → A → List Flag → A
last_of kind a [] = a
last_of kind a (f ∷ flags) = last_of kind (newer a (kind f)) flags

abbrev pub is_plugin : Flag → Option Text
is_plugin (plugin a) = some a
is_plugin _ = none

abbrev pub is_spec : Flag → Option Text
is_spec (spec a) = some a
is_spec _ = none

abbrev pub is_base : Flag → Option Text
is_base (base a) = some a
is_base _ = none

abbrev pub is_filter : Flag → Option (Option Text)
is_filter (filter a) = some (some a)
is_filter (long_filter a) = some (some a)
is_filter _ = none

abbrev pub is_verbose : Flag → Option Bool
is_verbose verbose = some true
is_verbose _ = none

abbrev pub is_lists : Flag → Option Bool
is_lists lists = some true
is_lists _ = none

abbrev pub is_json : Flag → Option Bool
is_json json = some true
is_json _ = none

-- The list files that the options add, each in the directory that is set in front of it.
abbrev pub listed : Text → List Flag → List Text
listed dir [] = []
listed dir (base a ∷ flags) = listed a flags
listed dir (milestone ∷ flags) = (dir ++ codes "/" ++ codes "milestone.tst") ∷ listed dir flags
listed dir (basic ∷ flags) = (dir ++ codes "/" ++ codes "basic.tst") ∷ listed dir flags
listed dir (advanced ∷ flags) = (dir ++ codes "/" ++ codes "advanced.tst") ∷ listed dir flags
listed dir (_ ∷ flags) = listed dir flags

-- The variables behind the options.
abbrev pub chosen : Options → List Flag → Options
chosen s flags = record {
  verbose = last_of is_verbose s.verbose flags;
  output_spec_file = last_of is_spec s.output_spec_file flags;
  plugin_directory = last_of is_plugin s.plugin_directory flags;
  test_base = last_of is_base s.test_base flags;
  testfilter = last_of is_filter s.testfilter flags;
  list_tests = last_of is_lists s.list_tests flags;
  print_json = last_of is_json s.print_json flags;
  args = s.args ++ listed s.test_base flags;
}

apply_options-chosen :
    (s : Options) (flags : List Flag) → apply_options s (map written flags) ≡ ok (chosen s flags)
unfolding apply_options apply_option contains
apply_options-chosen s [] = ap (λ l. ok (record s { args = l })) (sym (append-nil s.args))
apply_options-chosen s (verbose ∷ flags) = apply_options-chosen (record s { verbose = true }) flags
apply_options-chosen s (lists ∷ flags) = apply_options-chosen (record s { list_tests = true }) flags
apply_options-chosen s (json ∷ flags) = apply_options-chosen (record s { print_json = true }) flags
apply_options-chosen s (filter a ∷ flags) =
    apply_options-chosen (record s { testfilter = some a }) flags
apply_options-chosen s (long_filter a ∷ flags) =
    apply_options-chosen (record s { testfilter = some a }) flags
apply_options-chosen s (base a ∷ flags) = apply_options-chosen (record s { test_base = a }) flags
apply_options-chosen s (plugin a ∷ flags) =
    apply_options-chosen (record s { plugin_directory = a }) flags
apply_options-chosen s (spec a ∷ flags) =
    apply_options-chosen (record s { output_spec_file = a }) flags
apply_options-chosen s (milestone ∷ flags) =
    let t : Options = record s {
      args = s.args ++ (s.test_base ++ codes "/" ++ codes "milestone.tst") ∷ [];
    } in
    let rest : apply_options t (map written flags) ≡ ok (chosen t flags) =
      apply_options-chosen t flags in
    let step : apply_options s (map written (milestone ∷ flags))
        ≡ apply_options t (map written flags) =
      refl in
    step
    ∙ rest
    ∙ ap (λ l. ok (record (chosen s flags) { args = l }))
        (append_assoc s.args ((s.test_base ++ codes "/" ++ codes "milestone.tst") ∷ [])
          (listed s.test_base flags))
apply_options-chosen s (basic ∷ flags) =
    let t : Options = record s {
      args = s.args ++ (s.test_base ++ codes "/" ++ codes "basic.tst") ∷ [];
    } in
    let rest : apply_options t (map written flags) ≡ ok (chosen t flags) =
      apply_options-chosen t flags in
    let step : apply_options s (map written (basic ∷ flags)) ≡ apply_options t (map written flags) =
      refl in
    step
    ∙ rest
    ∙ ap (λ l. ok (record (chosen s flags) { args = l }))
        (append_assoc s.args ((s.test_base ++ codes "/" ++ codes "basic.tst") ∷ [])
          (listed s.test_base flags))
apply_options-chosen s (advanced ∷ flags) =
    let t : Options = record s {
      args = s.args ++ (s.test_base ++ codes "/" ++ codes "advanced.tst") ∷ [];
    } in
    let rest : apply_options t (map written flags) ≡ ok (chosen t flags) =
      apply_options-chosen t flags in
    let step : apply_options s (map written (advanced ∷ flags))
        ≡ apply_options t (map written flags) =
      refl in
    step
    ∙ rest
    ∙ ap (λ l. ok (record (chosen s flags) { args = l }))
        (append_assoc s.args ((s.test_base ++ codes "/" ++ codes "advanced.tst") ∷ [])
          (listed s.test_base flags))

module _ (readable : Text → Bool) (script_dir : Text) where
  -- The plugin directory is none or readable, the output specification is readable, and there is a list.
  abbrev pub IsUsable : Options → Type 0
  IsUsable s =
      ((s.plugin_directory ≡ []) ⊎ (readable s.plugin_directory ≡ true))
      × (readable s.output_spec_file ≡ true)
      × (s.args ≢ [])

  -- What the checks make of the options.
  abbrev pub Checked : Options → Result Options → Type 0
  Checked s (ok t) =
      IsUsable s × (t ≡ record s { plugin_directory = codes " -p " ++ s.plugin_directory })
  Checked s (halted h) = ¬ IsUsable s × (h ≡ exit (pos 1))

  abbrev plugged : Options → Options
  plugged s = record s { plugin_directory = codes " -p " ++ s.plugin_directory }

  abbrev PluginUsable : Options → Type 0
  PluginUsable s = (s.plugin_directory ≡ []) ⊎ (readable s.plugin_directory ≡ true)

  check_args-Checked :
      (s : Options) (l : List Text)
      → s.args ≡ l
      → PluginUsable s
      → readable s.output_spec_file ≡ true
      → Checked s (check_args readable (plugged s) l)
  check_args-Checked s [] k u g = (λ (x, y, n). n k, refl)
  check_args-Checked s (a ∷ l) k u g = ((u, g, λ n. cc), refl)

  spec-Checked :
      (s : Options) (o : Bool)
      → readable s.output_spec_file ≡ o
      → PluginUsable s
      → Checked s (do
        s2 ← if not o then halted (exit (pos 1)) else ok (plugged s)
        check_args readable s2 s2.args)
  spec-Checked s true g u = check_args-Checked s s.args refl u g
  spec-Checked s false g u = (λ (x, y, n). cc, refl)

  plugin-Checked :
      (s : Options) (b p : Bool)
      → text_eq s.plugin_directory [] ≡ b
      → readable s.plugin_directory ≡ p
      → Checked s (do
        s1 ← if not b && not p then halted (exit (pos 1)) else ok (plugged s)
        s2 ← check_output_spec readable s1
        check_args readable s2 s2.args)
  plugin-Checked s true p e f =
      spec-Checked s (readable s.output_spec_file) refl
        (inl ((text_eq_iff s.plugin_directory []).0 e))
  plugin-Checked s false true e f = spec-Checked s (readable s.output_spec_file) refl (inr f)
  plugin-Checked s false false e f = (unusable, refl)
    where
      unusable : IsUsable s → ⊥
      unusable (inl x, y, n) =
          let same : text_eq s.plugin_directory [] ≡ true =
            (text_eq_iff s.plugin_directory []).1 x in
          absurd cc
      unusable (inr x, y, n) = absurd cc

  -- With any options that are handled and do not ask for help, and any list files behind them: the script gets as far
  -- as reading lists exactly if the last plugin directory is none or readable, the last output specification (or the
  -- default one) is readable, and an option or an argument names a list; otherwise it exits with 1. Its variables are
  -- then those of the last options of each kind, its lists the arguments and those of the options, each in the test
  -- base that was set in front of it, and the plugin directory has become the argument " -p ...".
  pub configure-Checked :
      (flags : List Flag) (args : List Text)
      → Checked
          (chosen (defaults script_dir args) flags)
          (configure readable script_dir (map written flags) args)
  unfolding configure
  configure-Checked flags args =
      let s = chosen (defaults script_dir args) flags in
      rw (apply_options-chosen (defaults script_dir args) flags)
        (plugin-Checked s (text_eq s.plugin_directory []) (readable s.plugin_directory) refl refl)
