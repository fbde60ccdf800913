-- ===== src/Shell/Tests.antt =====
-- Runs of the shell's line editor on concrete keys, for user/sh.c.
use moonix.Base.{ℕ, ◌≡◌, refl, ap, List, [], ◌∷◌, arith, ◌+◌}
use moonix.Files.{same_name}
use moonix.Shell.{
  putchar, newline, prompt, sys_lsdir, sys_cddir, sys_exec, need_path, execute, key, keys,
}
use moonix.Shell.Commands.{meaning, strip, nth, Holds}
use moonix.Shell.Meaning.{execute-meaning}
use moonix.Shell.Editor.{Shows, blank_shell, blank-Shows, key-Shows, keys-Shows, answers}

-- ` cd  /etc`
abbrev cd_etc : List ℕ
cd_etc = 32 ∷ 99 ∷ 100 ∷ 32 ∷ 32 ∷ 47 ∷ 101 ∷ 116 ∷ 99 ∷ []

cd_asks : meaning 7 (strip cd_etc) ≡ sys_cddir (47 ∷ 101 ∷ 116 ∷ 99 ∷ []) 7 ∷ []
unfolding same_name
cd_asks = refl

cd_alone : meaning 7 (99 ∷ 100 ∷ []) ≡ need_path ∷ []
unfolding same_name
cd_alone = refl

-- `lsx` is the name of a program.
no_ls : meaning 7 (108 ∷ 115 ∷ 120 ∷ []) ≡ sys_exec (108 ∷ 115 ∷ 120 ∷ []) 7 ∷ []
unfolding same_name
no_ls = refl

-- `l`, `x`, the delete key, `s`, Enter.
abbrev ls_keys : List ℕ
ls_keys = 108 ∷ 120 ∷ 127 ∷ 115 ∷ 13 ∷ []

key-Shows_example :
    Shows (key 7 108 blank_shell).0 (108 ∷ []) × ((key 7 108 blank_shell).1 ≡ putchar 108 ∷ [])
key-Shows_example = key-Shows 7 108 blank_shell [] (omega arith) (λ e. omega arith) blank-Shows

keys-Shows_example :
    Shows (keys 7 ls_keys blank_shell).0 []
    × ((keys 7 ls_keys blank_shell).1 ≡ answers 7 ls_keys [])
keys-Shows_example =
    keys-Shows 7 ls_keys blank_shell []
      (
        omega arith,
        (λ e. omega arith),
        (
          omega arith,
          (λ e. omega arith),
          (
            omega arith,
            (λ e. omega arith),
            (omega arith, (λ e. omega arith), (omega arith, (λ e. omega arith), tt)),
          ),
        ),
      )
      blank-Shows

ls_runs :
    answers 7 ls_keys []
    ≡ putchar 108
      ∷ putchar 120
      ∷ putchar 8
      ∷ putchar 32
      ∷ putchar 8
      ∷ putchar 115
      ∷ newline
      ∷ sys_lsdir [] 7
      ∷ prompt
      ∷ []
unfolding same_name
ls_runs = refl

etc_line : Holds (nth cd_etc) 0 cd_etc
etc_line = record {
  ends = omega arith;
  solid = (
    omega arith,
    (
      omega arith,
      (
        omega arith,
        (
          omega arith,
          (omega arith, (omega arith, (omega arith, (omega arith, (omega arith, tt))))),
        ),
      ),
    ),
  );
  chars = λ j h. let same : 0 + j ≡ j = omega arith in ap (nth cd_etc) same;
}

execute-meaning_example : execute (nth cd_etc) 7 ≡ sys_cddir (47 ∷ 101 ∷ 116 ∷ 99 ∷ []) 7 ∷ []
unfolding same_name
execute-meaning_example = execute-meaning (nth cd_etc) 7 cd_etc etc_line (omega arith)
