-- ===== src/Workspace/Examples.antt =====
-- Instances of the theorems of internal/workspacecontext at concrete inputs.
use dsh_work.Prelude.{
  Bool-cases, inl, inr, if◌then◌else◌, String, ◌≡◌, ◌==◌, refl, some, true, false,
}
use dsh_work.Prelude.Space.{trim_space}
use dsh_work.Workspace.{
  FileSystem, Context, Request, selected, ok, resolve, new_selected, canonical_directory,
  validate_for_generation,
}
use dsh_work.Workspace.Validation.{Documented, resolve-IsValid}

-- A system whose only directory is /work, which every link leads to.
abbrev one_directory : FileSystem
one_directory = record {
  is_abs = λ p. true;
  abs = λ p. some (if p == "" then "." else p);
  eval_symlinks = λ p. some "/work";
  stat_is_dir = λ p. some (p == "/work");
  clean = λ p. if p == "" then "." else p;
  base = λ p. "work";
}

links-work : (q : String) → some "/work" ≡ some q → q ≡ "/work"
links-work q e = cc

dotted-filled : (p : String) → ((if p == "" then "." else p) == "") ≡ false
dotted-filled p = elim (Bool-cases (p == "")) [ inl h ↦ rw h refl | inr h ↦ rw h h ]

one_directory-Documented : Documented one_directory
one_directory-Documented = record {
  abs-clean = λ p h. refl;
  abs_absolute = λ p q e. refl;
  links_absolute = λ p q h e. refl;
  links_clean = λ p q e. rw (links-work q e) refl;
  links_gone = λ p q e. e;
  clean_filled = dotted-filled;
  base_filled = λ p. refl;
}

abbrev asked : Request
asked = record { id = " w1 "; path = "/home/link"; title = "" }

abbrev found : Context
found = record { generation_id = "g1"; state = selected; id = "w1"; path = "/work"; title = "work" }

asked-resolve : resolve one_directory false "g1" asked ≡ ok found
unfolding resolve new_selected canonical_directory trim_space
asked-resolve = refl

work-trimmed : trim_space "/work" ≡ "/work"
unfolding trim_space
work-trimmed = refl

resolve-IsValid_example : validate_for_generation one_directory found "g1" ≡ ok tt
unfolding trim_space
resolve-IsValid_example =
    resolve-IsValid one_directory one_directory-Documented false "g1" asked found asked-resolve
      work-trimmed refl
