-- ===== src/SelfUpdate/Resource/Ends.antt =====
-- internal/selfupdate/pe.go: the walk over the resource directory stays within the file, and ends.
use dsh_work.Prelude.{
  ℕ, zero, suc, ◌+◌, ◌*◌, ◌^◌, ◌≤◌, ◌<◌, ◌≡◌, ◌⊎◌, Bool, true, false, not, Option, none, some, ltb,
  leb, eqb, leb→le, arith,
}
use dsh_work.SelfUpdate.Bytes.{
  Slice, got, bad, crashed, unfinished, attempt, cut, cut_from, u16_between, u32_between, u32_from,
  Rejection,
}
use dsh_work.SelfUpdate.Bytes.Outcomes.{
  Ensures, Any, AllSome, Ensures-bind, Ensures-demand, Ensures-attempt, Ensures-Any, Ensures-if,
  Roomy, Ensures-cut_wrapped, IsWhole, IsPart, IsWhole-IsPart, Ensures-cut, Ensures-cut_from,
  Ensures-u16_between, Ensures-u32_between, Ensures-u32_from,
}
use dsh_work.SelfUpdate.Image.{PeLayout, file_offset, add32}
use dsh_work.SelfUpdate.Image.Sound.{RangeFits, Ensures-file_offset}
use dsh_work.SelfUpdate.Version.{ExecutableVersion}
use dsh_work.SelfUpdate.Blocks.{version_info}
use dsh_work.SelfUpdate.Blocks.Ends.{Ensures-version_info}
use dsh_work.SelfUpdate.Resource.{
  version_resource_type, directory_entries, directory_entry_id, directory_entry, level_at,
  subdirectory, entry_at, resource_data_entry, Found, or_else, parse_at, parse_entry,
  walk_languages, walk_level, walk_names, walk_type, walk_versions, walk_entry, walk_entries,
  some_version, version_info_resource,
}

-- A level of the directory.
abbrev Level : Type 0 → Option Slice → Type 0
Level C = AllSome (IsWhole C)

-- A data entry: 16 bytes.
record IsEntry (C : Type 0) (t : Slice) : Type 0 where
  roomy : Roomy C t
  size : t.size ≡ 16

module _ (C : Type 0) where
  Ensures-directory_entries : (d : Slice) → Roomy C d → Ensures C Any (directory_entries d)
  unfolding directory_entries
  Ensures-directory_entries d r =
      Ensures-if C Any (ltb d.size 16) _ _ (λ e. tt)
        λ e.
          Ensures-bind C Any Any (u16_between d 12 14) _
            (Ensures-u16_between C d 12 14 r (omega arith) (ground arith))
            λ a i.
              Ensures-bind C Any Any (u16_between d 14 16) _
                (Ensures-u16_between C d 14 16 r (omega arith) (ground arith)) λ b j. tt

  Ensures-directory_entry_id :
      (d : Slice) (i : ℕ) → Roomy C d → Ensures C Any (directory_entry_id d i)
  unfolding directory_entry_id
  Ensures-directory_entry_id d i r =
      Ensures-demand C Any (leb (16 + i * 8 + 8) d.size) Rejection.truncated_directory _ λ e.
        Ensures-bind C Any Any (u32_from d (16 + i * 8)) _
          (Ensures-u32_from C d (16 + i * 8) r (ground arith)) λ n j. tt

  Ensures-directory_entry : (d : Slice) (i : ℕ) → Roomy C d → Ensures C Any (directory_entry d i)
  unfolding directory_entry
  Ensures-directory_entry d i r =
      Ensures-demand C Any (leb (16 + i * 8 + 8) d.size) Rejection.truncated_directory _ λ e.
        Ensures-bind C Any Any (u32_from d (16 + i * 8 + 4)) _
          (Ensures-u32_from C d (16 + i * 8 + 4) r (ground arith)) λ n j. tt

  Ensures-level_at :
      (root : Slice) (o : ℕ) (t : Bool) → Roomy C root → Ensures C (Level C) (level_at root (o, t))
  unfolding level_at
  Ensures-level_at root o t r =
      Ensures-if C (Level C) (not t) _ _ (λ e. tt)
        λ e. Ensures-demand C (Level C) (leb (o + 16) root.size) Rejection.outside_level _ λ f.
          Ensures-bind C (IsPart C root o root.size) (Level C) (cut_from root o) _
            (Ensures-cut_from C root o r (ground arith))
            λ below p. IsWhole-IsPart C root below o root.size p (omega arith)

  Ensures-subdirectory :
      (root level : Slice) (i : ℕ)
      → Roomy C root
      → Roomy C level
      → Ensures C (Level C) (subdirectory root level i)
  unfolding subdirectory
  Ensures-subdirectory root level i r q =
      Ensures-bind C Any (Level C) (directory_entry level i) _ (Ensures-directory_entry level i q)
        λ e j. Ensures-level_at root e.0 e.1 r

  Ensures-entry_at :
      (d : Slice) (o : ℕ) (t : Bool)
      → Roomy C d
      → Ensures C (AllSome (IsEntry C)) (entry_at d (o, t))
  unfolding entry_at
  Ensures-entry_at d o t r =
      Ensures-if C (AllSome (IsEntry C)) t _ _ (λ e. tt)
        λ e.
          Ensures-demand C (AllSome (IsEntry C)) (leb (o + 16) d.size) Rejection.outside_entry _
            λ f.
              Ensures-bind C (IsPart C d o (o + 16)) (AllSome (IsEntry C)) (cut d o (o + 16)) _
                (Ensures-cut C d o (o + 16) r (omega arith) (ground arith))
                λ entry p. record {
                  roomy = p.roomy (leb→le (o + 16) d.size f);
                  size = omega (arith, p.size);
                }

  Ensures-resource_data_entry :
      (d languages : Slice) (i : ℕ)
      → Roomy C d
      → Roomy C languages
      → Ensures C (AllSome (IsEntry C)) (resource_data_entry d languages i)
  unfolding resource_data_entry
  Ensures-resource_data_entry d languages i r q =
      Ensures-bind C Any (AllSome (IsEntry C)) (directory_entry languages i) _
        (Ensures-directory_entry languages i q) λ e j. Ensures-entry_at d e.0 e.1 r

  Ensures-or_else :
      (first next : Found)
      → Ensures C Any first
      → Ensures C Any next
      → Ensures C Any (or_else first next)
  unfolding or_else
  Ensures-or_else (got none) next h k = k
  Ensures-or_else (got (some v)) next h k = tt
  Ensures-or_else (bad why) next h k = tt
  Ensures-or_else crashed next h k = h
  Ensures-or_else unfinished next h k = h

  module _ (upper : ℕ → ℕ) (raw : Slice) (layout : PeLayout) (w : IsWhole C raw) where
    Ensures-parse_at :
        (o : Option ℕ) → AllSome (λ n. n ≤ raw.size) o → Ensures C Any (parse_at upper raw layout o)
    unfolding parse_at
    Ensures-parse_at none h = tt
    Ensures-parse_at (some n) h =
        Ensures-bind C (IsPart C raw n raw.size) Any (cut_from raw n) _
          (Ensures-cut_from C raw n w.roomy h)
          λ block p. Ensures-Any C (AllSome Any) (attempt (version_info upper block)) (
            Ensures-attempt C Any (version_info upper block) (
              Ensures-version_info upper C block
                (IsWhole-IsPart C raw block n raw.size p (omega arith))))

    AllSome-le :
        (size : ℕ) (o : Option ℕ) → AllSome (RangeFits raw size) o → AllSome (λ n. n ≤ raw.size) o
    AllSome-le size none h = tt
    AllSome-le size (some n) h = omega (arith, h)

    Ensures-parse_entry :
        (o : Option Slice) → AllSome (IsEntry C) o → Ensures C Any (parse_entry upper raw layout o)
    unfolding parse_entry
    Ensures-parse_entry none h = tt
    Ensures-parse_entry (some t) h =
        Ensures-bind C Any Any (u32_between t 0 4) _
          (Ensures-u32_between C t 0 4 h.roomy (omega arith) (omega (arith, h.size)))
          λ rva i.
            Ensures-bind C Any Any (u32_between t 4 8) _
              (Ensures-u32_between C t 4 8 h.roomy (omega arith) (omega (arith, h.size)))
              λ size j.
                Ensures-bind C (AllSome (RangeFits raw size)) Any
                  (attempt (file_offset layout raw rva size)) _
                  (Ensures-attempt C (RangeFits raw size) (file_offset layout raw rva size)
                    (Ensures-file_offset C layout raw rva size w.roomy))
                  λ o k. Ensures-parse_at o (AllSome-le size o k)

    Ensures-walk_languages :
        (n : ℕ) (d languages : Slice) (k : ℕ)
        → Roomy C d
        → Roomy C languages
        → Ensures C Any (walk_languages upper raw layout n d languages k)
    unfolding walk_languages
    Ensures-walk_languages zero d languages k r q = tt
    Ensures-walk_languages (suc n) d languages k r q =
        Ensures-or_else _ _
          (Ensures-bind C (AllSome (IsEntry C)) Any (resource_data_entry d languages k) _
            (Ensures-resource_data_entry d languages k r q) Ensures-parse_entry)
          (Ensures-walk_languages n d languages (k + 1) r q)

    Ensures-walk_level :
        (d : Slice) (o : Option Slice)
        → Roomy C d
        → Level C o
        → Ensures C Any (walk_level upper raw layout d o)
    unfolding walk_level
    Ensures-walk_level d none r q = tt
    Ensures-walk_level d (some languages) r q =
        Ensures-bind C Any Any (directory_entries languages) _
          (Ensures-directory_entries languages q.roomy)
          λ n i. Ensures-walk_languages n d languages 0 r q.roomy

    Ensures-walk_names :
        (n : ℕ) (d names : Slice) (j : ℕ)
        → Roomy C d
        → Roomy C names
        → Ensures C Any (walk_names upper raw layout n d names j)
    unfolding walk_names
    Ensures-walk_names zero d names j r q = tt
    Ensures-walk_names (suc n) d names j r q =
        Ensures-or_else _ _
          (Ensures-bind C (Level C) Any (subdirectory d names j) _
            (Ensures-subdirectory d names j r q) λ o l. Ensures-walk_level d o r l)
          (Ensures-walk_names n d names (j + 1) r q)

    Ensures-walk_type :
        (d : Slice) (o : Option Slice)
        → Roomy C d
        → Level C o
        → Ensures C Any (walk_type upper raw layout d o)
    unfolding walk_type
    Ensures-walk_type d none r q = tt
    Ensures-walk_type d (some names) r q =
        Ensures-bind C Any Any (directory_entries names) _ (Ensures-directory_entries names q.roomy)
          λ n i. Ensures-walk_names n d names 0 r q.roomy

    Ensures-walk_versions :
        (d : Slice) (i : ℕ) (t : Bool)
        → Roomy C d
        → Ensures C Any (walk_versions upper raw layout d i t)
    unfolding walk_versions
    Ensures-walk_versions d i false r = tt
    Ensures-walk_versions d i true r =
        Ensures-bind C (Level C) Any (subdirectory d d i) _ (Ensures-subdirectory d d i r r)
          λ o l. Ensures-walk_type d o r l

    Ensures-walk_entries :
        (n : ℕ) (d : Slice) (i : ℕ)
        → Roomy C d
        → Ensures C Any (walk_entries upper raw layout n d i)
    unfolding walk_entries walk_entry
    Ensures-walk_entries zero d i r = tt
    Ensures-walk_entries (suc n) d i r =
        Ensures-or_else _ _
          (Ensures-bind C Any Any (directory_entry_id d i) _ (Ensures-directory_entry_id d i r)
            λ id k. Ensures-walk_versions d i (eqb id version_resource_type) r)
          (Ensures-walk_entries n d (i + 1) r)

    Ensures-some_version :
        (o : Option ExecutableVersion) → Ensures C Any (some_version upper raw layout o)
    unfolding some_version
    Ensures-some_version none = tt
    Ensures-some_version (some v) = tt

    pub Ensures-version_info_resource :
        (offset size : ℕ)
        → C ⊎ (raw.size < 2 ^ 32)
        → Ensures C Any (version_info_resource upper raw layout offset size)
    unfolding version_info_resource
    Ensures-version_info_resource offset size small =
        Ensures-demand C Any (leb (offset + size) raw.size) Rejection.outside_directory _ λ e.
          Ensures-bind C (Roomy C) Any (cut raw offset (add32 offset size)) _
            (Ensures-cut_wrapped C raw offset size w.roomy (ground arith) small)
            λ d r. Ensures-demand C Any (leb 16 d.size) Rejection.truncated_directory _ λ f.
              Ensures-bind C Any Any (directory_entries d) _ (Ensures-directory_entries d r) λ n i.
                Ensures-bind C Any Any (walk_entries upper raw layout n d 0) _
                  (Ensures-walk_entries n d 0 r) λ found j. Ensures-some_version found
