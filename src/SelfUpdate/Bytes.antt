-- ===== src/SelfUpdate/Bytes.antt =====
-- Byte slices of Go as internal/selfupdate/pe.go uses them: a slice sees `size` bytes of an array that
-- may go on behind them, and a slice may be cut up to the end of the array.
pub mod Outcomes
use dsh_work.Prelude.{
  ℕ, zero, suc, ◌+◌, ◌-◌, ◌*◌, ◌^◌, Bool, true, false, ◌&&◌, Option, none, some, List, [], ◌∷◌, ltb,
  leb, length, get_elem?, if◌then◌else◌,
}

-- Why a file is refused.
pub data Rejection : Type 0 where
  not_pe missing_dos_header invalid_offset truncated_header missing_signature truncated_optional :
      Rejection
  unsupported_optional empty_rva truncated_sections outside_file not_mapped missing_directory :
      Rejection
  no_directory outside_directory truncated_directory outside_level outside_entry truncated_version :
      Rejection
  no_fixed_info no_version unreadable : Rejection

-- A result, an error, a panic, or a loop that ran out of its rounds.
pub data Read {ℓ} (A : Type ℓ) : Type ℓ where
  got : A → Read A
  bad : Rejection → Read A
  crashed unfinished : Read A

infixl 5 ◌>>=◌ ◌>>◌
abbrev pub ◌>>=◌ {ℓ κ} : {A : Type ℓ} {B : Type κ} → Read A → (A → Read B) → Read B
got x >>= next = next x
bad why >>= next = bad why
crashed >>= next = crashed
unfinished >>= next = unfinished

abbrev pub ◌>>◌ {ℓ} : {B : Type ℓ} → Read (Unit {0}) → Read B → Read B
first >> next = first >>= λ done. next

-- Goes on if the test holds.
abbrev pub demand : Bool → Rejection → Read (Unit {0})
demand true why = got tt
demand false why = bad why

-- `if err != nil { continue }`
abbrev pub attempt {ℓ} : {A : Type ℓ} → Read A → Read (Option A)
attempt (got x) = got (some x)
attempt (bad why) = got none
attempt crashed = crashed
attempt unfinished = unfinished

pub record Slice : Type 0 where
  pub array : List ℕ
  pub size : ℕ

unfoldable pub drop_bytes : ℕ → List ℕ → List ℕ
drop_bytes zero bs = bs
drop_bytes (suc n) [] = []
drop_bytes (suc n) (b ∷ bs) = drop_bytes n bs

unfoldable pub take_bytes : ℕ → List ℕ → List ℕ
take_bytes zero bs = []
take_bytes (suc n) [] = []
take_bytes (suc n) (b ∷ bs) = b ∷ take_bytes n bs

-- The bytes that the slice sees.
unfoldable pub contents : Slice → List ℕ
unfolding take_bytes
contents s = take_bytes s.size s.array

-- `s[a:b]`
unfoldable pub cut : Slice → ℕ → ℕ → Read Slice
unfolding drop_bytes
cut s a b =
    if leb a b && leb b (length s.array)
    then got (record { array = drop_bytes a s.array; size = b - a })
    else crashed

-- `s[a:]`
unfoldable pub cut_from : Slice → ℕ → Read Slice
unfolding cut
cut_from s a = cut s a s.size

present : Option ℕ → Read ℕ
present none = crashed
present (some b) = got b

-- `s[i]`
unfoldable pub byte_at : Slice → ℕ → Read ℕ
unfolding present
byte_at s i = if ltb i s.size then present (get_elem? s.array i) else crashed

-- `binary.LittleEndian.Uint16`
unfoldable pub u16 : Slice → Read ℕ
unfolding byte_at
u16 s = do low ← byte_at s 0; high ← byte_at s 1; got (low + high * 2 ^ 8)

-- `binary.LittleEndian.Uint32`
unfoldable pub u32 : Slice → Read ℕ
unfolding byte_at
u32 s = do
  a ← byte_at s 0
  b ← byte_at s 1
  c ← byte_at s 2
  d ← byte_at s 3
  got (a + b * 2 ^ 8 + c * 2 ^ 16 + d * 2 ^ 24)

-- `binary.LittleEndian.Uint16(s[a:b])` and `Uint32(s[a:])`
unfoldable pub u16_between : Slice → ℕ → ℕ → Read ℕ
unfolding cut u16
u16_between s a b = cut s a b >>= u16

unfoldable pub u32_between : Slice → ℕ → ℕ → Read ℕ
unfolding cut u32
u32_between s a b = cut s a b >>= u32

unfoldable pub u32_from : Slice → ℕ → Read ℕ
unfolding cut_from u32
u32_from s a = cut_from s a >>= u32
