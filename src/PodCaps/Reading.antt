-- ===== src/PodCaps/Reading.antt =====
-- pkg/framework/podcaps.go: reading the status file of a process.
use nfs_verification.PodCaps.Sets.{CapSet}
use nfs_verification.Prelude.{
  ℕ, suc, ◌+◌, ◌-◌, ◌*◌, ◌^◌, ◌&&◌, List, [], ◌∷◌, Option, none, some, ltb, leb, ◌==◌,
  if◌then◌else◌,
}
use nfs_verification.Text.{Text, codes, eq_text, split, trim_space, cut}

-- A digit of base 16, either case.
unfoldable pub hex_value : ℕ → Option ℕ
hex_value c =
    if leb b'0' c && leb c b'9'
    then some (c - b'0')
    else if leb b'a' c && leb c b'f'
    then some (c - b'a' + 10)
    else if leb b'A' c && leb c b'F'
    then some (c - b'A' + 10)
    else none

-- Digits of base 16 read after the number `n`.
unfoldable pub scan_hex : ℕ → Text → Option ℕ
unfolding hex_value
scan_hex n [] = some n
scan_hex n (c ∷ s) = elim (hex_value c) [ none ↦ none | some d ↦ scan_hex (n * 16 + d) s ]

abbrev pub in_uint64 : Option ℕ → Option ℕ
in_uint64 none = none
in_uint64 (some n) = if ltb n (2 ^ 64) then some n else none

-- `strconv.ParseUint(s, 16, 64)`, with `none` for an error.
unfoldable pub parse_hex : Text → Option ℕ
unfolding scan_hex
parse_hex [] = none
parse_hex (c ∷ s) = in_uint64 (scan_hex 0 (c ∷ s))

pub data CapsError : Type 0 where
  bad_mask : Text → CapsError
  no_capability_lines : CapsError

pub data CapsResult : Type 0 where
  caps_of : CapSet → CapsResult
  caps_error : CapsError → CapsResult

abbrev pub no_caps : CapSet
no_caps = record { inheritable = 0; permitted = 0; effective = 0; bounding = 0; ambient = 0 }

-- The field that a key of the status file names.
set_cap : Text → ℕ → CapSet → Option CapSet
unfolding eq_text
set_cap key mask caps =
    if eq_text key (codes "CapInh")
    then some (record caps { inheritable = mask })
    else if eq_text key (codes "CapPrm")
    then some (record caps { permitted = mask })
    else if eq_text key (codes "CapEff")
    then some (record caps { effective = mask })
    else if eq_text key (codes "CapBnd")
    then some (record caps { bounding = mask })
    else if eq_text key (codes "CapAmb")
    then some (record caps { ambient = mask })
    else none

-- What one line of the status file does to the masks and the number found so far.
pub data Line : Type 0 where
  skip : Line
  bad : Text → Line
  takes : CapSet → Line

read_value : Text → Text → CapSet → Line
unfolding parse_hex set_cap
read_value key value caps = elim (set_cap key 0 caps) [
  | none ↦ skip
  | some _ ↦ elim (parse_hex value) [
    | none ↦ bad value
    | some mask ↦ elim (set_cap key mask caps) [ none ↦ skip | some c ↦ takes c ]
  ]
]

read_line : CapSet → Text → Line
unfolding read_value trim_space cut
read_line caps line = elim (cut b':' line) [
  | none ↦ skip
  | some (key, value) ↦ read_value (trim_space key) (trim_space value) caps
]

-- The loop of `ParseProcStatus`; `found` counts the masks read.
parse_status_lines : ℕ → CapSet → List Text → CapsResult
unfolding read_line
parse_status_lines found caps [] =
    if found == 0 then caps_error no_capability_lines else caps_of caps
parse_status_lines found caps (l ∷ ls) = elim (read_line caps l) [
  | skip ↦ parse_status_lines found caps ls
  | bad value ↦ caps_error (bad_mask value)
  | takes c ↦ parse_status_lines (suc found) c ls
]

-- `ParseProcStatus`.
unfoldable pub parse_proc_status : Text → CapsResult
unfolding parse_status_lines
parse_proc_status contents = parse_status_lines 0 no_caps (split b'\n' contents)
