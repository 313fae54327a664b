-- ===== src/PodCaps/Masks.antt =====
-- pkg/framework/podcaps.go: recording a set of capabilities and reading it back.
use nfs_verification.PodCaps.Sets.{CapSet}
use nfs_verification.PodCaps.Reading.{hex_value, scan_hex, parse_hex}
use nfs_verification.PodCaps.Processes.{hex_digit, hex_digits, hex, cap_masks_of, cap_set_of}
use nfs_verification.Prelude.{
  ℕ, zero, suc, ◌+◌, ◌*◌, ◌/◌, ◌%◌, ◌^◌, ◌<◌, ◌≡◌, refl, ap, ◌∙◌, false, [], ◌∷◌, some, arith,
}
use nfs_verification.Text.{Text, is_empty}

hex_value-hex_digit : (d : ℕ) → d < 16 → hex_value (hex_digit d) ≡ some d
unfolding hex_value
hex_value-hex_digit d h = ground arith

scan_hex-cons :
    (n d c : ℕ) (s : Text) → hex_value c ≡ some d → scan_hex n (c ∷ s) ≡ scan_hex (n * 16 + d) s
unfolding scan_hex
scan_hex-cons n d c s e = rw (e, scan_hex) refl

scan_hex-hex_digits :
    (k m : ℕ) (out : Text) → m < 16 ^ k → scan_hex 0 (hex_digits k m out) ≡ scan_hex m out
unfolding hex_digits
scan_hex-hex_digits zero m out h = ap (λ n. scan_hex n out) (omega arith)
scan_hex-hex_digits (suc k) m out h =
    scan_hex-hex_digits k (m / 16) (hex_digit (m % 16) ∷ out) (omega arith)
    ∙ scan_hex-cons (m / 16) (m % 16) (hex_digit (m % 16)) out
        (hex_value-hex_digit (m % 16) (omega arith))
    ∙ ap (λ n. scan_hex n out) (omega arith)

hex_digits-not_empty : (k m c : ℕ) (s : Text) → is_empty (hex_digits k m (c ∷ s)) ≡ false
unfolding hex_digits
hex_digits-not_empty zero m c s = refl
hex_digits-not_empty (suc k) m c s = hex_digits-not_empty k (m / 16) (hex_digit (m % 16)) (c ∷ s)

parse_hex-scan_hex :
    (m : ℕ) (s : Text)
    → m < 2 ^ 64
    → is_empty s ≡ false
    → scan_hex 0 s ≡ some m
    → parse_hex s ≡ some m
unfolding parse_hex
parse_hex-scan_hex m [] h e k = cc
parse_hex-scan_hex m (c ∷ s) h e k = rw k (ground arith)

parse_hex-hex : (m : ℕ) → m < 2 ^ 64 → parse_hex (hex m) ≡ some m
unfolding hex
parse_hex-hex m h =
    parse_hex-scan_hex m (hex_digits 16 m []) h
      (hex_digits-not_empty 15 (m / 16) (hex_digit (m % 16)) [])
      (scan_hex-hex_digits 16 m [] (omega arith) ∙ unfold scan_hex in refl)

-- Every mask is a `uint64`.
abbrev pub IsCapSet : CapSet → Type 0
IsCapSet c =
    (c.inheritable < 2 ^ 64)
    × (c.permitted < 2 ^ 64)
    × (c.effective < 2 ^ 64)
    × (c.bounding < 2 ^ 64)
    × (c.ambient < 2 ^ 64)

-- The recorded form of a set, 16 digits of base 16 for each mask, decodes to the set.
pub cap_set_of-cap_masks_of : (c : CapSet) → IsCapSet c → cap_set_of (cap_masks_of c) ≡ some c
unfolding cap_set_of cap_masks_of
cap_set_of-cap_masks_of c h =
    rw
      (
        parse_hex-hex c.inheritable h.0,
        parse_hex-hex c.permitted h.1,
        parse_hex-hex c.effective h.2,
        parse_hex-hex c.bounding h.3,
        parse_hex-hex c.ambient h.4,
      )
      refl
