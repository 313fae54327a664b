-- ===== src/Peers/Rows.antt =====
-- pkg/framework/peers.go: an address as the kernel prints it, and the clients of a port.
use nfs_verification.Peers.{
  AddrPort, Conn, decode_hex, reverse_words, bytes, addr_of, reversed, parse_port, addr_port,
  parse_proc_addr, connected_to, unmap, peers_on, shorter_or_less, is_listener, listening_ports,
}
use nfs_verification.PodCaps.Reading.{hex_value, scan_hex, in_uint64, parse_hex}
use nfs_verification.Prelude.{
  ℕ, zero, suc, ◌+◌, ◌-◌, ◌/◌, ◌%◌, ◌*◌, ◌^◌, ◌<◌, ◌≡◌, ◌⊎◌, inl, inr, refl, ap, ◌∙◌, Bool, false,
  ◌&&◌, ◌||◌, List, [], ◌∷◌, ◌++◌, map, some, if◌then◌else◌, ltb, ◌==◌, ==_iff, arith, All, has,
  count_if, keep_if, count_if-distinct, Bool-cases,
}
use nfs_verification.Text.{Text, eq_text, cut}
use nfs_verification.Text.Equality.{eq_text_iff}

-- `%X` of one digit.
upper_digit : ℕ → ℕ
upper_digit d = if ltb d 10 then b'0' + d else b'A' + (d - 10)

-- `%02X` of each byte.
show_bytes : List ℕ → Text
unfolding upper_digit
show_bytes [] = []
show_bytes (b ∷ bs) = upper_digit (b / 16) ∷ (upper_digit (b % 16) ∷ show_bytes bs)

-- `%04X` of a port.
show_port : ℕ → Text
unfolding upper_digit
show_port p =
    upper_digit (p / 4096)
    ∷ (upper_digit (p / 256 % 16) ∷ (upper_digit (p / 16 % 16) ∷ (upper_digit (p % 16) ∷ [])))

-- The words of four bytes, each with its last byte first.
swap_words : List ℕ → List ℕ
swap_words (a ∷ (b ∷ (c ∷ (d ∷ bs)))) = d ∷ (c ∷ (b ∷ (a ∷ swap_words bs)))
swap_words bs = bs

-- A column of a socket table on a little-endian host.
pub kernel_column : AddrPort → Text
unfolding show_bytes show_port swap_words
kernel_column a = show_bytes (swap_words a.addr) ++ b':' ∷ show_port a.port

hex_value-upper_digit : (d : ℕ) → d < 16 → hex_value (upper_digit d) ≡ some d
unfolding hex_value upper_digit
hex_value-upper_digit d h = ground arith

decode_hex-show_bytes : (bs : List ℕ) → All (λ b. b < 256) bs → decode_hex (show_bytes bs) ≡ some bs
unfolding decode_hex show_bytes
decode_hex-show_bytes [] h = refl
decode_hex-show_bytes (b ∷ bs) h =
    rw
      (
        hex_value-upper_digit (b / 16) (omega (arith, h.0)),
        decode_hex,
        hex_value-upper_digit (b % 16) (omega arith),
        decode_hex-show_bytes bs h.1,
      )
      (ap (λ n. some (n ∷ bs)) (omega arith))

digit_no_colon : (d : ℕ) → (upper_digit d == b':') ≡ false
unfolding upper_digit
digit_no_colon d = ground arith

cut_colon : (t : Text) → cut b':' (b':' ∷ t) ≡ some ([], t)
unfolding cut
cut_colon t = refl

cut-push :
    (c : ℕ) (s t u : Text)
    → (c == b':') ≡ false
    → cut b':' s ≡ some (t, u)
    → cut b':' (c ∷ s) ≡ some (c ∷ t, u)
unfolding cut
cut-push c s t u h e = rw (h, e)

cut-show_bytes :
    (bs : List ℕ) (t : Text) → cut b':' (show_bytes bs ++ b':' ∷ t) ≡ some (show_bytes bs, t)
unfolding show_bytes
cut-show_bytes [] t = cut_colon t
cut-show_bytes (b ∷ bs) t =
    cut-push _ _ _ _ (digit_no_colon (b / 16))
      (cut-push _ _ _ _ (digit_no_colon (b % 16)) (cut-show_bytes bs t))

scan_digit :
    (n d : ℕ) (s : Text) → d < 16 → scan_hex n (upper_digit d ∷ s) ≡ scan_hex (n * 16 + d) s
unfolding scan_hex
scan_digit n d s h = rw (hex_value-upper_digit d h, scan_hex) refl

scan_port : (p : ℕ) → p < 2 ^ 16 → scan_hex 0 (show_port p) ≡ some p
unfolding show_port
scan_port p h =
    scan_digit 0 (p / 4096) _ (omega arith)
    ∙ scan_digit _ (p / 256 % 16) _ (omega arith)
    ∙ scan_digit _ (p / 16 % 16) _ (omega arith)
    ∙ scan_digit _ (p % 16) [] (omega arith)
    ∙ unfold scan_hex in ap some (omega arith)

in_port : (p : ℕ) → p < 2 ^ 16 → in_uint64 (some p) ≡ some p
in_port p h = ground arith

parse_shown : (p : ℕ) → parse_hex (show_port p) ≡ in_uint64 (scan_hex 0 (show_port p))
unfolding parse_hex show_port
parse_shown p = refl

parse_hex-show_port : (p : ℕ) → p < 2 ^ 16 → parse_hex (show_port p) ≡ some p
unfolding parse_hex
parse_hex-show_port p h = parse_shown p ∙ ap in_uint64 (scan_port p h) ∙ in_port p h

parse_port-show_port : (p : ℕ) → p < 2 ^ 16 → parse_port (show_port p) ≡ some p
unfolding parse_port
parse_port-show_port p h = rw (parse_hex-show_port p h, parse_port) (ground arith)

swap_bound : (bs : List ℕ) → All (λ b. b < 256) bs → All (λ b. b < 256) (swap_words bs)
unfolding swap_words
swap_bound (a ∷ (b ∷ (c ∷ (d ∷ bs)))) h =
    (h.1.1.1.0, (h.1.1.0, (h.1.0, (h.0, swap_bound bs h.1.1.1.1))))
swap_bound (a ∷ (b ∷ (c ∷ []))) h = h
swap_bound (a ∷ (b ∷ [])) h = h
swap_bound (a ∷ []) h = h
swap_bound [] h = h

reverse-swap_words :
    (k : ℕ) (bs : List ℕ) → bytes bs ≡ k * 4 → reverse_words (swap_words bs) ≡ some bs
unfolding reverse_words swap_words bytes
reverse-swap_words k [] h = refl
reverse-swap_words zero (a ∷ bs) h = absurd (omega (arith, h))
reverse-swap_words (suc k) (a ∷ (b ∷ (c ∷ (d ∷ bs)))) h =
    rw (reverse-swap_words k bs (omega (arith, h))) refl
reverse-swap_words (suc k) (a ∷ (b ∷ (c ∷ []))) h = absurd (omega (arith, h))
reverse-swap_words (suc k) (a ∷ (b ∷ [])) h = absurd (omega (arith, h))
reverse-swap_words (suc k) (a ∷ []) h = absurd (omega (arith, h))

-- An address of four or sixteen bytes and a port, of at most 16 bits.
abbrev pub IsAddrPort : AddrPort → Type 0
IsAddrPort a =
    ((bytes a.addr ≡ 4) ⊎ (bytes a.addr ≡ 16)) × All (λ b. b < 256) a.addr × (a.port < 2 ^ 16)

parse_addr :
    (k : ℕ) (bs : List ℕ)
    → bytes bs ≡ k * 4
    → (bytes bs ≡ 4) ⊎ (bytes bs ≡ 16)
    → All (λ b. b < 256) bs
    → addr_of (reversed (decode_hex (show_bytes (swap_words bs)))) ≡ some bs
unfolding addr_of reversed
parse_addr k bs e n h =
    rw (decode_hex-show_bytes (swap_words bs) (swap_bound bs h), reverse-swap_words k bs e)
      (elim n [ inl four ↦ rw four refl | inr sixteen ↦ rw sixteen refl ])

parse_columns :
    (field addr port : Text)
    → cut b':' field ≡ some (addr, port)
    → parse_proc_addr field ≡ addr_port (addr_of (reversed (decode_hex addr))) (parse_port port)
unfolding parse_proc_addr
parse_columns field addr port e = rw (e, parse_proc_addr) refl

some_addr : (a : AddrPort) → addr_port (some a.addr) (some a.port) ≡ some a
unfolding addr_port
some_addr a = refl

shown_addr :
    (a : AddrPort)
    → IsAddrPort a
    → addr_of (reversed (decode_hex (show_bytes (swap_words a.addr)))) ≡ some a.addr
shown_addr a h = elim h.0 [
  | inl four ↦ parse_addr 1 a.addr four h.0 h.1
  | inr sixteen ↦ parse_addr 4 a.addr sixteen h.0 h.1
]

-- The address and the port that the kernel prints, in words of the host's byte order, are read back.
pub parse_proc_addr-kernel_column :
    (a : AddrPort) → IsAddrPort a → parse_proc_addr (kernel_column a) ≡ some a
unfolding kernel_column
parse_proc_addr-kernel_column a h =
    parse_columns _ _ _ (cut-show_bytes (swap_words a.addr) (show_port a.port))
    ∙ ap (λ o. addr_port o (parse_port (show_port a.port))) (shown_addr a h)
    ∙ ap (addr_port (some a.addr)) (parse_port-show_port a.port h.2)
    ∙ some_addr a

pub is_client : ℕ → List ℕ → Conn → Bool
is_client port a c = connected_to port c && eq_text a (unmap c.peer.addr)

has-map-keep_if {ℓ κ} :
    {A : Type ℓ} {B : Type κ} (p : A → Bool) (f : A → B) (q : B → Bool) (xs : List A)
    → has q (map f (keep_if p xs)) ≡ has (λ x. p x && q (f x)) xs
has-map-keep_if p f q [] = refl
has-map-keep_if p f q (x ∷ xs) = elim (Bool-cases (p x)) [
  | inl e ↦ rw e (ap (◌||◌ (q (f x))) (has-map-keep_if p f q xs))
  | inr e ↦ rw e (has-map-keep_if p f q xs)
]

-- `PeersOn` lists once each address that an established connection on the port has as its other end, with
-- the mapped form of an IPv4 address dropped, and no other address.
pub count_if-peers_on :
    (conns : List Conn) (port : ℕ) (a : List ℕ)
    → count_if (eq_text a) (peers_on conns port) ≡ (if has (is_client port a) conns then 1 else 0)
unfolding peers_on is_client
count_if-peers_on conns port a =
    count_if-distinct eq_text shorter_or_less eq_text_iff a _
    ∙ ap (λ b. if b then 1 else 0) (has-map-keep_if (connected_to port) _ (eq_text a) conns)

-- `ListeningPorts` lists once each port of a listening socket, and no other.
pub count_if-listening_ports :
    (conns : List Conn) (port : ℕ)
    → count_if (λ q. port == q) (listening_ports conns)
      ≡ (if has (λ c. is_listener c && port == c.local.port) conns then 1 else 0)
unfolding listening_ports
count_if-listening_ports conns port =
    count_if-distinct (λ a b. a == b) (λ a b. ltb a b) ==_iff port _
    ∙ ap (λ b. if b then 1 else 0) (has-map-keep_if is_listener _ (λ q. port == q) conns)
