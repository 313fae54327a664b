-- ===== src/Peers.antt =====
-- pkg/framework/peers.go: the socket tables of a server, and who is connected to it. An address is its 4
-- or 16 bytes, the most significant first; `netip` and `encoding/hex` are Go's.
pub mod Rows
pub mod Tables
pub mod Ports
use nfs_verification.Prelude.{
  ℕ, zero, suc, ◌+◌, ◌*◌, ◌^◌, Bool, true, false, not, ◌&&◌, ◌||◌, List, [], ◌∷◌, ◌++◌, map, Option,
  none, some, if◌then◌else◌, ltb, ◌==◌, keep_if, distinct, drop,
}
use nfs_verification.PodCaps.Reading.{hex_value, parse_hex}
use nfs_verification.Text.{
  Text, codes, eq_text, is_empty, split, fields, cut, has_prefix, trim_prefix, trim_space, to_upper,
}

-- `netip.AddrPort`.
pub record AddrPort : Type 0 where
  pub addr : List ℕ
  pub port : ℕ

-- `Conn`.
pub record Conn : Type 0 where
  pub local : AddrPort
  pub peer : AddrPort
  pub state : Text
  pub mapped : Bool
  pub inode : Text

abbrev pub tcp_established : Text
tcp_established = codes "ESTABLISHED"

abbrev pub tcp_listen : Text
tcp_listen = codes "LISTEN"

-- `tcpStates`.
abbrev pub tcp_states : List (Text × Text)
tcp_states =
    (codes "01", tcp_established)
    ∷ ((codes "02", codes "SYN_SENT")
        ∷ ((codes "03", codes "SYN_RECV")
            ∷ ((codes "04", codes "FIN_WAIT1")
                ∷ ((codes "05", codes "FIN_WAIT2")
                    ∷ ((codes "06", codes "TIME_WAIT")
                        ∷ ((codes "07", codes "CLOSE")
                            ∷ ((codes "08", codes "CLOSE_WAIT")
                                ∷ ((codes "09", codes "LAST_ACK")
                                    ∷ ((codes "0A", tcp_listen)
                                        ∷ ((codes "0B", codes "CLOSING") ∷ []))))))))))

state_in : Text → List (Text × Text) → Option Text
unfolding eq_text
state_in code [] = none
state_in code ((k, v) ∷ ss) = if eq_text code k then some v else state_in code ss

tcp_state : Text → Text
unfolding state_in to_upper
tcp_state code = elim (state_in (to_upper code) tcp_states) [
  | some s ↦ s
  | none ↦ codes "state-" ++ code
]

-- `hex.DecodeString`.
decode_hex : Text → Option (List ℕ)
decode_hex [] = some []
decode_hex (a ∷ []) = none
decode_hex (a ∷ (b ∷ s)) = elim (hex_value a) [
  | none ↦ none
  | some h ↦ elim (hex_value b) [
    | none ↦ none
    | some l ↦ elim (decode_hex s) [ none ↦ none | some bs ↦ some ((h * 16 + l) ∷ bs) ]
  ]
]

-- Every four bytes reversed; `none` where their number is not a multiple of four.
reverse_words : List ℕ → Option (List ℕ)
reverse_words [] = some []
reverse_words (a ∷ (b ∷ (c ∷ (d ∷ bs)))) = elim (reverse_words bs) [
  | none ↦ none
  | some cs ↦ some (d ∷ (c ∷ (b ∷ (a ∷ cs))))
]
reverse_words _ = none

unfoldable pub bytes : List ℕ → ℕ
bytes [] = 0
bytes (_ ∷ bs) = suc (bytes bs)

-- `netip.AddrFromSlice`.
addr_of : Option (List ℕ) → Option (List ℕ)
unfolding bytes
addr_of none = none
addr_of (some bs) = if bytes bs == 4 || bytes bs == 16 then some bs else none

reversed : Option (List ℕ) → Option (List ℕ)
unfolding reverse_words
reversed none = none
reversed (some raw) = reverse_words raw

-- `strconv.ParseUint(s, 16, 16)`.
parse_port : Text → Option ℕ
parse_port t = elim (parse_hex t) [ none ↦ none | some n ↦ if ltb n (2 ^ 16) then some n else none ]

addr_port : Option (List ℕ) → Option ℕ → Option AddrPort
addr_port (some addr) (some port) = some (record { addr = addr; port = port })
addr_port _ _ = none

-- `parseProcAddr`; `none` is an error.
pub parse_proc_addr : Text → Option AddrPort
unfolding decode_hex reversed addr_of parse_port addr_port
parse_proc_addr field = elim (cut b':' field) [
  | none ↦ none
  | some (addr, port) ↦ addr_port (addr_of (reversed (decode_hex addr))) (parse_port port)
]

-- `Addr.Is4In6`: ten bytes of 0 and two of 255 before the last four.
pub is_4in6 : List ℕ → Bool
unfolding eq_text bytes
is_4in6 bs =
    bytes bs == 16
    && has_prefix bs (0 ∷ (0 ∷ (0 ∷ (0 ∷ (0 ∷ (0 ∷ (0 ∷ (0 ∷ (0 ∷ (0 ∷ (255 ∷ (255 ∷ []))))))))))))

-- `Addr.Unmap`.
pub unmap : List ℕ → List ℕ
unfolding is_4in6
unmap bs = if is_4in6 bs then drop 12 bs else bs

nth_or_empty : ℕ → List Text → Text
nth_or_empty _ [] = []
nth_or_empty zero (t ∷ ts) = t
nth_or_empty (suc n) (t ∷ ts) = nth_or_empty n ts

conn_of : Option AddrPort → Option AddrPort → Text → Text → Option Conn
unfolding tcp_state is_4in6
conn_of (some local) (some peer) code inode = some (record {
  local = local;
  peer = peer;
  state = tcp_state code;
  mapped = is_4in6 local.addr || is_4in6 peer.addr;
  inode = inode;
})
conn_of _ _ code inode = none

-- What one line of a socket table is.
pub data Row : Type 0 where
  no_row bad_row : Row
  row : Conn → Row

row_or_bad : Option Conn → Row
row_or_bad none = bad_row
row_or_bad (some c) = row c

row_of : List Text → Row
unfolding row_or_bad conn_of nth_or_empty parse_proc_addr
row_of (index ∷ (local ∷ (peer ∷ (code ∷ rest)))) =
    if eq_text index (codes "sl")
    then no_row
    else row_or_bad
        (conn_of (parse_proc_addr local) (parse_proc_addr peer) code (nth_or_empty 5 rest))
row_of _ = no_row

pub read_row : Text → Row
unfolding row_of
read_row line = row_of (fields line)

add_row : Row → Option (List Conn) → Option (List Conn)
add_row no_row rest = rest
add_row bad_row rest = none
add_row (row c) none = none
add_row (row c) (some cs) = some (c ∷ cs)

pub rows_in : List Text → Option (List Conn)
unfolding add_row read_row
rows_in [] = some []
rows_in (l ∷ ls) = add_row (read_row l) (rows_in ls)

-- `ParseProcNetTCP`; `none` is an error.
unfoldable pub parse_proc_net_tcp : Text → Option (List Conn)
unfolding rows_in
parse_proc_net_tcp contents = rows_in (split b'\n' contents)

-- `Addr.Less`: the shorter address first, then byte by byte.
addr_less : List ℕ → List ℕ → Bool
addr_less [] [] = false
addr_less [] (_ ∷ _) = true
addr_less (_ ∷ _) [] = false
addr_less (a ∷ as_) (b ∷ bs) =
    let rest = addr_less as_ bs in if ltb a b then true else if a == b then rest else false

pub shorter_or_less : List ℕ → List ℕ → Bool
unfolding addr_less bytes
shorter_or_less a b =
    if ltb (bytes a) (bytes b) then true else if bytes a == bytes b then addr_less a b else false

pub connected_to : ℕ → Conn → Bool
connected_to port c = eq_text c.state tcp_established && c.local.port == port

-- `PeersOn`: the keys of `seen`, sorted.
pub peers_on : List Conn → ℕ → List (List ℕ)
unfolding connected_to unmap
peers_on conns port =
    distinct eq_text shorter_or_less
      (map (λ c. unmap c.peer.addr) (keep_if (connected_to port) conns))

pub is_listener : Conn → Bool
is_listener c = eq_text c.state tcp_listen

-- `ListeningPorts`.
unfoldable pub listening_ports : List Conn → List ℕ
unfolding is_listener
listening_ports conns =
    distinct (λ a b. a == b) (λ a b. ltb a b) (map (λ c. c.local.port) (keep_if is_listener conns))
