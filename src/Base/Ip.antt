-- ===== src/Base/Ip.antt =====
-- `str::parse` into `IpAddr`, as the standard library reads it; only the kind of the address is kept.
use veyra.Base.{
  ◌≡◌, refl, ℕ, zero, suc, ◌+◌, ◌-◌, ◌*◌, [], ◌∷◌, Option, none, some, Bool, true, false, ◌&&◌,
  ◌||◌, leb, ltb, nat_beq, in_range, if◌then◌else◌,
}
use veyra.Base.Text.{Text}

pub data IpVersion : Type 0 where
  v4 v6 : IpVersion

-- A reader takes what it reads off the front of the text.
abbrev Reader : Type 0
Reader = Text → Option Text

infixl 5 ◌>>=◌
abbrev ◌>>=◌ : Option Text → Reader → Option Text
none >>= f = none
some s >>= f = f s

read_char : ℕ → Reader
read_char c [] = none
read_char c (d ∷ ds) = if nat_beq c d then some ds else none

-- `read_number(10, Some(3), false)` into `u8`: the digits so far, and their number.
octet_from : ℕ → ℕ → Reader
octet_from count value [] = if nat_beq count 0 then none else some []
octet_from count value (c ∷ cs) =
    let more = octet_from (count + 1) (value * 10 + (c - b'0')) cs in
    if in_range b'0' b'9' c
    then if leb (value * 10 + (c - b'0')) 255 && ltb count 3 then more else none
    else if nat_beq count 0
    then none
    else some (c ∷ cs)

-- A zero in front of another digit is refused.
read_octet : Reader
unfolding octet_from
read_octet (c ∷ d ∷ cs) =
    if nat_beq c b'0' && in_range b'0' b'9' d then none else octet_from 0 0 (c ∷ d ∷ cs)
read_octet s = octet_from 0 0 s

is_hex_digit : ℕ → Bool
is_hex_digit c = in_range b'0' b'9' c || in_range b'a' b'f' c || in_range b'A' b'F' c

-- `read_number(16, Some(4), true)` into `u16`
group_from : ℕ → Reader
unfolding is_hex_digit
group_from count [] = if nat_beq count 0 then none else some []
group_from count (c ∷ cs) =
    let more = group_from (count + 1) cs in
    if is_hex_digit c
    then if ltb count 4 then more else none
    else if nat_beq count 0
    then none
    else some (c ∷ cs)

read_ipv4 : Reader
unfolding read_octet read_char
read_ipv4 s =
    read_octet s
    >>= read_char b'.'
    >>= read_octet
    >>= read_char b'.'
    >>= read_octet
    >>= read_char b'.'
    >>= read_octet

-- `read_separator(':', index, read)`
separated : ℕ → Reader → Reader
unfolding read_char
separated index read s = if nat_beq index 0 then read s else read_char b':' s >>= read

-- The groups that are read, whether the last two are an IPv4 address, and the rest.
read_groups : ℕ → ℕ → Text → ℕ × Bool × Text
unfolding read_ipv4 group_from separated
read_groups zero index s = (index, false, s)
read_groups (suc left) index s = elim (if ltb 0 left then separated index read_ipv4 s else none) [
  | some rest ↦ (index + 2, true, rest)
  | none ↦ elim (separated index (group_from 0) s) [
    | some rest ↦ read_groups left (index + 1) rest
    | none ↦ (index, false, s)
  ]
]

read_ipv6 : Reader
unfolding read_groups read_char
read_ipv6 s =
    let (head, ipv4, rest) = read_groups 8 0 s in
    if nat_beq head 8
    then some rest
    else if ipv4
    then none
    else read_char b':' rest >>= read_char b':' >>= λ t. some ((read_groups (7 - head) 0 t).2)

-- All of the text is read.
whole : IpVersion → Text → Option IpVersion
whole version [] = some version
whole version (c ∷ cs) = none

unfoldable pub parse_ip : Text → Option IpVersion
unfolding read_ipv4 read_ipv6 whole
parse_ip s = elim (read_ipv4 s) [
  | some rest ↦ whole IpVersion.v4 rest
  | none ↦ elim (read_ipv6 s) [ some rest ↦ whole IpVersion.v6 rest | none ↦ none ]
]

reads_v4 :
    parse_ip (b'1' ∷ b'2' ∷ b'7' ∷ b'.' ∷ b'0' ∷ b'.' ∷ b'0' ∷ b'.' ∷ b'1' ∷ []) ≡ some IpVersion.v4
unfolding parse_ip
reads_v4 = refl

reads_v6 :
    parse_ip (b':' ∷ b':' ∷ b'f' ∷ b':' ∷ b'1' ∷ b'.' ∷ b'2' ∷ b'.' ∷ b'3' ∷ b'.' ∷ b'4' ∷ [])
    ≡ some IpVersion.v6
unfolding parse_ip
reads_v6 = refl

refuses_zero : parse_ip (b'0' ∷ b'1' ∷ b'.' ∷ b'0' ∷ b'.' ∷ b'0' ∷ b'.' ∷ b'1' ∷ []) ≡ none
unfolding parse_ip
refuses_zero = refl
