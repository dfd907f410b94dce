-- ===== src/Compiler/Checks.antt =====
-- The checks on texts at the end of src-tauri/src/singbox/compiler.rs. The tests on bytes pass only
-- ASCII characters, so there a character stands for its byte.
use veyra.Base.{
  ◌≡◌, refl, arith, ℕ, zero, suc, ◌+◌, ◌-◌, ◌%◌, [], ◌∷◌, ◌++◌, Option, none, some, Bool, true,
  false, ◌&&◌, ◌||◌, not, leb, nat_beq, in_range, if◌then◌else◌, is_empty, is_some, is_some_and,
  all, contains, length, nat_eq, ◌==◌,
}
use veyra.Base.Text.{Text, text, text_eq, trim, byte_length, split, starts_with}
use veyra.Base.Numbers.{parse_unsigned}
use veyra.Base.Ip.{IpVersion, parse_ip}
use veyra.Routing.Input.{Url}

unfoldable pub present : Text → Bool
present value = not (is_empty (trim value)) && not (contains value 0)

abbrev pub node_prefix : Text
node_prefix = text "node-"

abbrev pub pool_prefix : Text
pool_prefix = text "pool-"

unfoldable pub node_tag : Text → Text
node_tag id = node_prefix ++ id

unfoldable pub pool_tag : Text → Text
pool_tag id = pool_prefix ++ id

-- `str::strip_prefix`
unfoldable pub strip_prefix : Text → Text → Option Text
strip_prefix s [] = some s
strip_prefix [] (p ∷ ps) = none
strip_prefix (c ∷ cs) (p ∷ ps) = if nat_beq c p then strip_prefix cs ps else none

-- `str::strip_suffix` of one character
unfoldable pub strip_suffix : Text → ℕ → Option Text
strip_suffix [] c = none
strip_suffix (d ∷ []) c = if nat_beq d c then some [] else none
strip_suffix (d ∷ e ∷ cs) c = elim (strip_suffix (e ∷ cs) c) [ some r ↦ some (d ∷ r) | none ↦ none ]

unfoldable pub valid_tag : Text → Text → Bool
valid_tag tag prefix = is_some_and (strip_prefix tag prefix) present

is_hex_digit : ℕ → Bool
is_hex_digit byte = in_range b'0' b'9' byte || in_range b'a' b'f' byte || in_range b'A' b'F' byte

unfoldable pub valid_secret : Text → Bool
unfolding is_hex_digit
valid_secret secret =
    nat_beq (length secret) 64
    && all (λ byte. is_hex_digit byte && not (in_range b'A' b'Z' byte)) secret

uuid_from : ℕ → Text → Bool
unfolding is_hex_digit
uuid_from index [] = true
uuid_from index (byte ∷ bytes) =
    (if contains (8 ∷ 13 ∷ 18 ∷ 23 ∷ []) index then nat_beq byte b'-' else is_hex_digit byte)
    && uuid_from (index + 1) bytes

unfoldable pub valid_uuid : Text → Bool
unfolding uuid_from
valid_uuid uuid = nat_beq (length uuid) 36 && uuid_from 0 uuid

sextet : Bool → ℕ → Option ℕ
sextet url_safe byte =
    if in_range b'A' b'Z' byte
    then some (byte - b'A')
    else if in_range b'a' b'z' byte
    then some (byte - b'a' + 26)
    else if in_range b'0' b'9' byte
    then some (byte - b'0' + 52)
    else if nat_beq byte (if url_safe then b'-' else b'+')
    then some 62
    else if nat_beq byte (if url_safe then b'_' else b'/')
    then some 63
    else none

get_elem? : Text → ℕ → Option ℕ
get_elem? [] i = none
get_elem? (x ∷ xs) zero = some x
get_elem? (x ∷ xs) (suc i) = get_elem? xs i

take : ℕ → Text → Text
take zero xs = []
take (suc n) [] = []
take (suc n) (x ∷ xs) = x ∷ take n xs

-- The 43 bytes that carry the key.
payload_is_valid : Bool → Text → Bool
unfolding sextet get_elem?
payload_is_valid url_safe payload =
    all (λ byte. is_some (sextet url_safe byte)) payload
    && is_some_and (get_elem? payload 42)
        (λ byte. is_some_and (sextet url_safe byte) (λ value. nat_beq (value % 4) 0))

unfoldable pub valid_key : Text → Bool → Bool
unfolding payload_is_valid take get_elem?
valid_key key url_safe =
    if url_safe && nat_beq (length key) 43
    then payload_is_valid url_safe key
    else if not url_safe
        && nat_beq (length key) 44
        && is_some_and (get_elem? key 43) (λ byte. nat_beq byte b'=')
    then payload_is_valid url_safe (take 43 key)
    else false

-- `str::split_once`
split_once : ℕ → Text → Text → Option (Text × Text)
split_once separator before [] = none
split_once separator before (c ∷ cs) =
    let later = split_once separator (before ++ (c ∷ [])) cs in
    if nat_beq c separator then some (before, cs) else later

prefix_limit : IpVersion → ℕ
prefix_limit IpVersion.v4 = 32
prefix_limit IpVersion.v6 = 128

prefix_is_valid : Option IpVersion → Option ℕ → Bool
unfolding prefix_limit
prefix_is_valid (some version) (some prefix) = leb prefix (prefix_limit version)
prefix_is_valid none prefix = false
prefix_is_valid (some version) none = false

parts_are_valid : Option (Text × Text) → Bool
unfolding prefix_is_valid
parts_are_valid none = false
parts_are_valid (some (address, prefix)) =
    prefix_is_valid (parse_ip address) (parse_unsigned 255 prefix)

unfoldable pub valid_prefix : Text → Bool
unfolding parts_are_valid split_once
valid_prefix value = parts_are_valid (split_once b'/' [] value)

ends_with : Text → ℕ → Bool
unfolding strip_suffix
ends_with s c = is_some (strip_suffix s c)

label_is_valid : Text → Bool
unfolding ends_with
label_is_valid label =
    not (is_empty label)
    && leb (byte_length label) 63
    && not (starts_with label (text "-"))
    && not (ends_with label b'-')
    && all
        (λ byte.
          in_range b'0' b'9' byte
          || in_range b'A' b'Z' byte
          || in_range b'a' b'z' byte
          || nat_beq byte b'-')
        label

abbrev unwrap_or : Option Text → Text → Text
unwrap_or none s = s
unwrap_or (some t) s = t

host_is_valid : Text → Bool
unfolding label_is_valid
host_is_valid host =
    not (is_empty host) && leb (byte_length host) 253 && all label_is_valid (split b'.' host)

unfoldable pub valid_server : Text → Bool
unfolding host_is_valid strip_suffix
valid_server server =
    is_some (parse_ip server) || host_is_valid (unwrap_or (strip_suffix server b'.') server)

-- `parse` is `reqwest::Url::parse`.
probe_is_valid : Option Url → Bool
probe_is_valid none = false
probe_is_valid (some url) =
    (url.scheme == text "http" || url.scheme == text "https") && is_some url.host_str

unfoldable pub valid_probe_url : (Text → Option Url) → Text → Bool
unfolding probe_is_valid
valid_probe_url parse value = probe_is_valid (parse value)

-- The tag of a node gives its identifier back.
pub strip_prefix-append : (p s : Text) → strip_prefix (p ++ s) p ≡ some s
unfolding strip_prefix
strip_prefix-append [] s = refl
strip_prefix-append (c ∷ p) s = ground (arith, strip_prefix-append p s)

pub strip_suffix-append : (s : Text) (c : ℕ) → strip_suffix (s ++ (c ∷ [])) c ≡ some s
unfolding strip_suffix
strip_suffix-append [] c = ground arith
strip_suffix-append (d ∷ []) c = ground (arith)
strip_suffix-append (d ∷ e ∷ s) c = rw (strip_suffix-append (e ∷ s) c) refl
