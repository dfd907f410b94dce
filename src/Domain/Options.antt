-- ===== src/Domain/Options.antt =====
-- The checks of protocol options, transports and TLS options in src-tauri/src/domain/state.rs.
use veyra.Base.{
  bool_beq, ℕ, List, [], ◌∷◌, Bool, true, false, ◌&&◌, ◌||◌, not, ltb, leb, nat_beq, in_range, all,
  contains, nat_eq, is_empty, is_some, is_some_and, is_none_or, length, Eq, decide_beq,
  decide_beq_iff,
}
use veyra.Base.Text.{Text, text, text_eq, present}
use veyra.Domain.Types.{
  ProxyProtocol, ProtocolOptions, Transport, TlsOptions, PoolKind, ProxyProtocol-discrete,
  PoolKind-discrete,
}

instance abbrev pub protocol_eq : Eq ProxyProtocol
protocol_eq = record {
  beq = decide_beq ProxyProtocol-discrete;
  beq_iff = decide_beq_iff ProxyProtocol-discrete;
}

instance abbrev pub pool_kind_eq : Eq PoolKind
pool_kind_eq = record {
  beq = decide_beq PoolKind-discrete;
  beq_iff = decide_beq_iff PoolKind-discrete;
}

-- `has_required_values`
unfoldable pub has_required_values : ProtocolOptions → Bool
unfolding bool_beq
has_required_values (ProtocolOptions.socks version username password) =
    is_none_or username present
    && is_none_or password present
    && bool_beq (is_some username) (is_some password)
has_required_values (ProtocolOptions.http username password tls) =
    is_none_or username present
    && is_none_or password present
    && bool_beq (is_some username) (is_some password)
has_required_values (ProtocolOptions.shadowsocks method password) =
    present method && present password
has_required_values (ProtocolOptions.vmess uuid alter_id security) = present uuid
has_required_values (ProtocolOptions.vless uuid flow) = present uuid
has_required_values (ProtocolOptions.trojan password) = present password
has_required_values (ProtocolOptions.any_tls password) = present password
has_required_values (ProtocolOptions.shadow_tls version password) = present password
has_required_values (ProtocolOptions.hysteria2 password obfs up_mbps down_mbps disable) =
    present password
    && is_none_or obfs present
    && is_none_or up_mbps (λ value. ltb 0 value)
    && is_none_or down_mbps (λ value. ltb 0 value)
has_required_values
      (ProtocolOptions.wire_guard private_key peer_public_key pre_shared local_addresses mtu
        reserved) =
    present private_key
    && present peer_public_key
    && not (is_empty local_addresses)
    && all present local_addresses
has_required_values (ProtocolOptions.hysteria auth obfs up_mbps down_mbps) = present auth
has_required_values (ProtocolOptions.tuic uuid password congestion udp_relay zero_rtt) =
    present uuid && present password
has_required_values (ProtocolOptions.ssh user password private_key passphrase host_key) =
    present user && (is_some_and password present || is_some_and private_key present)
has_required_values (ProtocolOptions.naive username password) = present username && present password
has_required_values (ProtocolOptions.snell psk version) = present psk && in_range 1 5 version

-- The pairs of the `matches!` in `is_compatible_with`.
unfoldable pub variant_matches : ProxyProtocol → ProtocolOptions → Bool
variant_matches ProxyProtocol.socks (ProtocolOptions.socks version u p) =
    nat_beq version 4 || nat_beq version 5
variant_matches ProxyProtocol.http (ProtocolOptions.http u p t) = true
variant_matches ProxyProtocol.shadowsocks (ProtocolOptions.shadowsocks m p) = true
variant_matches ProxyProtocol.vmess (ProtocolOptions.vmess u a s) = true
variant_matches ProxyProtocol.vless (ProtocolOptions.vless u f) = true
variant_matches ProxyProtocol.trojan (ProtocolOptions.trojan p) = true
variant_matches ProxyProtocol.wire_guard (ProtocolOptions.wire_guard a b c d e f) = true
variant_matches ProxyProtocol.hysteria (ProtocolOptions.hysteria a b c d) = true
variant_matches ProxyProtocol.hysteria2 (ProtocolOptions.hysteria2 a b c d e) = true
variant_matches ProxyProtocol.tuic (ProtocolOptions.tuic a b c d e) = true
variant_matches ProxyProtocol.shadow_tls (ProtocolOptions.shadow_tls v p) = true
variant_matches ProxyProtocol.ssh (ProtocolOptions.ssh a b c d e) = true
variant_matches ProxyProtocol.naive (ProtocolOptions.naive u p) = true
variant_matches ProxyProtocol.any_tls (ProtocolOptions.any_tls p) = true
variant_matches ProxyProtocol.snell (ProtocolOptions.snell p v) = true
variant_matches protocol options = false

unfoldable pub is_compatible_with : ProtocolOptions → ProxyProtocol → Bool
is_compatible_with options protocol =
    variant_matches protocol options && has_required_values options

-- A byte of an HTTP token: `is_ascii_alphanumeric` or one of the listed signs.
is_token_byte : ℕ → Bool
is_token_byte byte =
    in_range b'0' b'9' byte
    || in_range b'A' b'Z' byte
    || in_range b'a' b'z' byte
    || contains (text "!#$%&'*+-.^_`|~") byte

-- `has_valid_early_data`. A scalar value above 127 stands for bytes that are no token bytes, so the
-- test on characters is the test on bytes.
unfoldable pub has_valid_early_data : Transport → Bool
unfolding is_token_byte
has_valid_early_data (Transport.websocket path host max_early_data header_name) =
    is_none_or max_early_data (λ value. ltb 0 value)
    && is_none_or header_name (λ name.
      is_some_and max_early_data (λ value. ltb 0 value)
      && not (is_empty name)
      && all is_token_byte name)
has_valid_early_data transport = true

-- `values.iter().collect::<HashSet<_>>().len() == values.len()`
unfoldable pub all_distinct {ℓ} : {A : Type ℓ} ⦃e : Eq A⦄ → List A → Bool
all_distinct [] = true
all_distinct (x ∷ xs) = not (contains xs x) && all_distinct xs

is_visible_byte : ℕ → Bool
is_visible_byte byte = in_range 0x21 0x7E byte

utls_fingerprints : List Text
utls_fingerprints =
    text "chrome"
    ∷ text "firefox"
    ∷ text "edge"
    ∷ text "safari"
    ∷ text "360"
    ∷ text "qq"
    ∷ text "ios"
    ∷ text "android"
    ∷ text "random"
    ∷ text "randomized"
    ∷ []

-- `TlsOptions::is_valid`; the bytes 0x21 to 0x7E are whole characters.
unfoldable pub tls_is_valid : TlsOptions → Bool
unfolding is_visible_byte utls_fingerprints
tls_is_valid tls =
    leb (length tls.alpn) 16
    && all (λ protocol. in_range 1 255 (length protocol) && all is_visible_byte protocol) tls.alpn
    && all_distinct tls.alpn
    && is_none_or tls.utls_fingerprint (λ fingerprint. contains utls_fingerprints fingerprint)
