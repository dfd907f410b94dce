-- ===== src/Compiler/NodeCheck.antt =====
-- `validate_node` of src-tauri/src/singbox/compiler.rs: what the compiler asks of a node.
use veyra.Base.{
  ℕ, ◌%◌, List, [], ◌∷◌, Option, none, some, Bool, true, false, ◌&&◌, ◌||◌, not, is_some,
  is_some_and, is_none_or, is_empty, all, any, contains, length, ltb, leb, nat_beq, in_range, ◌==◌,
  Result, fail_if,
}
use veyra.Base.Text.{Text, text, text_eq, starts_with, is_control}
use veyra.Domain.Types.{ProxyNode, ProxyProtocol, ProtocolOptions, TlsOptions, Transport}
use veyra.Domain.Options.{is_compatible_with, has_valid_early_data, tls_is_valid, protocol_eq}
use veyra.Compiler.Document.{CompileError}
use veyra.Compiler.Checks.{present, valid_server, valid_key, valid_uuid, valid_prefix}

abbrev pub supports_tls : ProxyProtocol → Bool
supports_tls ProxyProtocol.http = true
supports_tls ProxyProtocol.vmess = true
supports_tls ProxyProtocol.vless = true
supports_tls ProxyProtocol.trojan = true
supports_tls ProxyProtocol.hysteria = true
supports_tls ProxyProtocol.hysteria2 = true
supports_tls ProxyProtocol.tuic = true
supports_tls ProxyProtocol.shadow_tls = true
supports_tls ProxyProtocol.naive = true
supports_tls ProxyProtocol.any_tls = true
supports_tls protocol = false

abbrev pub requires_tls : ProxyProtocol → Bool
requires_tls ProxyProtocol.trojan = true
requires_tls ProxyProtocol.hysteria = true
requires_tls ProxyProtocol.hysteria2 = true
requires_tls ProxyProtocol.tuic = true
requires_tls ProxyProtocol.shadow_tls = true
requires_tls ProxyProtocol.naive = true
requires_tls ProxyProtocol.any_tls = true
requires_tls protocol = false

is_hex_digit : ℕ → Bool
is_hex_digit byte = in_range b'0' b'9' byte || in_range b'a' b'f' byte || in_range b'A' b'F' byte

-- The match on the two Reality fields.
unfoldable pub reality_is_valid : ProxyProtocol → Option Text → Option Text → Bool
unfolding is_hex_digit
reality_is_valid protocol none none = true
reality_is_valid protocol (some key) (some short_id) =
    protocol == ProxyProtocol.vless
    && valid_key key true
    && not (is_empty short_id)
    && leb (length short_id) 16
    && nat_beq (length short_id % 2) 0
    && all is_hex_digit short_id
reality_is_valid protocol (some key) none = false
reality_is_valid protocol none (some short_id) = false

unfoldable pub node_tls_is_valid : ProxyProtocol → Option TlsOptions → Bool
unfolding reality_is_valid
node_tls_is_valid protocol none = true
node_tls_is_valid protocol (some tls) =
    tls_is_valid tls
    && is_none_or tls.server_name valid_server
    && reality_is_valid protocol tls.reality_public_key tls.reality_short_id

abbrev pub carries_transport : ProxyProtocol → Bool
carries_transport ProxyProtocol.vmess = true
carries_transport ProxyProtocol.vless = true
carries_transport ProxyProtocol.trojan = true
carries_transport protocol = false

unfoldable pub transport_is_valid : ProxyProtocol → Option Transport → Bool
transport_is_valid protocol none = true
transport_is_valid protocol (some Transport.tcp) = true
transport_is_valid protocol (some (Transport.websocket path host early_data header_name)) =
    carries_transport protocol
    && has_valid_early_data (Transport.websocket path host early_data header_name)
    && starts_with path (text "/")
    && not (any is_control path)
    && is_none_or host (λ h. present h && not (any is_control h))
transport_is_valid protocol (some (Transport.grpc service_name)) =
    carries_transport protocol && present service_name

vmess_securities : List Text
vmess_securities =
    text "auto" ∷ text "none" ∷ text "zero" ∷ text "aes-128-gcm" ∷ text "chacha20-poly1305" ∷ []

abbrev positive : ℕ → Bool
positive value = ltb 0 value

-- The match on the options; `has_tls` is `node.tls.is_some()`.
unfoldable pub options_are_valid : Bool → ProtocolOptions → Bool
unfolding vmess_securities
options_are_valid has_tls (ProtocolOptions.socks version username password) =
    (nat_beq version 4 || nat_beq version 5)
    && is_none_or username present
    && is_none_or password present
options_are_valid has_tls (ProtocolOptions.http username password tls) =
    is_none_or username present && is_none_or password present
options_are_valid has_tls (ProtocolOptions.shadowsocks method password) =
    present method && present password
options_are_valid has_tls (ProtocolOptions.vmess uuid alter_id security) =
    valid_uuid uuid && is_none_or security (λ value. contains vmess_securities value)
options_are_valid has_tls (ProtocolOptions.vless uuid flow) =
    valid_uuid uuid && is_none_or flow (λ value. value == text "xtls-rprx-vision" && has_tls)
options_are_valid has_tls (ProtocolOptions.trojan password) = present password
options_are_valid has_tls (ProtocolOptions.any_tls password) = present password
options_are_valid has_tls
      (ProtocolOptions.wire_guard private_key peer_public_key pre_shared local_addresses mtu
        reserved) =
    valid_key private_key false
    && valid_key peer_public_key false
    && is_none_or pre_shared (λ key. valid_key key false)
    && not (is_empty local_addresses)
    && all valid_prefix local_addresses
options_are_valid has_tls (ProtocolOptions.hysteria auth obfs up_mbps down_mbps) =
    present auth
    && is_none_or obfs present
    && is_some_and up_mbps positive
    && is_some_and down_mbps positive
options_are_valid has_tls (ProtocolOptions.hysteria2 password obfs up_mbps down_mbps disable) =
    present password
    && is_none_or obfs present
    && is_none_or up_mbps positive
    && is_none_or down_mbps positive
options_are_valid has_tls (ProtocolOptions.tuic uuid password congestion udp_relay zero_rtt) =
    valid_uuid uuid
    && present password
    && is_none_or congestion
        (λ value. contains (text "cubic" ∷ text "new_reno" ∷ text "bbr" ∷ []) value)
    && is_none_or udp_relay (λ value. contains (text "native" ∷ text "quic" ∷ []) value)
options_are_valid has_tls (ProtocolOptions.shadow_tls version password) =
    in_range 1 3 version && present password
options_are_valid has_tls (ProtocolOptions.ssh user password private_key passphrase host_key) =
    present user
    && is_none_or password present
    && is_none_or private_key present
    && is_none_or passphrase (λ _. is_some private_key)
    && is_none_or host_key present
options_are_valid has_tls (ProtocolOptions.naive username password) =
    present username && present password
options_are_valid has_tls (ProtocolOptions.snell psk version) = present psk && nat_beq version 4

abbrev invalid_unless : Bool → Result (Unit {0}) CompileError
invalid_unless t = fail_if (not t) CompileError.invalid_node_configuration

-- Every failure is the same error, so the checks are one test.
unfoldable pub node_is_valid : ProxyNode → Bool
unfolding node_tls_is_valid transport_is_valid options_are_valid
node_is_valid node =
    (present node.id
      && valid_server node.server
      && not (nat_beq node.port 0)
      && is_compatible_with node.options node.protocol)
    && (not (is_some node.tls && not (supports_tls node.protocol))
        && not (requires_tls node.protocol && not (is_some node.tls)))
    && node_tls_is_valid node.protocol node.tls
    && transport_is_valid node.protocol node.transport
    && options_are_valid (is_some node.tls) node.options

unfoldable pub validate_node : ProxyNode → Result (Unit {0}) CompileError
unfolding node_is_valid
validate_node node = invalid_unless (node_is_valid node)
