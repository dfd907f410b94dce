-- ===== src/Provider.antt =====
-- The nodes of a provider: src-tauri/src/subscription/normalize.rs and
-- src-tauri/src/application/provider_replacement.rs. The JSON text of a node's identity material, which
-- serde_json writes, and the store are arguments.
pub mod Normalized
pub mod Replaced
use veyra.Base.{
  ℕ, suc, zero, ◌+◌, ◌-◌, ◌*◌, ◌/◌, ◌%◌, ◌^◌, List, [], ◌∷◌, ◌++◌, Option, none, some, Bool, true,
  false, ◌||◌, not, Result, ok, err, ◌>>=◌, ◌>>◌, fail_if, map_err, is_err, if◌then◌else◌, any,
  retain, is_empty, contains, ltb, nat_beq, ◌==◌, flat_map, list_beq, decide_beq, Eq,
  decide_beq_iff, list_eq,
}
use veyra.Base.Text.{Text, text, text_eq, present}
use veyra.Domain.Types.{
  AppState, Provider, ProxyNode, ProxyProtocol, ProtocolOptions, Transport, TlsOptions, NodeId,
  ProviderId, StateValidationError, ProxyNode-discrete,
}
use veyra.Domain.State.{validate}

pub record ProxyNodeDraft : Type 0 where
  pub name : Text
  pub protocol : ProxyProtocol
  pub server : Text
  pub port : ℕ
  pub options : ProtocolOptions
  pub transport : Option Transport
  pub tls : Option TlsOptions

pub data NormalizationError : Type 0 where
  invalid_node duplicate_node_identity : NormalizationError

pub data SkippedNode : Type 0 where
  unsupported_protocol unsupported_option invalid_node : SkippedNode

-- `ParseResult`, without the format, which nothing here reads
pub record ParseResult : Type 0 where
  pub nodes : List ProxyNodeDraft
  pub skipped : List SkippedNode

-- The bytes of a text in UTF-8.
encode_char : ℕ → List ℕ
encode_char c =
    if ltb c 0x80
    then c ∷ []
    else if ltb c 0x800
    then (0xC0 + c / 0x40) ∷ (0x80 + c % 0x40) ∷ []
    else if ltb c 0x10000
    then (0xE0 + c / 0x1000) ∷ (0x80 + c / 0x40 % 0x40) ∷ (0x80 + c % 0x40) ∷ []
    else (0xF0 + c / 0x40000)
      ∷ (0x80 + c / 0x1000 % 0x40)
      ∷ (0x80 + c / 0x40 % 0x40)
      ∷ (0x80 + c % 0x40)
      ∷ []

unfoldable pub bytes : Text → List ℕ
unfolding encode_char
bytes = flat_map encode_char

-- `a ^ b` on as many bits as the fuel
unfoldable pub xor_bits : ℕ → ℕ → ℕ → ℕ
xor_bits zero a b = 0
xor_bits (suc fuel) a b =
    let rest = xor_bits fuel (a / 2) (b / 2) in
    let bit = if nat_beq (a % 2) (b % 2) then 0 else 1 in bit + 2 * rest

-- One round of the hash, on 64 bits.
unfoldable pub hash_byte : ℕ → ℕ → ℕ
hash_byte hash byte = xor_bits 64 hash byte * 0x100000001b3 % 2 ^ 64

unfoldable pub hash_bytes : ℕ → List ℕ → ℕ
unfolding hash_byte
hash_bytes hash [] = hash
hash_bytes hash (byte ∷ rest) = hash_bytes (hash_byte hash byte) rest

-- `{:016x}`: the digits of a 64-bit number, the lowest last
hex_digit : ℕ → ℕ
hex_digit n = if ltb n 10 then b'0' + n else b'a' + (n - 10)

unfoldable pub hex_digits : ℕ → ℕ → Text → Text
unfolding hex_digit
hex_digits zero n rest = rest
hex_digits (suc fuel) n rest = hex_digits fuel (n / 16) (hex_digit (n % 16) ∷ rest)

-- What identifies a node: not its name.
pub record Material : Type 0 where
  pub protocol : ProxyProtocol
  pub server : Text
  pub port : ℕ
  pub options : ProtocolOptions
  pub transport : Option Transport
  pub tls : Option TlsOptions

abbrev pub material_of : ProxyNodeDraft → Material
material_of draft = record {
  protocol = draft.protocol;
  server = draft.server;
  port = draft.port;
  options = draft.options;
  transport = draft.transport;
  tls = draft.tls;
}

module _ (serialized : Material → Text) where
  abbrev pub canonical_material : ProxyNodeDraft → Text
  canonical_material draft = serialized (material_of draft)

  unfoldable pub stable_hash : ProviderId → ProxyNodeDraft → ℕ
  stable_hash provider_id draft =
      hash_bytes 0xcbf29ce484222325 (bytes provider_id ++ bytes (canonical_material draft))

  unfoldable pub node_id : ProviderId → ProxyNodeDraft → NodeId
  node_id provider_id draft = text "node-" ++ hex_digits 16 (stable_hash provider_id draft) []

  abbrev pub node_of : ProviderId → ProxyNodeDraft → ProxyNode
  node_of provider_id draft = record {
    id = node_id provider_id draft;
    provider_id = provider_id;
    name = draft.name;
    protocol = draft.protocol;
    server = draft.server;
    port = draft.port;
    options = draft.options;
    transport = draft.transport;
    tls = draft.tls;
  }

  -- The loop, with the identifiers seen so far.
  unfoldable pub normalize_from :
      ProviderId → List NodeId → List ProxyNodeDraft → Result (List ProxyNode) NormalizationError
  normalize_from provider_id ids [] = ok []
  normalize_from provider_id ids (draft ∷ drafts) = do
    fail_if (not (present draft.name) || not (present draft.server) || nat_beq draft.port 0)
        NormalizationError.invalid_node
    fail_if (contains ids (node_id provider_id draft)) NormalizationError.duplicate_node_identity
    rest ← normalize_from provider_id (node_id provider_id draft ∷ ids) drafts
    ok (node_of provider_id draft ∷ rest)

  unfoldable pub normalize_nodes :
      ProviderId → List ProxyNodeDraft → Result (List ProxyNode) NormalizationError
  unfolding normalize_from
  normalize_nodes provider_id drafts = normalize_from provider_id [] drafts

pub data ProviderReplacementError : Type 0 where
  rejected_batch missing_provider : ProviderReplacementError
  normalize : NormalizationError → ProviderReplacementError
  state : StateValidationError → ProviderReplacementError
  store : ProviderReplacementError

instance abbrev pub node_eq : Eq ProxyNode
node_eq = record {
  beq = decide_beq ProxyNode-discrete;
  beq_iff = decide_beq_iff ProxyNode-discrete;
}

abbrev pub of_provider : ProviderId → ProxyNode → Bool
of_provider provider_id node = node.provider_id == provider_id

module _ (serialized : Material → Text) where
  -- The new state and whether the nodes changed. On an error the caller drops the state.
  unfoldable pub apply_provider_replacement :
      AppState → ProviderId → ParseResult → Result (AppState × Bool) ProviderReplacementError
  apply_provider_replacement candidate provider_id parsed = do
    fail_if (is_empty parsed.nodes || not (is_empty parsed.skipped))
        ProviderReplacementError.rejected_batch
    fail_if (not (any (λ (provider : Provider). provider.id == provider_id) candidate.providers))
        ProviderReplacementError.missing_provider
    replacement ←
        map_err (normalize_nodes serialized provider_id parsed.nodes)
          ProviderReplacementError.normalize
    let previous = retain (of_provider provider_id) candidate.nodes
    let changed = not (previous == replacement)
    let replaced : AppState = record candidate {
      nodes = retain (λ node. not (of_provider provider_id node)) candidate.nodes ++ replacement;
    }
    map_err (validate replaced) ProviderReplacementError.state
    ok (replaced, changed)

-- `ProviderReplacementService`: the store and the state in memory.
pub record Service (Disk : Type 0) : Type 0 where
  pub disk : Disk
  pub state : AppState

module _ {Disk : Type 0} (save : AppState → Disk → Result (Unit {0}) (Unit {0}) × Disk)
    (serialized : Material → Text) where
  unfoldable pub settle_replace :
      Service Disk
      → AppState
      → Result (Unit {0}) (Unit {0}) × Disk
      → Result (Unit {0}) ProviderReplacementError × Service Disk
  settle_replace s candidate (err _, disk) =
      (err ProviderReplacementError.store, record s { disk = disk })
  settle_replace s candidate (ok _, disk) = (ok tt, record { disk = disk; state = candidate })

  unfoldable pub save_candidate :
      Service Disk
      → Result (AppState × Bool) ProviderReplacementError
      → Result (Unit {0}) ProviderReplacementError × Service Disk
  unfolding settle_replace
  save_candidate s (err e) = (err e, s)
  save_candidate s (ok (candidate, changed)) = settle_replace s candidate (save candidate s.disk)

  unfoldable pub replace :
      ProviderId
      → ParseResult
      → Service Disk
      → Result (Unit {0}) ProviderReplacementError × Service Disk
  unfolding save_candidate
  replace provider_id parsed s =
      save_candidate s (apply_provider_replacement serialized s.state provider_id parsed)
