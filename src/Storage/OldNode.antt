-- ===== src/Storage/OldNode.antt =====
-- The nodes of the documents of version 2 in src-tauri/src/storage/migration.rs, whose credentials
-- become the options of their protocol.
use veyra.Base.{
  Option, none, some, ◌&&◌, ◌||◌, Result, ok, err, ◌>>=◌, ok_or, map_ok, if◌then◌else◌,
}
use veyra.Base.Text.{Text, text, text_beq, present}
use veyra.Storage.Error.{StateStoreError, invalid_stored_state}
use veyra.Storage.Json.{
  Value, null, bool, unsigned, string, object, Entries, end, entry, get, insert, remove, as_object,
}

-- `document.as_object_mut()`, with the object that the edit leaves
unfoldable pub edit_object :
    (Entries → Result Entries StateStoreError) → Value → Result Value StateStoreError
unfolding as_object
edit_object edit document = do
  o ← ok_or (as_object document) invalid_stored_state
  map_ok object (edit o)

-- A missing or null string is none; a blank string or another value is refused.
unfoldable pub optional_string : Entries → Text → Result (Option Text) StateStoreError
unfolding get
optional_string o key = elim (get key o) [
  | none ↦ ok none
  | some v ↦ elim v [
    | null ↦ ok none
    | string s ↦ if present s then ok (some s) else err invalid_stored_state
    | _ ↦ err invalid_stored_state
  ]
]

unfoldable pub required_string : Entries → Text → Result Text StateStoreError
unfolding optional_string
required_string o key = do found ← optional_string o key; ok_or found invalid_stored_state

unfoldable pub v3_protocol : Text → Result Text StateStoreError
v3_protocol protocol =
    if text_beq protocol (text "shadowsocks")
      || text_beq protocol (text "vmess")
      || text_beq protocol (text "vless")
      || text_beq protocol (text "trojan")
      || text_beq protocol (text "hysteria2")
      || text_beq protocol (text "tuic")
      || text_beq protocol (text "http")
      || text_beq protocol (text "any_tls")
    then ok protocol
    else if text_beq protocol (text "socks5")
    then ok (text "socks")
    else if text_beq protocol (text "https")
    then ok (text "http")
    else err invalid_stored_state

-- A string or null, as `json!` writes an `Option<String>`.
abbrev pub nullable : Option Text → Value
nullable none = null
nullable (some s) = string s

-- The optional strings that the old credentials hold.
pub record Credentials : Type 0 where
  pub kind : Text
  pub username : Option Text
  pub password : Option Text
  pub cipher : Option Text
  pub uuid : Option Text
  pub flow : Option Text

unfoldable pub read_credentials : Value → Result Credentials StateStoreError
unfolding as_object required_string optional_string
read_credentials credentials = do
  o ← ok_or (as_object credentials) invalid_stored_state
  kind ← required_string o (text "kind")
  username ← optional_string o (text "username")
  password ← optional_string o (text "password")
  cipher ← optional_string o (text "cipher")
  uuid ← optional_string o (text "uuid")
  flow ← optional_string o (text "flow")
  ok (record {
    kind = kind;
    username = username;
    password = password;
    cipher = cipher;
    uuid = uuid;
    flow = flow;
  })

unfoldable pub shadowsocks_options : Credentials → Result Value StateStoreError
shadowsocks_options c = do
  method ← ok_or c.cipher invalid_stored_state
  password ← ok_or c.password invalid_stored_state
  ok (
      object (
        entry (text "kind") (string (text "shadowsocks"))
          (entry (text "method") (string method) (entry (text "password") (string password) end))))

unfoldable pub vmess_options : Credentials → Result Value StateStoreError
vmess_options c = do
  uuid ← ok_or c.uuid invalid_stored_state
  ok (
      object (
        entry (text "kind") (string (text "vmess")) (
          entry (text "uuid") (string uuid)
            (entry (text "alter_id") null (entry (text "security") null end)))))

unfoldable pub vless_options : Credentials → Result Value StateStoreError
vless_options c = do
  uuid ← ok_or c.uuid invalid_stored_state
  ok (
      object (
        entry (text "kind") (string (text "vless"))
          (entry (text "uuid") (string uuid) (entry (text "flow") (nullable c.flow) end))))

-- trojan, hysteria2 and any_tls
unfoldable pub password_options : Text → Credentials → Result Value StateStoreError
password_options protocol c = do
  password ← ok_or c.password invalid_stored_state
  ok (
      object (
        entry (text "kind") (string protocol) (
          entry (text "password") (string password)
            (if text_beq protocol (text "hysteria2") then entry (text "obfs") null end else end))))

unfoldable pub socks_options : Credentials → Value
socks_options c = object (
    entry (text "kind") (string (text "socks")) (
      entry (text "version") (unsigned 5) (
        entry (text "username") (nullable c.username)
          (entry (text "password") (nullable c.password) end))))

unfoldable pub http_options : Text → Credentials → Value
http_options protocol c = object (
    entry (text "kind") (string (text "http")) (
      entry (text "username") (nullable c.username) (
        entry (text "password") (nullable c.password)
          (entry (text "tls") (bool (text_beq protocol (text "https"))) end))))

unfoldable pub v3_options_of : Text → Credentials → Result Value StateStoreError
unfolding shadowsocks_options vmess_options vless_options password_options socks_options
    http_options
v3_options_of protocol c =
    let is_password = text_beq c.kind (text "password") in
    let is_uuid = text_beq c.kind (text "uuid") in
    let is_open = text_beq c.kind (text "none") || is_password in
    if text_beq protocol (text "shadowsocks") && is_password
    then shadowsocks_options c
    else if text_beq protocol (text "vmess") && is_uuid
    then vmess_options c
    else if text_beq protocol (text "vless") && is_uuid
    then vless_options c
    else if (text_beq protocol (text "trojan")
          || text_beq protocol (text "hysteria2")
          || text_beq protocol (text "any_tls"))
        && is_password
    then password_options protocol c
    else if text_beq protocol (text "socks5") && is_open
    then ok (socks_options c)
    else if (text_beq protocol (text "http") || text_beq protocol (text "https")) && is_open
    then ok (http_options protocol c)
    else err invalid_stored_state

unfoldable pub v3_options : Text → Value → Result Value StateStoreError
unfolding read_credentials v3_options_of
v3_options protocol credentials = do c ← read_credentials credentials; v3_options_of protocol c

unfoldable pub migrate_v2_node : Value → Result Value StateStoreError
unfolding edit_object required_string v3_options v3_protocol get insert remove
migrate_v2_node = edit_object (λ o. do
  protocol ← required_string o (text "protocol")
  credentials ← ok_or (get (text "credentials") o) invalid_stored_state
  options ← v3_options protocol credentials
  renamed ← v3_protocol protocol
  ok (
      insert (text "options") options
        (insert (text "protocol") (string renamed) (remove (text "credentials") o))))
