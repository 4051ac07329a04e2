-- ===== src/Tls/Wire.antt =====
-- src/tls.rs: the writer and the reader, records and the parsers of single messages.
use crypto_kiddie.Prelude.{
  ℕ, zero, suc, List, [], ◌∷◌, ◌++◌, flatten, map, if◌then◌else◌, ltb, leb, Option, none, some,
  length, take, drop, get_or, be_bytes, be_value, Result, ok, err, and_then,
}
use crypto_kiddie.Tls.Types.{
  ContentType, content_type_code, ProtocolVersion, tls1_2, client_hello, handshake_type_code,
}

-- The messages of `CliError`, as constructors.
pub data TlsError : Type 0 where
  truncated : ℕ → ℕ → TlsError
  short_alert : TlsError
  read_record_header read_record_body no_server_hello : TlsError
  unknown_content_type : ℕ → TlsError
  alert_received : ℕ → ℕ → TlsError
  unexpected_record : ContentType → TlsError

abbrev pub gost_default_list : List ℕ
gost_default_list = 0xC100 ∷ 0xC101 ∷ 0xC102 ∷ 0xFF85 ∷ 0x0081 ∷ []

-- `Writer::with_len`: the body behind its length, whose low `len_bytes` bytes are kept.
unfoldable pub with_len : ℕ → List ℕ → List ℕ
with_len len_bytes body = be_bytes len_bytes (length body) ++ body

-- A reader is what is left to read, `&buf[pos..]`; `remaining` is its length.
unfoldable pub read_bytes : ℕ → List ℕ → Result TlsError (List ℕ × List ℕ)
read_bytes n r = if ltb (length r) n then err (truncated n (length r)) else ok (take n r, drop n r)

-- `u8`, `u16` and `u24`: a number of 1, 2 or 3 bytes.
unfoldable pub read_number : ℕ → List ℕ → Result TlsError (ℕ × List ℕ)
unfolding read_bytes
read_number width r = and_then (read_bytes width r) (λ got. ok (be_value got.0, got.1))

-- `Reader::vec`
unfoldable pub read_vec : ℕ → List ℕ → Result TlsError (List ℕ × List ℕ)
unfolding read_number read_bytes
read_vec len_bytes r = and_then (read_number len_bytes r) (λ len. read_bytes len.0 len.1)

pub record TlsRecord : Type 0 where
  pub content_type : ContentType
  pub version : ProtocolVersion
  pub payload : List ℕ

unfoldable pub encode_record : ContentType → ProtocolVersion → List ℕ → List ℕ
encode_record content_type version payload =
    content_type_code content_type
    ∷ version.major
    ∷ version.minor
    ∷ (be_bytes 2 (length payload) ++ payload)

pub record ServerHello : Type 0 where
  pub server_version : ProtocolVersion
  pub random : List ℕ
  pub session_id : List ℕ
  pub cipher_suite : ℕ
  pub compression_method : ℕ
  pub extensions : List ℕ

-- The extensions are read where at least two bytes are left.
unfoldable pub read_extensions : List ℕ → Result TlsError (List ℕ × List ℕ)
unfolding read_vec
read_extensions r = if leb 2 (length r) then read_vec 2 r else ok ([], r)

unfoldable pub parse_server_hello : List ℕ → Result TlsError ServerHello
unfolding read_number read_bytes read_vec read_extensions
parse_server_hello body = and_then (read_number 1 body) (λ major.
    and_then (read_number 1 major.1) (λ minor. and_then (read_bytes 32 minor.1) (λ random.
      and_then (read_vec 1 random.1) (λ session_id. and_then (read_number 2 session_id.1) (λ suite.
        and_then (read_number 1 suite.1) (λ method.
          and_then (read_extensions method.1) (λ extensions. ok (record {
            server_version = record { major = major.0; minor = minor.0 };
            random = random.0;
            session_id = session_id.0;
            cipher_suite = suite.0;
            compression_method = method.0;
            extensions = extensions.0;
          }))))))))

-- The loop of `CertificateMessage::parse`; a round reads at least three bytes.
unfoldable pub certificate_entries : ℕ → List ℕ → Result TlsError (List (List ℕ))
unfolding read_vec
certificate_entries zero r = ok []
certificate_entries (suc rounds) [] = ok []
certificate_entries (suc rounds) (x ∷ xs) =
    and_then (read_vec 3 (x ∷ xs))
      (λ cert. and_then (certificate_entries rounds cert.1) (λ rest. ok (cert.0 ∷ rest)))

unfoldable pub parse_certificates : List ℕ → Result TlsError (List (List ℕ))
unfolding read_vec certificate_entries
parse_certificates body =
    and_then (read_vec 3 body) (λ list. certificate_entries (length list.0) list.0)

pub record Alert : Type 0 where
  pub level : ℕ
  pub description : ℕ

unfoldable pub parse_alert : List ℕ → Result TlsError Alert
parse_alert payload =
    if ltb (length payload) 2
    then err short_alert
    else ok (record { level = get_or payload 0 0; description = get_or payload 1 0 })

pub record ClientHello : Type 0 where
  pub random : List ℕ
  pub session_id : List ℕ
  pub cipher_suites : List ℕ
  pub server_name : Option (List ℕ)

unfoldable pub new_gost_hello : List ℕ → List ℕ → ClientHello
new_gost_hello server_name random = record {
  random = random;
  session_id = [];
  cipher_suites = gost_default_list;
  server_name = some server_name;
}

unfoldable pub encode_sni : List ℕ → List ℕ
unfolding with_len
encode_sni host = be_bytes 2 0 ++ with_len 2 (with_len 2 (0 ∷ with_len 2 host))

abbrev pub sni_of : Option (List ℕ) → List ℕ
sni_of none = []
sni_of (some host) = encode_sni host

unfoldable pub encode_client_hello : ClientHello → List ℕ
unfolding with_len encode_sni
encode_client_hello hello =
    let body =
      tls1_2.major
      ∷ tls1_2.minor
      ∷ (hello.random
          ++ (with_len 1 hello.session_id
              ++ (with_len 2 (flatten (map (be_bytes 2) hello.cipher_suites))
                  ++ (with_len 1 (0 ∷ []) ++ with_len 2 (sni_of hello.server_name))))) in
    handshake_type_code client_hello ∷ with_len 3 body
