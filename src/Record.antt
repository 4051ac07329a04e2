-- ===== src/Record.antt =====
-- src/gost_record.rs: record protection with CNT and the running IMIT. An error keeps the state
-- that the code leaves behind: `unprotect` returns the connection beside its result.
pub mod Genuine
pub mod RoundTrip
pub mod Session
pub mod Tampering
use crypto_kiddie.Prelude.{
  ℕ, ◌+◌, ◌-◌, ◌%◌, ◌^◌, bit_or, bit_xor, Bool, true, false, List, [], ◌∷◌, ◌++◌, if◌then◌else◌,
  ltb, ◌==◌, length, take, drop, replicate, be_bytes,
}
use crypto_kiddie.Keystream
use crypto_kiddie.Keystream.{CntKeystream}
use crypto_kiddie.Imit
use crypto_kiddie.Imit.{ImitContext}
use crypto_kiddie.Tls.Types.{ContentType, content_type_code, ProtocolVersion}

abbrev pub imit_tag_len : ℕ
imit_tag_len = 4

pub record DirectionState : Type 0 where
  pub cnt : CntKeystream
  pub imit : ImitContext
  pub seq_num : ℕ

unfoldable pub new_direction : List ℕ → List ℕ → List ℕ → DirectionState
new_direction mac_key enc_key iv = record {
  cnt = Keystream.new enc_key iv true;
  imit = Imit.new mac_key (replicate 8 0) true;
  seq_num = 0;
}

-- `fragment.len() as u16` keeps the low 16 bits, as `be_bytes 2` does.
unfoldable pub maced_data : ℕ → ContentType → ProtocolVersion → List ℕ → List ℕ
maced_data seq_num content_type version fragment =
    be_bytes 8 seq_num
    ++ (content_type_code content_type
        ∷ version.major
        ∷ version.minor
        ∷ (be_bytes 2 (length fragment) ++ fragment))

pub record RecordCrypto : Type 0 where
  pub write : DirectionState
  pub read : DirectionState

unfoldable pub new : List ℕ → List ℕ → List ℕ → List ℕ → List ℕ → List ℕ → RecordCrypto
unfolding new_direction
new client_mac_key client_enc_key client_iv server_mac_key server_enc_key server_iv = record {
  write = new_direction client_mac_key client_enc_key client_iv;
  read = new_direction server_mac_key server_enc_key server_iv;
}

-- The sequence number counts modulo 2 ^ 64, as a release build does.
unfoldable pub next_seq : ℕ → ℕ
next_seq n = (n + 1) % 2 ^ 64

unfoldable pub protect :
    RecordCrypto → ContentType → ProtocolVersion → List ℕ → RecordCrypto × List ℕ
unfolding next_seq
protect rc content_type version plaintext =
    let w = rc.write in
    let imit = Imit.update w.imit (maced_data w.seq_num content_type version plaintext) in
    let (cnt, out) = Keystream.apply w.cnt (plaintext ++ Imit.finalize imit) in
    (record rc { write = record { cnt = cnt; imit = imit; seq_num = next_seq w.seq_num } }, out)

pub data RecordError : Type 0 where
  short bad_mac : RecordError

pub data Unprotected : Type 0 where
  ok : List ℕ → Unprotected
  err : RecordError → Unprotected

-- The loop of `constant_time_eq` over the zipped slices.
unfoldable pub diff_of : ℕ → List ℕ → List ℕ → ℕ
diff_of diff [] ys = diff
diff_of diff (x ∷ xs) [] = diff
diff_of diff (x ∷ xs) (y ∷ ys) = diff_of (bit_or diff (bit_xor x y)) xs ys

unfoldable pub constant_time_eq : List ℕ → List ℕ → Bool
unfolding diff_of
constant_time_eq a b = if length a == length b then diff_of 0 a b == 0 else false

unfoldable pub unprotect :
    RecordCrypto → ContentType → ProtocolVersion → List ℕ → RecordCrypto × Unprotected
unfolding next_seq
unprotect rc content_type version ciphertext =
    let r = rc.read in
    let (cnt, buf) = Keystream.apply r.cnt ciphertext in
    let split = length buf - imit_tag_len in
    let received_tag = drop split buf in
    let fragment = take split buf in
    let imit = Imit.update r.imit (maced_data r.seq_num content_type version fragment) in
    if ltb (length ciphertext) imit_tag_len
    then (rc, err short)
    else (if constant_time_eq (Imit.finalize imit) received_tag
        then (
          record rc { read = record { cnt = cnt; imit = imit; seq_num = next_seq r.seq_num } },
          ok fragment,
        )
        else (
          record rc { read = record { cnt = cnt; imit = imit; seq_num = r.seq_num } },
          err bad_mac,
        ))
