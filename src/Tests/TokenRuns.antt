-- ===== src/Tests/TokenRuns.antt =====
-- A token that asks for a logout first, and a file with a certificate in it.
use crypto_kiddie.Prelude.{
  ◌++◌, arith, IsBytes, ℕ, suc, ◌+◌, ◌≤◌, ◌≡◌, refl, List, [], ◌∷◌, some, Result, ok, replicate,
  if◌then◌else◌, ◌==◌,
}
use crypto_kiddie.Card.Apdu.{CommandApdu, ResponseApdu}
use crypto_kiddie.Card.Rutoken.{select_master_file}
use crypto_kiddie.Card.Token.{
  gost3411_2012_256, Token, sign_digest_direct, extract_first_der_certificate,
}
use crypto_kiddie.Card.Token.Pin.{presented}
use crypto_kiddie.Card.Token.Signing.{sign_digest_direct_le}
use crypto_kiddie.Der.{der_tlv}
use crypto_kiddie.Card.Token.Search.{extract_first_der_certificate-der_tlv}
use crypto_kiddie.Card.Token.Extraction.{Found, extract_first_der_certificate-Found}

-- The second command, which is the first VERIFY, is answered by 6F86.
abbrev answer : ℕ → CommandApdu → Result Unit ResponseApdu × ℕ
answer n apdu = (
  ok (
      if n == 1 then record { payload = []; sw1 = 0x6F; sw2 = 0x86 } else record {
        payload = if apdu.ins == 0x2A then replicate 64 5 else [];
        sw1 = 0x90;
        sw2 = 0x00;
      }),
  suc n,
)

abbrev fresh : Token answer
fresh = record { state = 0; log = [] }

twice :
    presented
      (sign_digest_direct answer 3 (some (49 ∷ 50 ∷ [])) gost3411_2012_256 (1 ∷ 2 ∷ []) fresh).1.log
    ≡ 2
unfolding sign_digest_direct select_master_file
twice = refl

signed_run :
    (sign_digest_direct answer 3 (some (49 ∷ 50 ∷ [])) gost3411_2012_256 (1 ∷ 2 ∷ []) fresh).0
    ≡ ok (replicate 64 5)
unfolding sign_digest_direct
signed_run = refl

sign_digest_direct_le_example :
    presented
      (sign_digest_direct answer 3 (some (49 ∷ 50 ∷ [])) gost3411_2012_256 (1 ∷ 2 ∷ []) fresh).1.log
    ≤ 2 + 0
sign_digest_direct_le_example =
    sign_digest_direct_le answer 3 (some (49 ∷ 50 ∷ [])) gost3411_2012_256 (1 ∷ 2 ∷ []) fresh

abbrev file : List ℕ
file = 7 ∷ 0x30 ∷ 0x30 ∷ 2 ∷ 8 ∷ 9 ∷ 1 ∷ []

file-IsBytes : IsBytes file
file-IsBytes = omega arith

cut : extract_first_der_certificate file ≡ some (0x30 ∷ 2 ∷ 8 ∷ 9 ∷ [])
unfolding extract_first_der_certificate
cut = refl

extract_first_der_certificate-Found_example : Found file (0x30 ∷ 2 ∷ 8 ∷ 9 ∷ [])
extract_first_der_certificate-Found_example =
    extract_first_der_certificate-Found file (0x30 ∷ 2 ∷ 8 ∷ 9 ∷ []) file-IsBytes cut

extract_first_der_certificate-der_tlv_example :
    extract_first_der_certificate ((7 ∷ []) ++ (der_tlv 0x30 (8 ∷ 9 ∷ []) ++ (0x30 ∷ 0 ∷ [])))
    ≡ some (der_tlv 0x30 (8 ∷ 9 ∷ []))
extract_first_der_certificate-der_tlv_example =
    extract_first_der_certificate-der_tlv (7 ∷ []) (8 ∷ 9 ∷ []) (0x30 ∷ 0 ∷ []) (omega arith, tt)
      (omega arith)
