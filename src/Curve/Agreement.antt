-- ===== src/Curve/Agreement.antt =====
-- src/gost_vko.rs: VKO and the software key transport. The random source gives that many bytes or
-- fails. No result stands for an error and for the panic on a shared point at infinity.
pub mod Detected
pub mod Prepared
use crypto_kiddie.Prelude.{ℕ, ◌+◌, List, [], ◌∷◌, ◌++◌, if◌then◌else◌, Option, none, some}
use mathlib.Core.Option
use crypto_kiddie.Der.{der_tlv}
use crypto_kiddie.Login.Driver.{KeyTransport}
use crypto_kiddie.Curve.Numbers.{BigUint}
use crypto_kiddie.Curve.{
  Curve, Point, scalar_mul, generator, encode_point_le, decode_point_le, tc26_256_paramset_b,
  tc26_256_paramset_c, tc26_256_paramset_d,
}

abbrev pub bind : {A B : Type 0} → Option A → (A → Option B) → Option B
bind none k = none
bind (some a) k = k a

module _ (N : BigUint) (streebog256 : List ℕ → List ℕ) where
  unfoldable pub vko_256 : Curve N → N.Int → Point N → List ℕ → Option (List ℕ)
  unfolding scalar_mul encode_point_le
  vko_256 curve own_private peer_public ukm =
      let ukm_int = N.from_bytes_le ukm in
      let scalar = N.rem (N.mul ukm_int own_private) curve.q in
      Option.map streebog256 (encode_point_le N curve (scalar_mul N curve scalar peer_public))

  unfoldable pub public_point : Curve N → N.Int → Point N
  unfolding scalar_mul generator
  public_point curve private_key = scalar_mul N curve private_key (generator N curve)

  pub record Ephemeral : Type 0 where
    pub private_key : N.Int
    pub public_key : Point N

  unfoldable pub ephemeral_keypair : Curve N → (ℕ → Option (List ℕ)) → Option Ephemeral
  unfolding public_point
  ephemeral_keypair curve fill = bind (fill (curve.field_bytes + 16)) (λ buf.
      let d = N.rem (N.from_bytes_be buf) curve.q in
      let d' = if N.is_zero d then N.of 1 else d in
      some (record { private_key = d'; public_key = public_point curve d' }))

  pub record ExportKey : Type 0 where
    pub kek : List ℕ
    pub ephemeral_public : Point N

  unfoldable pub derive_export_key :
      Curve N → Point N → List ℕ → (ℕ → Option (List ℕ)) → Option ExportKey
  unfolding ephemeral_keypair vko_256
  derive_export_key curve server_public ukm fill = bind (ephemeral_keypair curve fill) (λ eph.
      bind (vko_256 curve eph.private_key server_public ukm)
        (λ kek. some (record { kek = kek; ephemeral_public = eph.public_key })))

  unfoldable pub detect_in : List (Curve N) → List ℕ → Option (Curve N × Point N)
  unfolding decode_point_le
  detect_in [] server_point = none
  detect_in (curve ∷ curves) server_point = elim (decode_point_le N curve server_point) [
    | some point ↦ some (curve, point)
    | none ↦ detect_in curves server_point
  ]

  unfoldable pub detect_curve_and_point : List ℕ → Option (Curve N × Point N)
  unfolding detect_in tc26_256_paramset_b tc26_256_paramset_c tc26_256_paramset_d
  detect_curve_and_point server_point =
      detect_in (tc26_256_paramset_b N ∷ tc26_256_paramset_c N ∷ tc26_256_paramset_d N ∷ [])
        server_point

  -- `der_tlv` of the code is the one of src/gost_keytransport.rs again.
  unfoldable pub spki_content_of : List ℕ → List ℕ → List ℕ
  unfolding der_tlv
  spki_content_of server_spki_algorithm q_eph =
      server_spki_algorithm ++ der_tlv 0x03 (0x00 ∷ der_tlv 0x04 q_eph)

  unfoldable pub software_key_transport :
      (ℕ → Option (List ℕ)) → List ℕ → List ℕ → List ℕ → Option KeyTransport
  unfolding detect_curve_and_point derive_export_key encode_point_le spki_content_of
  software_key_transport fill server_point server_spki_algorithm ukm =
      bind (detect_curve_and_point server_point) (λ found.
        bind (derive_export_key found.0 found.1 ukm fill) (λ exported.
          bind (encode_point_le N found.0 exported.ephemeral_public) (λ q_eph. some (record {
            kek = exported.kek;
            ephemeral_spki_content = spki_content_of server_spki_algorithm q_eph;
          }))))
