-- ===== src/Curve/Agreement/Prepared.antt =====
-- What a key transport that was prepared consists of.
use crypto_kiddie.Prelude.{
  ℕ, ◌+◌, ◌≡◌, sym, ap, ◌∙◌, List, true, if◌then◌else◌, Option, some, some_injective, map-some,
}
use crypto_kiddie.Login.Driver.{KeyTransport}
use crypto_kiddie.Curve.Numbers.{BigUint, IsNatural}
use crypto_kiddie.Curve.ParameterSets.{IsKnown, order_of}
use crypto_kiddie.Curve.{
  Curve, Point, scalar_mul, generator, encode_point_le, decode_point_le, is_on_curve,
}
use crypto_kiddie.Curve.Agreement.{
  bind, vko_256, public_point, Ephemeral, ephemeral_keypair, ExportKey, derive_export_key,
  detect_curve_and_point, spki_content_of, software_key_transport,
}
use crypto_kiddie.Curve.Agreement.Detected.{
  bind-some, IsScalar, drawn-IsScalar, decoded-on_curve, detect-decoded,
}

module _ (N : BigUint) (law : IsNatural N) (streebog256 : List ℕ → List ℕ) where
  -- The scalar that a random source gives.
  abbrev pub drawn : Curve N → List ℕ → N.Int
  drawn curve buf = let d = N.rem (N.from_bytes_be buf) curve.q in if N.is_zero d then N.of 1 else d

  -- The parts of a prepared transport.
  pub record Prepared (fill : ℕ → Option (List ℕ)) (point algorithm ukm : List ℕ)
      (kt : KeyTransport) : Type 0 where
    pub curve : Curve N
    pub server : Point N
    pub buf : List ℕ
    pub shared : List ℕ
    pub own : List ℕ
    pub known : IsKnown N law curve
    pub decoded : decode_point_le N curve point ≡ some server
    pub on_curve : is_on_curve N curve server ≡ true
    pub random : fill (curve.field_bytes + 16) ≡ some buf
    pub scalar : IsScalar N law streebog256 (drawn curve buf) curve.q
    pub agreed :
        encode_point_le N curve (
          scalar_mul N curve (N.rem (N.mul (N.from_bytes_le ukm) (drawn curve buf)) curve.q) server)
        ≡ some shared
    pub kek : kt.kek ≡ streebog256 shared
    pub ephemeral :
        encode_point_le N curve (scalar_mul N curve (drawn curve buf) (generator N curve))
        ≡ some own
    pub content : kt.ephemeral_spki_content ≡ spki_content_of N streebog256 algorithm own

  abbrev transport_with : Curve N × Point N → List ℕ → ExportKey N streebog256 → Option KeyTransport
  transport_with found algorithm exported =
      bind (encode_point_le N found.0 exported.ephemeral_public) (λ own. some (record {
        kek = exported.kek;
        ephemeral_spki_content = spki_content_of N streebog256 algorithm own;
      }))

  abbrev export_with :
      Curve N → Point N → List ℕ → Ephemeral N streebog256 → Option (ExportKey N streebog256)
  export_with curve server ukm eph =
      bind (vko_256 N streebog256 curve eph.private_key server ukm)
        (λ kek. some (record { kek = kek; ephemeral_public = eph.public_key }))

  ephemeral_of :
      (curve : Curve N) (fill : ℕ → Option (List ℕ)) (eph : Ephemeral N streebog256)
      → ephemeral_keypair N streebog256 curve fill ≡ some eph
      → (buf : List ℕ) × (fill (curve.field_bytes + 16) ≡ some buf)
        × (eph ≡ record {
          private_key = drawn curve buf;
          public_key = scalar_mul N curve (drawn curve buf) (generator N curve);
        })
  unfolding ephemeral_keypair public_point
  ephemeral_of curve fill eph e =
      let (buf, filled, made) =
        bind-some (fill (curve.field_bytes + 16))
          (λ buf. some (record {
            private_key = drawn curve buf;
            public_key = public_point N streebog256 curve (drawn curve buf);
          }))
          eph e in
      (buf, filled, sym (some_injective made))

  -- A key transport that is prepared has a curve with the numbers of the set B, C or D of the
  -- standard, the server's point on that curve, an ephemeral scalar between 1 and the order of its group, the hash of the bytes of the shared point as the
  -- key-encryption key, and the bytes of the ephemeral point behind the server's algorithm.
  pub software_key_transport-Prepared :
      (fill : ℕ → Option (List ℕ)) (point algorithm ukm : List ℕ) (kt : KeyTransport)
      → software_key_transport N streebog256 fill point algorithm ukm ≡ some kt
      → Prepared fill point algorithm ukm kt
  unfolding software_key_transport derive_export_key vko_256
  software_key_transport-Prepared fill point algorithm ukm kt e =
      let (found, d, e1) =
        bind-some (detect_curve_and_point N streebog256 point)
          (λ found.
            bind (derive_export_key N streebog256 found.0 found.1 ukm fill)
              (transport_with found algorithm))
          kt e in
      let (exported, x, e2) =
        bind-some (derive_export_key N streebog256 found.0 found.1 ukm fill)
          (transport_with found algorithm) kt e1 in
      let (own, o, e3) =
        bind-some (encode_point_le N found.0 exported.ephemeral_public)
          (λ own. some (record {
            kek = exported.kek;
            ephemeral_spki_content = spki_content_of N streebog256 algorithm own;
          }))
          kt e2 in
      let (eph, k, x1) =
        bind-some (ephemeral_keypair N streebog256 found.0 fill) (export_with found.0 found.1 ukm)
          exported x in
      let (kek, v, x2) =
        bind-some (vko_256 N streebog256 found.0 eph.private_key found.1 ukm)
          (λ kek. some (record { kek = kek; ephemeral_public = eph.public_key })) exported x1 in
      let (buf, filled, eph_is) = ephemeral_of found.0 fill eph k in
      let (shared, s, kek_is) =
        map-some streebog256
          (encode_point_le N found.0 (
            scalar_mul N found.0 (N.rem (N.mul (N.from_bytes_le ukm) eph.private_key) found.0.q)
              found.1))
          kek v in
      let near = detect-decoded N law streebog256 point found.0 found.1 d in
      let private_is : eph.private_key ≡ drawn found.0 buf =
        ap (λ (y : Ephemeral N streebog256). y.private_key) eph_is in
      let exported_is = some_injective x2 in
      let kt_is = some_injective e3 in
      record {
        curve = found.0;
        server = found.1;
        buf = buf;
        shared = shared;
        own = own;
        known = near.0;
        decoded = near.1;
        on_curve = decoded-on_curve N law streebog256 found.0 point found.1 near.1;
        random = filled;
        scalar =
            drawn-IsScalar N law streebog256 (N.from_bytes_be buf) found.0.q
              (order_of N law found.0 near.0);
        agreed =
            ap
              (λ (y : N.Int).
                encode_point_le N found.0
                  (scalar_mul N found.0 (N.rem (N.mul (N.from_bytes_le ukm) y) found.0.q) found.1))
              (sym private_is)
            ∙ s;
        kek =
            sym (ap (λ (y : KeyTransport). y.kek) kt_is)
            ∙ sym (ap (λ (y : ExportKey N streebog256). y.kek) exported_is)
            ∙ kek_is;
        ephemeral =
            ap (encode_point_le N found.0) (
              sym (ap (λ (y : Ephemeral N streebog256). y.public_key) eph_is)
              ∙ ap (λ (y : ExportKey N streebog256). y.ephemeral_public) exported_is)
            ∙ o;
        content = sym (ap (λ (y : KeyTransport). y.ephemeral_spki_content) kt_is);
      }
