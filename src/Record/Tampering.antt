-- ===== src/Record/Tampering.antt =====
-- Records that were not made by `protect`: which payloads `unprotect` accepts.
use crypto_kiddie.Prelude.{
  ℕ, ◌-◌, ◌<◌, ◌≡◌, refl, sym, ap, ◌∙◌, List, ◌++◌, ltb, length, take, drop, lt→ltb, ltb→lt, ltb→le,
  take-append-drop, inl, inr, Bool-cases, ◌↔◌,
}
use crypto_kiddie.Keystream
use crypto_kiddie.Keystream.{CntKeystream}
use crypto_kiddie.Keystream.Apply.{apply-apply}
use crypto_kiddie.Imit.{finalize}
use crypto_kiddie.Tls.Types.{ContentType, ProtocolVersion}
use crypto_kiddie.Record.{
  RecordCrypto, short, Unprotected, ok, err, protect, unprotect, constant_time_eq, imit_tag_len,
}
use crypto_kiddie.Record.RoundTrip.{
  verified, unprotect_long, sealed, mac_after, constant_time_eq_iff, unprotect-protect,
}

module _ (t : ContentType) (v : ProtocolVersion) where
  unprotect_short :
      (rc : RecordCrypto) (ciphertext : List ℕ)
      → length ciphertext < 4
      → unprotect rc t v ciphertext ≡ (rc, err short)
  unfolding unprotect
  unprotect_short rc ciphertext h = rw (lt→ltb (length ciphertext) 4 h)

  -- An accepted payload is the fragment and its tag.
  verified-ok :
      (rc : RecordCrypto) (d : CntKeystream × List ℕ) (fragment : List ℕ)
      → (verified rc t v d).1 ≡ ok fragment
      → d.1 ≡ sealed t v rc.read fragment
  unfolding sealed
  verified-ok rc d fragment h =
      let split = length d.1 - imit_tag_len in
      let tag = finalize (mac_after t v rc.read (take split d.1)) in
      elim (Bool-cases (constant_time_eq tag (drop split d.1))) [
        | inl same ↦
            let found : take split d.1 ≡ fragment = cc (rw same at h) in
            sym (take-append-drop split d.1)
            ∙ ap (λ (x : List ℕ). take split d.1 ++ x)
                (sym ((constant_time_eq_iff tag (drop split d.1)).0 same))
            ∙ ap (sealed t v rc.read) found
        | inr other ↦ cc (rw other at h)
      ]

  -- `unprotect` gives a fragment exactly for the payload that the other end makes of it: the one
  -- that `protect` gives in the state of the reading direction.
  pub unprotect-ok_iff :
      (rc : RecordCrypto) (ciphertext fragment : List ℕ)
      → ((unprotect rc t v ciphertext).1 ≡ ok fragment)
        ↔ (ciphertext ≡ (protect (record rc { write = rc.read }) t v fragment).1)
  unfolding protect sealed
  unprotect-ok_iff rc ciphertext fragment = (accepted, genuine)
    where
      genuine :
          ciphertext ≡ (protect (record rc { write = rc.read }) t v fragment).1
          → (unprotect rc t v ciphertext).1 ≡ ok fragment
      genuine e =
          ap (λ (x : List ℕ). (unprotect rc t v x).1) e
          ∙ ap (λ (r : RecordCrypto × Unprotected). r.1)
              (unprotect-protect t v (record rc { write = rc.read }) rc fragment refl)

      accepted :
          (unprotect rc t v ciphertext).1 ≡ ok fragment
          → ciphertext ≡ (protect (record rc { write = rc.read }) t v fragment).1
      accepted h = elim (Bool-cases (ltb (length ciphertext) 4)) [
        | inl few ↦ cc (rw (unprotect_short rc ciphertext (ltb→lt _ _ few)) at h)
        | inr many ↦
            let plain =
              verified-ok rc (Keystream.apply rc.read.cnt ciphertext) fragment
                (rw (unprotect_long rc t v ciphertext (ltb→le _ _ many)) at h) in
            ap (λ (r : CntKeystream × List ℕ). r.1) (sym (apply-apply rc.read.cnt ciphertext))
            ∙ ap (λ (x : List ℕ). (Keystream.apply rc.read.cnt x).1) plain
      ]
