-- ===== src/Client/Verdict.antt =====
-- `verify_server_finished`: what it accepts.
use crypto_kiddie.Prelude.{
  ℕ, zero, suc, ◌+◌, ◌<◌, ◌≡◌, ◌↔◌, refl, sym, subst, ap₂, ◌∙◌, arith, List, [], ◌∷◌, length,
  get_or, range, if◌then◌else◌, true, ==→eq, eq→==, Bool-cases, inl, inr, ok, err, some, ◌==◌,
}
use crypto_kiddie.Prelude.{none}
use crypto_kiddie.KeyWrap.{diff_at}
use crypto_kiddie.KeyWrap.Unwrap.{diff_at_head, diff_at_self}
use crypto_kiddie.Prf.{finished_verify_data, server_finished_label}
use crypto_kiddie.Prf.Secrets.{length-prf}
use crypto_kiddie.Handshake.{finished_body, Transcript}
use crypto_kiddie.Client.{
  ClientHandshake, constant_time_eq12, verify_server_finished, bad_server_finished, out_of_order,
  master_secret_not_derived,
}

-- Two lists that agree at every index.
eq_of_indices :
    (a b : List ℕ)
    → length a ≡ length b
    → ((i : ℕ) → i < length a → get_or a i 0 ≡ get_or b i 0)
    → a ≡ b
eq_of_indices [] [] h f = refl
eq_of_indices [] (y ∷ ys) h f = absurd (omega arith)
eq_of_indices (x ∷ xs) [] h f = absurd (omega arith)
eq_of_indices (x ∷ xs) (y ∷ ys) h f =
    ap₂ ◌∷◌ (f 0 (omega arith))
      (eq_of_indices xs ys (omega arith) (λ i below. f (suc i) (omega arith)))

agree_of_diff_at :
    (a b : List ℕ) (count start i j : ℕ)
    → diff_at a b (range start count) 0 ≡ 0
    → i < count
    → j ≡ start + i
    → get_or a j 0 ≡ get_or b j 0
agree_of_diff_at a b zero start i j h below e = absurd (omega arith)
agree_of_diff_at a b (suc count) start zero j h below e =
    let here : j ≡ start = omega arith in
    rw here (diff_at_head a b (range (start + 1) count) start h).0
agree_of_diff_at a b (suc count) start (suc i) j h below e =
    agree_of_diff_at a b count (start + 1) i j
      (diff_at_head a b (range (start + 1) count) start h).1 (omega arith) (omega arith)

constant_time_eq12_iff :
    (a b : List ℕ) → length a ≡ 12 → length b ≡ 12 → (constant_time_eq12 a b ≡ true) ↔ (a ≡ b)
unfolding constant_time_eq12
constant_time_eq12_iff a b h k = (
  (λ e.
      eq_of_indices a b (h ∙ sym k)
        (λ i below. agree_of_diff_at a b 12 0 i i (==→eq _ _ e) (omega arith) (omega arith))),
  λ e.
      subst (λ (t : List ℕ). (diff_at a t (range 0 12) 0 == 0) ≡ true) e
        (eq→== _ _ (diff_at_self a (range 0 12))),
)

module _ (streebog256 : List ℕ → List ℕ) (size : (m : List ℕ) → length (streebog256 m) ≡ 32) where
  pub length-finished_body :
      (ms label : List ℕ) (t : Transcript) → length (finished_body streebog256 ms label t) ≡ 12
  unfolding finished_body finished_verify_data
  length-finished_body ms label t = length-prf streebog256 size ms label _ 12

  verdict :
      (hs : ClientHandshake) (ms vd : List ℕ)
      → hs.master_secret ≡ some ms
      → verify_server_finished streebog256 hs vd ≡ (
          if constant_time_eq12
            (finished_body streebog256 ms server_finished_label hs.transcript)
            vd
          then ok tt
          else err bad_server_finished)
  unfolding verify_server_finished
  verdict hs ms vd e = rw e refl

  -- Once the master secret is derived, the server's `Finished` is accepted exactly where its twelve
  -- bytes are the verify data of the master secret, the server's label and the transcript.
  pub verify_server_finished_iff :
      (hs : ClientHandshake) (ms server_verify_data : List ℕ)
      → hs.master_secret ≡ some ms
      → length server_verify_data ≡ 12
      → (verify_server_finished streebog256 hs server_verify_data ≡ ok tt)
        ↔ (finished_body streebog256 ms server_finished_label hs.transcript ≡ server_verify_data)
  verify_server_finished_iff hs ms vd e h =
      let expected = finished_body streebog256 ms server_finished_label hs.transcript in
      let decided =
        constant_time_eq12_iff expected vd (length-finished_body ms _ hs.transcript) h in
      (
        (λ accepted. elim (Bool-cases (constant_time_eq12 expected vd)) [
          | inl same ↦ decided.0 same
          | inr other ↦
              let refused : verify_server_finished streebog256 hs vd ≡ err bad_server_finished =
                verdict hs ms vd e ∙ rw other refl in
              absurd cc
        ]),
        λ same. verdict hs ms vd e ∙ rw (decided.1 same) refl,
      )

module _ (streebog256 : List ℕ → List ℕ) where
  pub no_verdict :
      (hs : ClientHandshake) (vd : List ℕ)
      → hs.master_secret ≡ none
      → ¬ (verify_server_finished streebog256 hs vd ≡ ok tt)
  unfolding verify_server_finished
  no_verdict hs vd e h =
      let refused : verify_server_finished streebog256 hs vd
          ≡ err (out_of_order master_secret_not_derived) =
        rw e refl in
      cc
