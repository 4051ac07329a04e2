-- ===== src/Record/RoundTrip.antt =====
-- A connection whose two ends are in step: what one protects the other takes back.
use crypto_kiddie.Prelude.{
  ℕ, ◌+◌, ◌-◌, ◌≤◌, ◌≡◌, refl, ap, ap₂, ◌∙◌, subst, arith, true, List, [], ◌∷◌, ◌++◌, if◌then◌else◌,
  ◌==◌, length, take, drop, bit_or, bit_xor, le→ltb, ==→eq, eq→==, xor_self, eq_of_xor, or_ge,
  length-append, take-append, drop-append, inl, inr, Bool-cases, ◌↔◌, false≢true,
}
use crypto_kiddie.Keystream
use crypto_kiddie.Keystream.{CntKeystream}
use crypto_kiddie.Keystream.Apply.{apply-apply, length-apply}
use crypto_kiddie.Imit
use crypto_kiddie.Imit.{finalize}
use crypto_kiddie.Tls.Types.{ContentType, ProtocolVersion}
use crypto_kiddie.Record.{
  DirectionState, RecordCrypto, bad_mac, Unprotected, ok, err, protect, unprotect, diff_of,
  constant_time_eq, maced_data, next_seq, imit_tag_len,
}

diff_of_self : (xs : List ℕ) → diff_of 0 xs xs ≡ 0
unfolding diff_of
diff_of_self [] = refl
diff_of_self (x ∷ xs) = rw (xor_self x) (diff_of_self xs)

diff_of-ge : (diff : ℕ) (xs ys : List ℕ) → diff ≤ diff_of diff xs ys
unfolding diff_of
diff_of-ge diff [] ys = omega arith
diff_of-ge diff (x ∷ xs) [] = omega arith
diff_of-ge diff (x ∷ xs) (y ∷ ys) =
    omega (arith, or_ge diff (bit_xor x y), diff_of-ge (bit_or diff (bit_xor x y)) xs ys)

eq_of_diff_of :
    (diff : ℕ) (xs ys : List ℕ) → length xs ≡ length ys → diff_of diff xs ys ≡ 0 → xs ≡ ys
unfolding diff_of
eq_of_diff_of diff [] [] h e = refl
eq_of_diff_of diff [] (y ∷ ys) h e = absurd (omega arith)
eq_of_diff_of diff (x ∷ xs) [] h e = absurd (omega arith)
eq_of_diff_of diff (x ∷ xs) (y ∷ ys) h e =
    let step = bit_or diff (bit_xor x y) in
    ap₂ ◌∷◌ (eq_of_xor x y (omega (arith, or_ge diff (bit_xor x y), diff_of-ge step xs ys)))
      (eq_of_diff_of step xs ys (omega arith) e)

constant_time_eq_self : (a : List ℕ) → constant_time_eq a a ≡ true
unfolding constant_time_eq
constant_time_eq_self a = rw (eq→== (length a) (length a) refl, diff_of_self a)

eq_of_constant_time_eq : (a b : List ℕ) → constant_time_eq a b ≡ true → a ≡ b
unfolding constant_time_eq
eq_of_constant_time_eq a b h = elim (Bool-cases (length a == length b)) [
  | inl same ↦ eq_of_diff_of 0 a b (==→eq _ _ same) (==→eq _ _ (rw same at h))
  | inr other ↦ absurd (false≢true (rw other at h))
]

-- The comparison that reads every byte decides equality of byte strings.
pub constant_time_eq_iff : (a b : List ℕ) → (constant_time_eq a b ≡ true) ↔ (a ≡ b)
constant_time_eq_iff a b = (
  eq_of_constant_time_eq a b,
  λ e. subst (λ (t : List ℕ). constant_time_eq a t ≡ true) e (constant_time_eq_self a),
)

-- What `unprotect` does once the payload is decrypted to `buf`.
abbrev pub verified :
    RecordCrypto
    → ContentType
    → ProtocolVersion
    → CntKeystream × List ℕ
    → RecordCrypto × Unprotected
verified rc content_type version d =
    let r = rc.read in
    let split = length d.1 - imit_tag_len in
    let fragment = take split d.1 in
    let imit = Imit.update r.imit (maced_data r.seq_num content_type version fragment) in
    if constant_time_eq (finalize imit) (drop split d.1)
    then (
      record rc { read = record { cnt = d.0; imit = imit; seq_num = next_seq r.seq_num } },
      ok fragment,
    )
    else (record rc { read = record { cnt = d.0; imit = imit; seq_num = r.seq_num } }, err bad_mac)

pub unprotect_long :
    (rc : RecordCrypto) (t : ContentType) (v : ProtocolVersion) (ciphertext : List ℕ)
    → 4 ≤ length ciphertext
    → unprotect rc t v ciphertext ≡ verified rc t v (Keystream.apply rc.read.cnt ciphertext)
unfolding unprotect
unprotect_long rc t v ciphertext h = rw (le→ltb (length ciphertext) 4 h)

module _ (t : ContentType) (v : ProtocolVersion) where
  -- The direction's running code behind a fragment, and its tag.
  unfoldable pub mac_after : DirectionState → List ℕ → Imit.ImitContext
  mac_after d fragment = Imit.update d.imit (maced_data d.seq_num t v fragment)

  unfoldable pub sealed : DirectionState → List ℕ → List ℕ
  unfolding mac_after
  sealed d fragment = fragment ++ finalize (mac_after d fragment)

  length-sealed :
      (d : DirectionState) (fragment : List ℕ) → length (sealed d fragment) ≡ length fragment + 4
  unfolding sealed finalize
  length-sealed d fragment = length-append fragment _

  -- The state of the direction behind a record.
  unfoldable pub stepped : DirectionState → List ℕ → DirectionState
  unfolding mac_after sealed
  stepped d fragment = record {
    cnt = (Keystream.apply d.cnt (sealed d fragment)).0;
    imit = mac_after d fragment;
    seq_num = next_seq d.seq_num;
  }

  pub protect_eq :
      (rc : RecordCrypto) (fragment : List ℕ)
      → protect rc t v fragment ≡ (
        record rc { write = stepped rc.write fragment },
        (Keystream.apply rc.write.cnt (sealed rc.write fragment)).1,
      )
  unfolding protect stepped
  protect_eq rc fragment = refl

  pub length-protect :
      (rc : RecordCrypto) (fragment : List ℕ)
      → length (protect rc t v fragment).1 ≡ length fragment + 4
  length-protect rc fragment =
      ap (λ (r : RecordCrypto × List ℕ). length r.1) (protect_eq rc fragment)
      ∙ length-apply rc.write.cnt (sealed rc.write fragment)
      ∙ length-sealed rc.write fragment

  -- A payload that decrypts to a fragment and its tag is accepted.
  pub verified-sealed :
      (rc : RecordCrypto) (fragment : List ℕ)
      → verified rc t v
          ((Keystream.apply rc.read.cnt (sealed rc.read fragment)).0, sealed rc.read fragment)
        ≡ (record rc { read = stepped rc.read fragment }, ok fragment)
  unfolding stepped
  verified-sealed rc fragment =
      let buf = sealed rc.read fragment in
      let split : length buf - imit_tag_len ≡ length fragment =
        omega (arith, length-sealed rc.read fragment) in
      rw
        (
          split,
          take-append fragment (finalize (mac_after rc.read fragment)) (length fragment) refl,
          drop-append fragment (finalize (mac_after rc.read fragment)) (length fragment) refl,
          constant_time_eq_self (finalize (mac_after rc.read fragment)),
        )
        refl

  unprotect_own :
      (rc : RecordCrypto) (fragment : List ℕ)
      → unprotect rc t v (Keystream.apply rc.read.cnt (sealed rc.read fragment)).1
        ≡ (record rc { read = stepped rc.read fragment }, ok fragment)
  unprotect_own rc fragment =
      let text = sealed rc.read fragment in
      unprotect_long rc t v (Keystream.apply rc.read.cnt text).1
        (omega (arith, length-apply rc.read.cnt text, length-sealed rc.read fragment))
      ∙ ap (verified rc t v) (apply-apply rc.read.cnt text)
      ∙ verified-sealed rc fragment

  -- A record that one end protects is taken back by the other end, whose reading direction is in
  -- the state of the first end's writing direction; and the two directions are equal again behind it.
  pub unprotect-protect :
      (rc peer : RecordCrypto) (plaintext : List ℕ)
      → peer.read ≡ rc.write
      → unprotect peer t v (protect rc t v plaintext).1
        ≡ (record peer { read = (protect rc t v plaintext).0.write }, ok plaintext)
  unfolding protect stepped
  unprotect-protect rc peer plaintext e =
      subst
        (λ (w : DirectionState).
          unprotect peer t v (Keystream.apply w.cnt (sealed w plaintext)).1
          ≡ (record peer { read = stepped w plaintext }, ok plaintext))
        e (unprotect_own peer plaintext)
