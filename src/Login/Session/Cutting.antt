-- ===== src/Login/Session/Cutting.antt =====
-- How `send_application_data` cuts a text into records.
use crypto_kiddie.Prelude.{
  ℕ, zero, suc, ◌≤◌, ◌<◌, ◌≡◌, refl, sym, subst, ap, ◌∙◌, arith, List, [], ◌∷◌, ◌++◌, append-nil,
  ◌⊎◌, flatten, true, false, leb, Bool-cases, inl, inr, All, length, length-take, length-drop, take,
  drop, take-all, take-append-drop,
}
use crypto_kiddie.Login.Session.{max_record_plaintext, chunk_loop, record_chunks}

abbrev pub AreRecords : List (List ℕ) → Type 0
AreRecords chunks = All (λ c. length c ≤ max_record_plaintext) chunks

leb-cases : (a b : ℕ) → ((leb a b ≡ true) × (a ≤ b)) ⊎ ((leb a b ≡ false) × (b < a))
leb-cases a b = elim (Bool-cases (leb a b)) [
  | inl is ↦ inl (is, ground (arith))
  | inr isnt ↦ inr (isnt, ground (arith))
]

record_step :
    (rounds : ℕ) (p : List ℕ) → length p ≤ max_record_plaintext → chunk_loop (suc rounds) p ≡ p ∷ []
unfolding chunk_loop
record_step rounds p h = elim (leb-cases (length p) max_record_plaintext) [
  | inl (is, _) ↦ rw (chunk_loop, is, take-all max_record_plaintext p h) refl
  | inr (_, more) ↦ absurd (omega arith)
]

full_step :
    (rounds : ℕ) (p : List ℕ)
    → max_record_plaintext < length p
    → chunk_loop (suc rounds) p
      ≡ take max_record_plaintext p ∷ chunk_loop rounds (drop max_record_plaintext p)
unfolding chunk_loop
full_step rounds p h = elim (leb-cases (length p) max_record_plaintext) [
  | inl (_, few) ↦ absurd (omega arith)
  | inr (isnt, _) ↦ rw (chunk_loop, isnt) refl
]

-- The chunks are the text, none of them too long for a record.
record Cut (p : List ℕ) (chunks : List (List ℕ)) : Type 0 where
  joined : flatten chunks ≡ p
  short : AreRecords chunks

chunk_loop-Cut : (rounds : ℕ) (p : List ℕ) → length p < rounds → Cut p (chunk_loop rounds p)
unfolding flatten
chunk_loop-Cut zero p h = absurd (omega arith)
chunk_loop-Cut (suc rounds) p h = elim (leb-cases (length p) max_record_plaintext) [
  | inl (_, few) ↦
      subst (Cut p) (sym (record_step rounds p few))
        (record { joined = append-nil p; short = (few, tt) })
  | inr (_, many) ↦
      let front = take max_record_plaintext p in
      let behind = drop max_record_plaintext p in
      let rest = chunk_loop-Cut rounds behind (omega (arith, length-drop max_record_plaintext p)) in
      subst (Cut p) (sym (full_step rounds p many)) (record {
        joined =
            ap (λ (x : List ℕ). front ++ x) rest.joined ∙ take-append-drop max_record_plaintext p;
        short = (omega (arith, length-take max_record_plaintext p (omega arith)), rest.short);
      })
]

-- A text is cut into chunks of at most 16384 bytes that join to it.
pub flatten-record_chunks :
    (p : List ℕ)
    → (flatten (record_chunks p) ≡ p) × All (λ c. length c ≤ max_record_plaintext) (record_chunks p)
unfolding record_chunks
flatten-record_chunks p =
    let cut = chunk_loop-Cut (suc (length p)) p (omega arith) in (cut.joined, cut.short)
