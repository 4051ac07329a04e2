-- ===== src/Record/Genuine.antt =====
-- A run of records under one reader: which sequences of payloads `unprotect` accepts.
use crypto_kiddie.Prelude.{
  ℕ, ◌≡◌, ◌↔◌, refl, sym, ap, ap₂, ◌∙◌, List, [], ◌∷◌, Option, none, some, some_injective, map-some,
  ◌⊎◌, inl, inr,
}
use mathlib.Core.Option
use crypto_kiddie.Record.{
  RecordCrypto, Unprotected, ok, err, DirectionState, RecordError, protect, unprotect,
}
use crypto_kiddie.Record.RoundTrip.{unprotect-protect}
use crypto_kiddie.Record.Session.{Message}
use crypto_kiddie.Record.Tampering.{unprotect-ok_iff}

abbrev with_fragment : Message → List ℕ → Message
with_fragment m xs = record m { fragment = xs }

-- What a writer makes of messages: records with the payloads in the place of the fragments.
unfoldable pub protect_all : RecordCrypto → List Message → List Message
protect_all rc [] = []
protect_all rc (m ∷ ms) =
    let (rc', payload) = protect rc m.content_type m.version m.fragment in
    with_fragment m payload ∷ protect_all rc' ms

-- What a reader makes of records, where it gives the connection up at the first error.
unfoldable pub unprotect_all : RecordCrypto → List Message → Option (List Message)
unprotect_all rc [] = some []
unprotect_all rc (m ∷ ms) =
    let (rc', result) = unprotect rc m.content_type m.version m.fragment in
    let rest = unprotect_all rc' ms in
    elim result [
      | ok fragment ↦ Option.map (λ (out : List Message). with_fragment m fragment ∷ out) rest
      | err e ↦ none
    ]

-- The payload depends on the writing direction alone.
protect_all_read :
    (rc : RecordCrypto) (r : DirectionState) (ms : List Message)
    → protect_all (record rc { read = r }) ms ≡ protect_all rc ms
unfolding protect_all protect
protect_all_read rc r [] = refl
protect_all_read rc r (m ∷ ms) =
    ap
      (λ (out : List Message).
        with_fragment m (protect rc m.content_type m.version m.fragment).1 ∷ out)
      (protect_all_read (protect rc m.content_type m.version m.fragment).0 r ms)

-- The writer at the other end: it writes in the state in which `rc` reads.
abbrev pub other_end : RecordCrypto → RecordCrypto
other_end rc = record rc { write = rc.read }

-- The reader behind a fragment.
behind : RecordCrypto → Message → RecordCrypto
behind rc m = record rc {
  read = (protect (other_end rc) m.content_type m.version m.fragment).0.write;
}

behind-other_end :
    (rc : RecordCrypto) (m : Message) (ms : List Message)
    → protect_all (protect (other_end rc) m.content_type m.version m.fragment).0 ms
      ≡ protect_all (other_end (behind rc m)) ms
unfolding protect behind
behind-other_end rc m ms = sym (protect_all_read _ (behind rc m).read ms)

unprotect-behind :
    (rc : RecordCrypto) (m : Message) (payload : List ℕ)
    → payload ≡ (protect (other_end rc) m.content_type m.version m.fragment).1
    → unprotect rc m.content_type m.version payload ≡ (behind rc m, ok m.fragment)
unfolding behind
unprotect-behind rc m payload e =
    ap (unprotect rc m.content_type m.version) e
    ∙ unprotect-protect m.content_type m.version (other_end rc) rc m.fragment refl

Unprotected-cases :
    (u : Unprotected)
    → ((fragment : List ℕ) × (u ≡ ok fragment)) ⊎ ((e : RecordError) × (u ≡ err e))
Unprotected-cases (ok fragment) = inl (fragment, refl)
Unprotected-cases (err e) = inr (e, refl)

unprotect_all_step :
    (rc : RecordCrypto) (m : Message) (first : Message) (records : List Message)
    → first ≡ with_fragment m (protect (other_end rc) m.content_type m.version m.fragment).1
    → unprotect_all rc (first ∷ records)
      ≡ Option.map (λ (out : List Message). m ∷ out) (unprotect_all (behind rc m) records)
unfolding unprotect_all
unprotect_all_step rc m first records e =
    ap (λ (x : Message). unprotect_all rc (x ∷ records)) e
    ∙ ap
        (λ (r : RecordCrypto × Unprotected). elim r.1 [
          | ok fragment ↦
              Option.map (λ (out : List Message). with_fragment m fragment ∷ out)
                (unprotect_all r.0 records)
          | err e ↦ none
        ])
        (unprotect-behind rc m _ refl)

genuine :
    (rc : RecordCrypto) (messages : List Message)
    → unprotect_all rc (protect_all (other_end rc) messages) ≡ some messages
unfolding unprotect_all protect_all
genuine rc [] = refl
genuine rc (m ∷ ms) =
    unprotect_all_step rc m _ _ refl
    ∙ ap
        (λ (records : List Message).
          Option.map (λ (out : List Message). m ∷ out) (unprotect_all (behind rc m) records))
        (behind-other_end rc m ms)
    ∙ ap (Option.map (λ (out : List Message). m ∷ out)) (genuine (behind rc m) ms)

accepted :
    (rc : RecordCrypto) (records messages : List Message)
    → unprotect_all rc records ≡ some messages
    → records ≡ protect_all (other_end rc) messages
unfolding unprotect_all protect_all
accepted rc [] messages e = ap (protect_all (other_end rc)) (some_injective e)
accepted rc (r ∷ records) messages e =
    elim (Unprotected-cases (unprotect rc r.content_type r.version r.fragment).1) [
      | inr (error, is) ↦ absurd (refused error is)
      | inl (fragment, is) ↦ taken fragment is (λ rc' out. accepted rc' records out)
    ]
  where
    refused :
        (error : RecordError) → (unprotect rc r.content_type r.version r.fragment).1 ≡ err error → ⊥
    refused error is = cc (rw (unprotect_all, is) at e)

    taken :
        (fragment : List ℕ)
        → (unprotect rc r.content_type r.version r.fragment).1 ≡ ok fragment
        → ((rc' : RecordCrypto) (out : List Message)
            → unprotect_all rc' records ≡ some out
            → records ≡ protect_all (other_end rc') out)
        → r ∷ records ≡ protect_all (other_end rc) messages
    taken fragment is later =
        let m : Message = with_fragment r fragment in
        let payload_is = (unprotect-ok_iff r.content_type r.version rc r.fragment fragment).0 is in
        let (out, rest, whole) =
          map-some (λ (out : List Message). m ∷ out) (unprotect_all (behind rc m) records) messages
            (sym (unprotect_all_step rc m r records (ap (with_fragment r) payload_is)) ∙ e) in
        ap₂ ◌∷◌ (ap (with_fragment r) payload_is)
          (later (behind rc m) out rest ∙ sym (behind-other_end rc m out))
        ∙ ap (protect_all (other_end rc)) (sym whole)

-- A reader takes a run of records as messages exactly where the records are what the other end
-- makes of those messages in that order: the writer whose state is that of the reading direction.
pub unprotect_all_iff :
    (rc : RecordCrypto) (records messages : List Message)
    → (unprotect_all rc records ≡ some messages) ↔ (records ≡ protect_all (other_end rc) messages)
unprotect_all_iff rc records messages =
    (accepted rc records messages, λ e. ap (unprotect_all rc) e ∙ genuine rc messages)
