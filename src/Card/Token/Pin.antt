-- ===== src/Card/Token/Pin.antt =====
-- How often the PIN goes to the token.
use crypto_kiddie.Prelude.{
  ℕ, ◌+◌, ◌≤◌, ◌≡◌, refl, ap, arith, List, [], ◌∷◌, Bool, true, false, ◌&&◌, ◌==◌, if◌then◌else◌,
  Bool-cases, inl, inr, Option, none, some, Result, ok, err,
}
use crypto_kiddie.Card.Apdu.{CommandApdu, ResponseApdu, is_success}
use crypto_kiddie.Card.Rutoken.{verify_pin, verify_pin_status, logout}
use crypto_kiddie.Card.Token.{
  TokenError, status, Token, Io, continue_with, as_answer, transmit, succeed, judge_pin,
  verify_pin_if_present,
}

-- The commands that present a PIN: VERIFY with data.
abbrev pub presents_pin : CommandApdu → Bool
presents_pin apdu = elim apdu.payload [ [] ↦ false | b ∷ bs ↦ apdu.ins == 0x20 ]

abbrev pub presented : List CommandApdu → ℕ
presented [] = 0
presented (apdu ∷ log) = (if presents_pin apdu then 1 else 0) + presented log

module _ {D F : Type 0} (answer : D → CommandApdu → Result F ResponseApdu × D) where
  as_answer-log :
      (r : Result F ResponseApdu × D) (log : List CommandApdu)
      → (as_answer answer r log).1.log ≡ log
  as_answer-log (ok r, d) log = refl
  as_answer-log (err e, d) log = refl

  presented-transmit :
      (apdu : CommandApdu) (t : Token answer)
      → presented (transmit answer apdu t).1.log
        ≡ (if presents_pin apdu then 1 else 0) + presented t.log
  unfolding transmit
  presented-transmit apdu t = ap presented (as_answer-log (answer t.state apdu) (apdu ∷ t.log))

  -- The continuation adds its presentations to those of the first step.
  pub continue_le :
      {A B : Type 0} (out : Result (TokenError F) A × Token answer) (k : A → Io answer B) (n m : ℕ)
      → presented out.1.log ≤ m
      → ((a : A) (t : Token answer) → presented (k a t).1.log ≤ n + presented t.log)
      → presented (continue_with answer out k).1.log ≤ n + m
  continue_le (ok a, t) k n m h later = omega (arith, later a t)
  continue_le (err e, t) k n m h later = omega arith

  pub if_log :
      {A : Type 0} (b : Bool) (x y : Result (TokenError F) A × Token answer) (m : ℕ)
      → presented x.1.log ≤ m
      → presented y.1.log ≤ m
      → presented (if b then x else y).1.log ≤ m
  if_log true x y m h k = h
  if_log false x y m h k = k

  pub transmit_le :
      (apdu : CommandApdu) (t : Token answer)
      → presented (transmit answer apdu t).1.log ≤ 1 + presented t.log
  transmit_le apdu t = elim (Bool-cases (presents_pin apdu)) [
    | inl is ↦ let one = presented-transmit apdu t in omega (arith, (rw is at one))
    | inr isnt ↦ let none_more = presented-transmit apdu t in omega (arith, (rw isnt at none_more))
  ]

  pub quiet_le :
      (apdu : CommandApdu) (t : Token answer)
      → presents_pin apdu ≡ false
      → presented (transmit answer apdu t).1.log ≤ 0 + presented t.log
  quiet_le apdu t h = let more = presented-transmit apdu t in omega (arith, (rw h at more))

  pub succeed_le :
      (apdu : CommandApdu) (t : Token answer)
      → presents_pin apdu ≡ false
      → presented (succeed answer apdu t).1.log ≤ 0 + presented t.log
  unfolding succeed
  succeed_le apdu t h =
      let sent =
        continue_le (transmit answer apdu t)
          (λ resp t1. if is_success resp then (ok resp, t1) else (err (status apdu resp), t1)) 0
          (0 + presented t.log) (quiet_le apdu t h)
          (λ resp t1.
            if_log (is_success resp) (ok resp, t1) (err (status apdu resp), t1)
              (0 + presented t1.log) (omega arith) (omega arith)) in
      omega arith

  judge_pin_le :
      (resp : ResponseApdu) (t : Token answer)
      → presented (judge_pin answer resp t).1.log ≤ 0 + presented t.log
  unfolding judge_pin verify_pin_status
  judge_pin_le resp t =
      let counted =
        continue_le {B = Unit} (transmit answer verify_pin_status t)
          (λ counted t1. (err (status verify_pin_status counted), t1)) 0 (0 + presented t.log)
          (quiet_le verify_pin_status t refl) (λ a t1. omega arith) in
      if_log (is_success resp) (ok tt, t) _ (0 + presented t.log) (omega arith)
        (if_log ((resp.sw1 == 0x63) && (resp.sw2 == 0x00)) _
          (err (status verify_pin_status resp), t) (0 + presented t.log) (omega arith)
          (omega arith))

  -- `verify_pin_if_present` presents the PIN at most twice, whatever the token answers.
  pub verify_pin_if_present_le :
      (pin : Option (List ℕ)) (t : Token answer)
      → presented (verify_pin_if_present answer pin t).1.log ≤ 2 + presented t.log
  unfolding verify_pin_if_present logout
  verify_pin_if_present_le none t = omega arith
  verify_pin_if_present_le (some pin) t =
      let again : (t2 : Token answer)
          → presented
              (continue_with answer (transmit answer (verify_pin pin) t2) (judge_pin answer)).1.log
            ≤ 1 + presented t2.log =
        λ t2.
          let out =
            continue_le (transmit answer (verify_pin pin) t2) (judge_pin answer) 0
              (1 + presented t2.log) (transmit_le (verify_pin pin) t2) judge_pin_le in
          omega arith in
      let bounded =
        continue_le (transmit answer (verify_pin pin) t)
          (λ resp t1.
            if (resp.sw1 == 0x6F) && (resp.sw2 == 0x86)
            then continue_with answer (succeed answer logout t1) (λ _ t2.
              continue_with answer (transmit answer (verify_pin pin) t2) (judge_pin answer))
            else judge_pin answer resp t1)
          1 (1 + presented t.log) (transmit_le (verify_pin pin) t)
          (λ resp t1.
            let renewed =
              continue_le (succeed answer logout t1)
                (λ _ t2.
                  continue_with answer (transmit answer (verify_pin pin) t2) (judge_pin answer))
                1 (0 + presented t1.log) (succeed_le logout t1 refl) (λ _ t2. again t2) in
            let judged = judge_pin_le resp t1 in
            if_log ((resp.sw1 == 0x6F) && (resp.sw2 == 0x86)) _ _ (1 + presented t1.log)
              (omega arith) (omega arith)) in
      omega arith
