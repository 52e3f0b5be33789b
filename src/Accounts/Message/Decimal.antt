-- ===== src/Accounts/Message/Decimal.antt =====
-- itoa writes a number in decimal.
use Prim.Native.String.{◌++◌}
use Prim.Native.Char.{Char}
use text.Mathlib.TextLemmas.{cons-append, nil-append}
use grok_go.Base.{
  ℕ, zero, suc, ◌+◌, ◌*◌, ◌/◌, ◌%◌, ◌^◌, ◌<◌, ◌≡◌, ◌∙◌, ap, String, some, arith, ltb, eqb, if_cases,
}
use grok_go.Base.Text.{read_digits, read_unsigned}
use grok_go.Accounts.Message.{digit, itoa, itoa_loop}

one_append : (letter : Char) (text : String) → String.◌∷◌ letter "" ++ text ≡ String.◌∷◌ letter text
one_append letter text =
    cons-append letter "" text ∙ ap (λ t. String.◌∷◌ letter t) (nil-append text)

read_digit :
    (d n : ℕ) (text : String)
    → d < 10
    → read_digits n (digit d ++ text) ≡ read_digits (10 * n + d) text
unfolding digit read_digits
read_digit zero n text h = ap (λ t. read_digits n t) (one_append "0" text)
read_digit (suc zero) n text h = ap (λ t. read_digits n t) (one_append "1" text)
read_digit (suc (suc zero)) n text h = ap (λ t. read_digits n t) (one_append "2" text)
read_digit (suc (suc (suc zero))) n text h = ap (λ t. read_digits n t) (one_append "3" text)
read_digit (suc (suc (suc (suc zero)))) n text h = ap (λ t. read_digits n t) (one_append "4" text)
read_digit (suc (suc (suc (suc (suc zero))))) n text h =
    ap (λ t. read_digits n t) (one_append "5" text)
read_digit (suc (suc (suc (suc (suc (suc zero)))))) n text h =
    ap (λ t. read_digits n t) (one_append "6" text)
read_digit (suc (suc (suc (suc (suc (suc (suc zero))))))) n text h =
    ap (λ t. read_digits n t) (one_append "7" text)
read_digit (suc (suc (suc (suc (suc (suc (suc (suc zero)))))))) n text h =
    ap (λ t. read_digits n t) (one_append "8" text)
read_digit (suc (suc (suc (suc (suc (suc (suc (suc (suc zero))))))))) n text h =
    ap (λ t. read_digits n t) (one_append "9" text)
read_digit (suc (suc (suc (suc (suc (suc (suc (suc (suc (suc d)))))))))) n text h =
    absurd (omega (arith, h))

read_itoa_loop :
    (room v : ℕ) (text : String)
    → v < 10 ^ room
    → read_digits 0 (itoa_loop room v text) ≡ read_digits v text
unfolding itoa_loop
read_itoa_loop zero v text small =
    let none_left : 0 ≡ v = omega (arith, small) in ap (λ x. read_digits x text) none_left
read_itoa_loop (suc room) v text small =
    if_cases (λ t. read_digits 0 t ≡ read_digits v text) (ltb 0 v) _ _
      (λ _.
        let again : 10 * (v / 10) + v % 10 ≡ v = omega arith in
        read_itoa_loop room (v / 10) (digit (v % 10) ++ text) (omega (arith, small))
        ∙ read_digit (v % 10) (v / 10) text (omega arith)
        ∙ ap (λ x. read_digits x text) again)
      (λ empty.
        let none_left : 0 ≡ v = ground (arith, empty) in ap (λ x. read_digits x text) none_left)

read_unsigned_lem :
    (n : ℕ) (text : String) → 0 < n → read_digits 0 text ≡ some n → read_unsigned text ≡ some n
unfolding read_unsigned read_digits
read_unsigned_lem n String.[] some_left h = absurd (ground (arith, some_left, h))
read_unsigned_lem n (String.◌∷◌ letter text) some_left h = h

-- itoa writes a number of at most twenty digits in decimal: reading its digits gives the number
-- back.
pub read_unsigned-itoa : (n : ℕ) → n < 10 ^ 20 → read_unsigned (itoa n) ≡ some n
unfolding itoa read_unsigned read_digits
read_unsigned-itoa n small =
    if_cases (λ t. read_unsigned t ≡ some n) (eqb n 0) _ _
      (λ e. let none_left : 0 ≡ n = ground (arith, e) in ap some none_left)
      (λ e.
        read_unsigned_lem n (itoa_loop 20 n "") (ground (arith, e)) (read_itoa_loop 20 n "" small))
