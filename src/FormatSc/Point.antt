-- ===== src/FormatSc/Point.antt =====
-- The first half of `formatSC` (src/sia.c): the digits with the point among them, 24 digits behind
-- it.
use app_sia_x.Base.{
  ℕ, zero, suc, ◌+◌, ◌-◌, ◌≤◌, ◌<◌, ◌≡◌, refl, arith, ap, ◌∙◌, sym, [], ◌∷◌, ◌++◌, append_assoc,
  Bytes, length, length-append, length-take, length-drop, length-replicate, take, drop, replicate,
  write, write_over, write_tail, write_byte, write_before, take-append-drop, take-write_start,
  drop-take, drop-append_self, lt→ltb, le→ltb, All, All-append, All-split,
}
use native.Mathlib.Decide.{dec_le}
use app_sia_x.Decimal.{IsDigit, dec_value}
use app_sia_x.FormatSc.{make_room}

replicate-IsDigit : (n : ℕ) → All IsDigit (replicate n b'0')
replicate-IsDigit zero = tt
replicate-IsDigit (suc n) = (omega arith, replicate-IsDigit n)

zeros_value : (n : ℕ) (s : Bytes) → dec_value (replicate n b'0' ++ s) ≡ dec_value s
zeros_value zero s = refl
zeros_value (suc n) s = zeros_value n s

-- The text is `whole`, the point, and 24 digits; together they spell the same number.
pub record Pointed (a s : Bytes) (last : ℕ) (pointed : Bytes) : Type 0 where
  pub whole : Bytes
  pub tail : Bytes
  pub holds : pointed ≡ write a 0 (whole ++ (b'.' ∷ tail ++ 0 ∷ []))
  pub ends : last ≡ length whole + 24
  pub size : length tail ≡ 24
  pub some_whole : 0 < length whole
  pub fits : length whole ≤ length s + 1
  pub whole_digits : All IsDigit whole
  pub tail_digits : All IsDigit tail
  pub same_value : dec_value (whole ++ tail) ≡ dec_value s

abbrev pub text_of : Bytes → Bytes → Bytes
text_of a s = write a 0 (s ++ 0 ∷ [])

abbrev pub put_point : Bytes × ℕ → Bytes
put_point (room, last) = write room (last - 24) (b'.' ∷ [])

module _ (a s : Bytes) (digits : All IsDigit s) (room : length s + 30 ≤ length a) where
  length-ended : length (s ++ 0 ∷ []) ≡ length s + 1
  length-ended = length-append s (0 ∷ [])

  ended : take (length s + 1) (text_of a s) ≡ s ++ 0 ∷ []
  ended =
      ap (λ n. take n (text_of a s)) (sym length-ended)
      ∙ take-write_start a (s ++ 0 ∷ []) (omega (arith, length-ended))

  module _ (few : length s ≤ 24) where
    abbrev padded : Bytes
    padded = replicate (24 - length s) b'0' ++ s

    few_room :
        write
          (write (text_of a s) (24 - length s + 2) (s ++ 0 ∷ []))
          0
          (replicate (26 - length s) b'0')
        ≡ write a 0 (b'0' ∷ b'0' ∷ padded ++ 0 ∷ [])
    few_room =
        let zs : Bytes = replicate (26 - length s) b'0' in
        let e : 24 - length s + 2 ≡ 0 + length zs =
          omega (arith, length-replicate {A = ℕ} (26 - length s) b'0') in
        let two : 26 - length s ≡ suc (suc (24 - length s)) = omega arith in
        ap (λ n. write (write (text_of a s) n (s ++ 0 ∷ [])) 0 zs) e
        ∙ write_before (text_of a s) 0 zs (s ++ 0 ∷ [])
        ∙ write_over a 0 (s ++ 0 ∷ []) (zs ++ (s ++ 0 ∷ []))
            (omega (arith, length-append zs (s ++ 0 ∷ [])))
        ∙ ap (λ n. write a 0 (replicate n b'0' ++ (s ++ 0 ∷ []))) two
        ∙ ap (λ xs. write a 0 (b'0' ∷ b'0' ∷ xs))
            (sym (append_assoc (replicate (24 - length s) b'0') s (0 ∷ [])))

    few_pointed : Pointed a s 25 (put_point (write a 0 (b'0' ∷ b'0' ∷ padded ++ 0 ∷ []), 25))
    few_pointed = record {
      whole = b'0' ∷ [];
      tail = padded;
      holds = write_byte a (b'0' ∷ []) b'0' b'.' (padded ++ 0 ∷ []);
      ends = refl;
      size = omega (
        arith,
        length-append (replicate (24 - length s) b'0') s,
        length-replicate {A = ℕ} (24 - length s) b'0',
      );
      some_whole = omega arith;
      fits = omega arith;
      whole_digits = omega arith;
      tail_digits = All-append IsDigit _ _ (replicate-IsDigit (24 - length s)) digits;
      same_value = zeros_value (24 - length s) s;
    }

  module _ (many : 24 < length s) where
    abbrev front : Bytes
    front = take (length s - 24) s

    abbrev back : Bytes
    back = drop (length s - 24) s

    halves : front ++ back ≡ s
    halves = take-append-drop (length s - 24) s

    length-front : length front ≡ length s - 24
    length-front = omega (arith, length-take (length s - 24) s)

    length-back : length back ≡ 24
    length-back = omega (arith, length-drop (length s - 24) s)

    -- The 25 bytes that move: the last 24 digits and the NUL.
    moved : take 25 (drop (length s - 24) (text_of a s)) ≡ back ++ 0 ∷ []
    moved =
        let n = length s - 24 in
        let e : 25 ≡ length s + 1 - n = omega arith in
        ap (λ k. take k (drop n (text_of a s))) e
        ∙ sym (drop-take n (length s + 1) (text_of a s))
        ∙ ap (drop n)
            (ended ∙ ap (λ xs. xs ++ 0 ∷ []) (sym halves) ∙ append_assoc front back (0 ∷ []))
        ∙ ap (λ k. drop k (front ++ (back ++ 0 ∷ []))) (sym length-front)
        ∙ drop-append_self front (back ++ 0 ∷ [])

    many_pointed :
        write (write (text_of a s) (length s - 24 + 1) (back ++ 0 ∷ [])) (length s - 24) (b'.' ∷ [])
        ≡ write a 0 (front ++ (b'.' ∷ back ++ 0 ∷ []))
    many_pointed =
        write_before (text_of a s) (length s - 24) (b'.' ∷ []) (back ++ 0 ∷ [])
        ∙ ap (λ n. write (text_of a s) n (b'.' ∷ back ++ 0 ∷ [])) (sym length-front)
        ∙ ap (λ xs. write (write a 0 xs) (length front) (b'.' ∷ back ++ 0 ∷ []))
            (ap (λ xs. xs ++ 0 ∷ []) (sym halves) ∙ append_assoc front back (0 ∷ []))
        ∙ write_tail a front (back ++ 0 ∷ []) (b'.' ∷ back ++ 0 ∷ []) (omega arith)

  -- Both branches leave such a text.
  pub make_room_lem : let r = make_room (text_of a s) (length s) in Pointed a s r.1 (put_point r)
  unfolding make_room
  make_room_lem = elim (dec_le (length s) 24) [
    | yes few ↦ rw (lt→ltb (length s) 25 (omega arith), ended, few_room few) (few_pointed few)
    | no more ↦
        let many : 24 < length s = omega arith in
        let (front_digits, back_digits) =
          All-split IsDigit (front many) (back many) (rw (halves many) digits) in
        rw (le→ltb (length s) 25 (omega arith), moved many)
          (record {
            whole = front many;
            tail = back many;
            holds = many_pointed many;
            ends = omega (arith, length-front many);
            size = length-back many;
            some_whole = omega (arith, length-front many);
            fits = omega (arith, length-front many);
            whole_digits = front_digits;
            tail_digits = back_digits;
            same_value = ap dec_value (halves many);
          })
  ]
