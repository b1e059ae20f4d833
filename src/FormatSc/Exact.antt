-- ===== src/FormatSc/Exact.antt =====
-- The text that `formatSC` (src/sia.c) leaves: the number in siacoins, without trailing zeros.
use app_sia_x.Base.{
  take_all, byte_at-write, ℕ, zero, suc, ◌+◌, ◌-◌, ◌*◌, ◌^◌, ◌≤◌, ◌<◌, ◌≡◌, ◌≢◌, ◌⊎◌, inl, inr,
  refl, arith, ap, ◌∙◌, sym, true, false, ◌==◌, [], ◌∷◌, ◌++◌, Bytes, codes, length, length-append,
  length-take, length-write, take, drop, write, take-append_self, drop-append_self, take_add,
  take-write_start, if◌then◌else◌, take-append-drop, take-write_end, take-take, byte_at, All,
  All-split,
}
use mathlib.Core.Path.{subst}
use app_sia_x.Decimal.{IsDigit, dec_value, dec_from, dec_from-append}
use app_sia_x.FormatSc.{make_room, trim_zeros, format_sc}
use app_sia_x.FormatSc.Point.{Pointed, text_of, put_point, make_room_lem}
use app_sia_x.FormatSc.Trim.{byte_at-append_back, byte_at-append_front, Trimmed, trim_zeros_lem}

-- The text of a number with a fraction, without the point if there is no digit behind it.
abbrev pub shown : Bytes → Bytes → Bytes
shown whole [] = whole
shown whole (x ∷ frac) = whole ++ b'.' ∷ x ∷ frac

byte-IsDigit : (f : Bytes) (k : ℕ) → All IsDigit f → k < length f → IsDigit (byte_at f k)
byte-IsDigit [] k d h = absurd (omega arith)
byte-IsDigit (x ∷ f) zero (dx, d) h = dx
byte-IsDigit (x ∷ f) (suc k) (dx, d) h = byte-IsDigit f k d (omega arith)

-- What `formatSC` leaves in an array that holds the decimal text of `hastings`: a decimal number of
-- siacoins (10 ^ 24 hastings) with at most 24 digits behind the point, the last one not zero.
pub record InSiacoins (s whole frac : Bytes) (res : Bytes × ℕ) : Type 0 where
  pub text : take (res.1 + 1) res.0 ≡ shown whole frac ++ (codes " SC" ++ 0 ∷ [])
  pub returns : res.1 ≡ length (shown whole frac) + 3
  pub whole_digits : All IsDigit whole
  pub frac_digits : All IsDigit frac
  pub some_whole : 0 < length whole
  pub short : length frac ≤ 24
  pub trimmed : (frac ≡ []) ⊎ (byte_at frac (length frac - 1) ≢ b'0')
  pub value : dec_value (whole ++ frac) * 10 ^ (24 - length frac) ≡ dec_value s

take_front : (k : ℕ) (f g : Bytes) → k ≤ length f → take k (f ++ g) ≡ take k f
take_front zero f g h = refl
take_front (suc k) [] g h = absurd (omega arith)
take_front (suc k) (x ∷ f) g h = ap (◌∷◌ x) (take_front k f g (omega arith))

shown-cons : (whole f : Bytes) → 0 < length f → shown whole f ≡ whole ++ b'.' ∷ f
shown-cons whole [] h = absurd (omega arith)
shown-cons whole (x ∷ f) h = refl

five : (n : ℕ) → n + 4 + 1 ≡ n + 1 + 4
five n = omega arith

module _ (a s : Bytes) (digits : All IsDigit s) (room : length s + 30 ≤ length a) where
  abbrev r : Bytes × ℕ
  r = make_room (text_of a s) (length s)

  abbrev p : Pointed a s r.1 (put_point r)
  p = make_room_lem a s digits room

  abbrev body : Bytes
  body = p.whole ++ (b'.' ∷ p.tail ++ 0 ∷ [])

  length-body : length body ≡ length p.whole + 26
  length-body = omega (
    arith,
    length-append p.whole (b'.' ∷ p.tail ++ 0 ∷ []),
    length-append p.tail (0 ∷ []),
    p.size,
  )

  in_body : (k : ℕ) → k < length body → byte_at (put_point r) k ≡ byte_at body k
  in_body k h =
      ap (λ b. byte_at b k) p.holds ∙ byte_at-write a body k h (omega (arith, length-body, p.fits))

  point : byte_at (put_point r) (length p.whole) ≡ b'.'
  point =
      let e : length p.whole ≡ length p.whole + 0 = omega arith in
      in_body (length p.whole) (omega (arith, length-body))
      ∙ ap (byte_at body) e
      ∙ byte_at-append_back p.whole (b'.' ∷ p.tail ++ 0 ∷ []) 0

  behind :
      (m : ℕ)
      → m < length p.tail
      → byte_at (put_point r) (suc (length p.whole + m)) ≡ byte_at p.tail m
  behind m h =
      let e : suc (length p.whole + m) ≡ length p.whole + suc m = omega arith in
      in_body (suc (length p.whole + m)) (omega (arith, length-body, p.size))
      ∙ ap (byte_at body) e
      ∙ byte_at-append_back p.whole (b'.' ∷ p.tail ++ 0 ∷ []) (suc m)
      ∙ byte_at-append_front p.tail (0 ∷ []) m h

  abbrev t :
      Trimmed
        (length p.whole)
        24
        (dec_value p.whole)
        p.tail
        (trim_zeros (put_point r) (length p.whole + 24))
  t =
      trim_zeros_lem (put_point r) p.tail (length p.whole) (dec_value p.whole) behind point
        p.some_whole 24 (omega (arith, p.size))

  abbrev stop : ℕ
  stop = trim_zeros (put_point r) r.1

  stops_at : stop ≡ length p.whole + t.left
  stops_at = ap (trim_zeros (put_point r)) p.ends ∙ t.stops

  abbrev frac : Bytes
  frac = take t.left p.tail

  length-frac : length frac ≡ t.left
  length-frac = omega (arith, length-take t.left p.tail, t.short, p.size)

  abbrev end : ℕ
  end = if byte_at (put_point r) stop == b'.' then stop - 1 else stop

  -- The bytes in front of the unit.
  front_text : (k : ℕ) → k ≤ length body → take k (put_point r) ≡ take k body
  front_text k h =
      ap (take k) p.holds
      ∙ sym (take-take k (length body) (write a 0 body) h)
      ∙ ap (take k) (take-write_start a body (omega (arith, length-body, p.fits)))

  same_number : dec_value (p.whole ++ frac) * 10 ^ (24 - length frac) ≡ dec_value s
  same_number =
      ap (λ n. dec_value (p.whole ++ frac) * 10 ^ (24 - n)) length-frac
      ∙ ap (λ n. n * 10 ^ (24 - t.left)) (dec_from-append 0 p.whole frac)
      ∙ sym t.value
      ∙ ap (λ n. dec_from (dec_value p.whole) (take n p.tail)) (sym p.size)
      ∙ ap (dec_from (dec_value p.whole)) (take_all p.tail)
      ∙ sym (dec_from-append 0 p.whole p.tail)
      ∙ p.same_value

  frac-IsDigit : All IsDigit frac
  frac-IsDigit =
      (All-split IsDigit frac (drop t.left p.tail)
        (subst (All IsDigit) (sym (take-append-drop t.left p.tail)) p.tail_digits)).0

  finish :
      (f : Bytes)
      → f ≡ frac
      → take (end + 1) body ≡ shown p.whole f
      → end + 1 ≡ length (shown p.whole f)
      → end < length p.whole + 25
      → (f ≡ []) ⊎ (byte_at f (length f - 1) ≢ b'0')
      → InSiacoins s p.whole f (format_sc (text_of a s) (length s))
  unfolding format_sc
  finish f same body_text size inside last = record {
    text =
        ap (λ n. take n (write (put_point r) (end + 1) (codes " SC" ++ 0 ∷ []))) (five end)
        ∙ take-write_end (put_point r) (end + 1) (codes " SC" ++ 0 ∷ []) (
            omega (
              arith,
              length-write r.0 (r.1 - 24) (b'.' ∷ []),
              ap length p.holds,
              length-write a 0 body,
              p.fits,
            ))
        ∙ ap (λ b. b ++ (codes " SC" ++ 0 ∷ []))
            (front_text (end + 1) (omega (arith, length-body)) ∙ body_text);
    returns = omega arith;
    whole_digits = p.whole_digits;
    frac_digits = subst (All IsDigit) (sym same) frac-IsDigit;
    some_whole = p.some_whole;
    short = omega (arith, ap length same, length-frac, t.short);
    trimmed = last;
    value =
        subst (λ f. dec_value (p.whole ++ f) * 10 ^ (24 - length f) ≡ dec_value s) (sym same)
          same_number;
  }

  module _ (none : t.left ≡ 0) where
    end_none : end + 1 ≡ length p.whole
    end_none =
        let e : stop ≡ length p.whole = omega (arith, stops_at) in
        let dot : (byte_at (put_point r) stop == b'.') ≡ true =
          ground (arith, ap (byte_at (put_point r)) e, point) in
        ap (λ b. (if b then stop - 1 else stop) + 1) dot ∙ omega (arith, p.some_whole)

    whole_text : take (end + 1) body ≡ p.whole
    whole_text = ap (λ n. take n body) end_none ∙ take-append_self p.whole (b'.' ∷ p.tail ++ 0 ∷ [])

    no_frac : [] ≡ frac
    no_frac = ap (λ n. take n p.tail) (sym none)

  module _ (some_left : 0 < t.left) (nonzero : byte_at p.tail (t.left - 1) ≢ b'0') where
    end_some : end ≡ length p.whole + t.left
    end_some =
        let e : stop ≡ suc (length p.whole + (t.left - 1)) = omega (arith, stops_at) in
        let inside : t.left - 1 < length p.tail = omega (arith, t.short, p.size) in
        let digit = byte-IsDigit p.tail (t.left - 1) p.tail_digits inside in
        let no_dot : (byte_at (put_point r) stop == b'.') ≡ false =
          ground (arith, ap (byte_at (put_point r)) e, behind (t.left - 1) inside, digit) in
        ap (λ b. if b then stop - 1 else stop) no_dot ∙ stops_at

    frac_text : take (end + 1) body ≡ p.whole ++ b'.' ∷ frac
    frac_text =
        let e : end + 1 ≡ length p.whole + suc t.left = omega (arith, end_some) in
        ap (λ n. take n body) e
        ∙ take_add (length p.whole) (suc t.left) body
        ∙ ap (λ xs. xs ++ take (suc t.left) (drop (length p.whole) body))
            (take-append_self p.whole (b'.' ∷ p.tail ++ 0 ∷ []))
        ∙ ap (λ xs. p.whole ++ take (suc t.left) xs)
            (drop-append_self p.whole (b'.' ∷ p.tail ++ 0 ∷ []))
        ∙ ap (λ xs. p.whole ++ b'.' ∷ xs)
            (take_front t.left p.tail (0 ∷ []) (omega (arith, t.short, p.size)))

    last_byte : byte_at frac (length frac - 1) ≢ b'0'
    last_byte =
        subst (λ b. b ≢ b'0')
          (ap (λ f. byte_at f (t.left - 1)) (sym (take-append-drop t.left p.tail))
            ∙ byte_at-append_front frac (drop t.left p.tail) (t.left - 1)
                (omega (arith, length-frac))
            ∙ ap (λ n. byte_at frac (n - 1)) (sym length-frac))
          nonzero

  -- `formatSC`, given the decimal text of a number of hastings and room for 30 bytes more, leaves
  -- the number in siacoins with the unit behind it and a NUL, and returns the length of that
  -- string.
  pub format_sc_exact :
      (whole : Bytes) × (frac : Bytes) × InSiacoins s whole frac
        (format_sc (text_of a s) (length s))
  format_sc_exact = elim t.last_digit [
    | inl none ↦ (
      p.whole,
      [],
      finish [] (no_frac none) (whole_text none) (end_none none) (omega (arith, end_none none))
          (inl refl),
    )
    | inr (some_left, nonzero) ↦
        let cons = shown-cons p.whole frac (omega (arith, length-frac)) in
        (
          p.whole,
          frac,
          finish frac refl (frac_text some_left nonzero ∙ sym cons)
              (omega (
                arith,
                end_some some_left nonzero,
                ap length cons,
                length-append p.whole (b'.' ∷ frac),
                length-frac,
              ))
              (omega (arith, end_some some_left nonzero, t.short))
              (inr (last_byte some_left nonzero)),
        )
  ]
