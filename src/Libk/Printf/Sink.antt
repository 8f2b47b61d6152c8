-- ===== src/Libk/Printf/Sink.antt =====
-- The formatting engine does the same to any two sinks: what relates their states before relates
-- them after.
use munux.Common.{
  ℕ, zero, suc, ◌+◌, ◌-◌, ◌*◌, ◌%◌, ◌^◌, ◌≡◌, refl, inl, inr, Bool, true, false, Option, none, some,
  List, [], ◌∷◌, map, ◌==◌, ltb, if◌then◌else◌, length, Bool-cases,
}
use munux.Libk.Ctype.{is_digit, to_upper}
use munux.Libk.Conv.{digits, is_negative, negate}
use munux.Libk.Printf.{
  Arg, Mode, plain, percent, in_width, next_word, next_string, ◌>>=◌, puts, pad, put_sign, emit_num,
  emit_unsigned, emit_signed, Case, char, text, signed, decimal, hex, upper_hex, pointer, literal,
  unknown, null_text, classify, run_case, convert, format,
}

-- Both undefined, or both defined and related.
pub data Both {S T : Type 0} (R : S → T → Type 0) : Option S → Option T → Type 0 where
  neither : Both R none none
  each : {s : S} {t : T} → R s t → Both R (some s) (some t)

module _ {S T : Type 0} (putc : ℕ → S → S) (putc' : ℕ → T → T) (R : S → T → Type 0)
    (keep : (c : ℕ) (s : S) (t : T) → R s t → R (putc c s) (putc' c t)) where
  puts_keep :
      (number : List ℕ) (s : S) (t : T) → R s t → R (puts putc number s) (puts putc' number t)
  unfolding puts
  puts_keep [] s t r = r
  puts_keep (c ∷ rest) s t r = puts_keep rest (putc c s) (putc' c t) (keep c s t r)

  pad_keep : (n c : ℕ) (s : S) (t : T) → R s t → R (pad putc n c s) (pad putc' n c t)
  unfolding pad
  pad_keep zero c s t r = r
  pad_keep (suc n) c s t r = pad_keep n c (putc c s) (putc' c t) (keep c s t r)

  put_sign_keep :
      (sign : ℕ) (s : S) (t : T) → R s t → R (put_sign putc sign s) (put_sign putc' sign t)
  put_sign_keep sign s t r = elim (Bool-cases (sign == 0)) [
    | inl e ↦ rw e r
    | inr e ↦ rw e (keep sign s t r)
  ]

  emit_num_keep :
      (number : List ℕ) (sign w : ℕ) (padding : Bool) (s : S) (t : T)
      → R s t
      → R (emit_num putc number sign w padding s) (emit_num putc' number sign w padding t)
  unfolding emit_num
  emit_num_keep number sign w true s t r = puts_keep number _ _ (
      pad_keep (w - (length number + (if sign == 0 then 0 else 1))) b'0' _ _
        (put_sign_keep sign s t r))
  emit_num_keep number sign w false s t r = puts_keep number _ _ (
      put_sign_keep sign _ _
        (pad_keep (w - (length number + (if sign == 0 then 0 else 1))) b' ' s t r))

  emit_unsigned_keep :
      (base : ℕ) (change : ℕ → ℕ) (padding : Bool) (w v : ℕ) (s : S) (t : T)
      → R s t
      → Both R
          (emit_unsigned putc base change padding w v s)
          (emit_unsigned putc' base change padding w v t)
  unfolding emit_unsigned
  emit_unsigned_keep base change padding w v s t r = go (digits v base)
    where
      go :
          (o : Option (List ℕ))
          → Both R
              (o >>= λ number. some (emit_num putc (map change number) 0 w padding s))
              (o >>= λ number. some (emit_num putc' (map change number) 0 w padding t))
      go none = neither
      go (some number) = each (emit_num_keep (map change number) 0 w padding s t r)

  emit_signed_keep :
      (padding : Bool) (w v : ℕ) (s : S) (t : T)
      → R s t
      → Both R (emit_signed putc padding w v s) (emit_signed putc' padding w v t)
  unfolding emit_signed
  emit_signed_keep padding w v s t r = go (digits (if is_negative v then negate v else v) 10)
    where
      sign : ℕ
      sign = if is_negative v then b'-' else 0

      go :
          (o : Option (List ℕ))
          → Both R
              (o >>= λ number. some (emit_num putc number sign w padding s))
              (o >>= λ number. some (emit_num putc' number sign w padding t))
      go none = neither
      go (some number) = each (emit_num_keep number sign w padding s t r)

  -- The arguments that are left are the same, and the sinks related.
  abbrev After : List Arg × S → List Arg × T → Type 0
  After (args, s) (args', t) = (args ≡ args') × R s t

  with_args :
      (args : List Arg) (o : Option S) (o' : Option T)
      → Both R o o'
      → Both After (o >>= λ s. some (args, s)) (o' >>= λ t. some (args, t))
  with_args args _ _ neither = neither
  with_args args _ _ (each r) = each (refl, r)

  unsigned_keep :
      (base : ℕ) (change : ℕ → ℕ) (padding : Bool) (w : ℕ) (args : List Arg) (s : S) (t : T)
      → R s t
      → Both After
          (next_word args >>= λ a.
            emit_unsigned putc base change padding w (a.0) s >>= λ s'. some (a.1, s'))
          (next_word args >>= λ a.
            emit_unsigned putc' base change padding w (a.0) t >>= λ t'. some (a.1, t'))
  unsigned_keep base change padding w args s t r = go (next_word args)
    where
      go :
          (o : Option (ℕ × List Arg))
          → Both After
              (o >>= λ a. emit_unsigned putc base change padding w (a.0) s >>= λ s'. some (a.1, s'))
              (o >>= λ a.
                emit_unsigned putc' base change padding w (a.0) t >>= λ t'. some (a.1, t'))
      go none = neither
      go (some (v, rest)) = with_args rest _ _ (emit_unsigned_keep base change padding w v s t r)

  signed_keep :
      (padding : Bool) (w : ℕ) (o : Option (ℕ × List Arg)) (s : S) (t : T)
      → R s t
      → Both After
          (o >>= λ a. emit_signed putc padding w (a.0) s >>= λ s'. some (a.1, s'))
          (o >>= λ a. emit_signed putc' padding w (a.0) t >>= λ t'. some (a.1, t'))
  signed_keep padding w none s t r = neither
  signed_keep padding w (some (v, rest)) s t r =
      with_args rest _ _ (emit_signed_keep padding w v s t r)

  char_keep :
      (o : Option (ℕ × List Arg)) (s : S) (t : T)
      → R s t
      → Both After
          (o >>= λ a. some (a.1, putc (a.0 % 2 ^ 8) s))
          (o >>= λ a. some (a.1, putc' (a.0 % 2 ^ 8) t))
  char_keep none s t r = neither
  char_keep (some (v, rest)) s t r = each (refl, keep (v % 2 ^ 8) s t r)

  string_keep :
      (o : Option (Option (List ℕ) × List Arg)) (s : S) (t : T)
      → R s t
      → Both After
          (o >>= λ a. some (a.1, puts putc (elim (a.0) [ none ↦ null_text | some x ↦ x ]) s))
          (o >>= λ a. some (a.1, puts putc' (elim (a.0) [ none ↦ null_text | some x ↦ x ]) t))
  string_keep none s t r = neither
  string_keep (some (none, rest)) s t r = each (refl, puts_keep null_text s t r)
  string_keep (some (some x, rest)) s t r = each (refl, puts_keep x s t r)

  run_case_keep :
      (k : Case) (padding : Bool) (w c : ℕ) (args : List Arg) (s : S) (t : T)
      → R s t
      → Both After (run_case putc k padding w c args s) (run_case putc' k padding w c args t)
  unfolding run_case
  run_case_keep char padding w c args s t r = char_keep (next_word args) s t r
  run_case_keep text padding w c args s t r = string_keep (next_string args) s t r
  run_case_keep signed padding w c args s t r = signed_keep padding w (next_word args) s t r
  run_case_keep decimal padding w c args s t r = unsigned_keep 10 (λ d. d) padding w args s t r
  run_case_keep hex padding w c args s t r = unsigned_keep 16 (λ d. d) padding w args s t r
  run_case_keep upper_hex padding w c args s t r = unsigned_keep 16 to_upper padding w args s t r
  run_case_keep pointer padding w c args s t r =
      unsigned_keep 16 (λ d. d) padding w args _ _ (puts_keep (b'0' ∷ b'x' ∷ []) s t r)
  run_case_keep literal padding w c args s t r = each (refl, keep b'%' s t r)
  run_case_keep unknown padding w c args s t r = each (refl, keep c _ _ (keep b'%' s t r))

  go_on :
      (f : List Arg → S → Option S) (f' : List Arg → T → Option T) (o : Option (List Arg × S))
      (o' : Option (List Arg × T))
      → ((args : List Arg) (s : S) (t : T) → R s t → Both R (f args s) (f' args t))
      → Both After o o'
      → Both R (o >>= λ a. f (a.0) (a.1)) (o' >>= λ a. f' (a.0) (a.1))
  go_on f f' _ _ h neither = neither
  go_on f f' _ _ h (each {s = (args, s)} {t = (args', t)} (e, r)) = rw (← e) (h args s t r)

  pub format_keep :
      (fmt : List ℕ) (mode : Mode) (args : List Arg) (s : S) (t : T)
      → R s t
      → Both R (format putc fmt mode args s) (format putc' fmt mode args t)
  unfolding format convert
  format_keep [] mode args s t r = each r
  format_keep (c ∷ rest) plain args s t r = elim (Bool-cases (c == b'%')) [
    | inl e ↦ rw (e, format) (format_keep rest percent args s t r)
    | inr e ↦ rw (e, format) (format_keep rest plain args _ _ (keep c s t r))
  ]
  format_keep (c ∷ rest) percent args s t r = elim (Bool-cases (c == b'0')) [
    | inl e ↦ rw (e, format) (format_keep rest (in_width true 0) args s t r)
    | inr e ↦
        rw (e, format)
          (elim (Bool-cases (is_digit c)) [
            | inl d ↦ rw (d, format) (format_keep rest (in_width false (c - b'0')) args s t r)
            | inr d ↦
                rw (d, format)
                  (go_on _ _ _ _ (format_keep rest plain)
                    (run_case_keep (classify c) false 0 c args s t r))
          ])
  ]
  format_keep (c ∷ rest) (in_width padding w) args s t r = elim (Bool-cases (is_digit c)) [
    | inl d ↦
        rw (d, format)
          (elim (Bool-cases (ltb (w * 10 + (c - b'0')) (2 ^ 31))) [
            | inl e ↦
                rw (e, format)
                  (format_keep rest (in_width padding (w * 10 + (c - b'0'))) args s t r)
            | inr e ↦ rw (e, format) neither
          ])
    | inr d ↦
        rw (d, format)
          (go_on _ _ _ _ (format_keep rest plain)
            (run_case_keep (classify c) padding w c args s t r))
  ]
