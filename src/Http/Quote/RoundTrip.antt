-- ===== src/Http/Quote/RoundTrip.antt =====
-- `unquote` undoes `quote`, and quoted text holds no byte with a meaning in a query string.
use Prim.Native.Nat.{bit_or}
use mathlib.Core.List.{flat_map}
use highload_cup.Common.{
  ℕ, ◌*◌, ◌/◌, ◌%◌, ◌<◌, ◌≡◌, ◌≢◌, refl, sym, ap, ◌∙◌, true, Bool, ◌&&◌, not, [], ◌∷◌, ◌++◌, arith,
  ◌==◌, ==_false, Bool-cases, inl, inr, Bytes, All, All-append, append-nil, append_assoc,
}
use highload_cup.Common.Table.{holds_up_to, holds_up_to-test}
use highload_cup.Http.Quote.{
  Decoder, recode_char, unquote_step, unquote_loop, start, unquote, quote_byte, quote_loop, quote,
  unreserved, hex,
}

-- The bytes of a text.
abbrev pub AllBytes : Bytes → Type 0
AllBytes = All (λ c. c < 256)

unquote_loop-append :
    (s t : Bytes) (d : Decoder) → unquote_loop d (s ++ t) ≡ unquote_loop (unquote_loop d s) t
unfolding unquote_loop
unquote_loop-append [] t d = refl
unquote_loop-append (c ∷ s) t d = unquote_loop-append s t (unquote_step d c)

-- The two hexadecimal digits of a byte, put together again.
joined : ℕ → ℕ
unfolding recode_char
joined ch = bit_or (recode_char (hex (ch / 16)) * 16 % 256) (recode_char (hex (ch % 16)))

hex_table :
    holds_up_to 256
      (λ ch. joined ch == ch && not (hex (ch / 16) == b'%') && not (hex (ch % 16) == b'%'))
    ≡ true
unfolding holds_up_to joined
hex_table = refl

hex_facts : (ch : ℕ) → ch < 256 → (joined ch ≡ ch) × (hex (ch / 16) ≢ b'%') × (hex (ch % 16) ≢ b'%')
hex_facts ch h =
    let fact =
      holds_up_to-test 256
        (λ c. joined c == c && not (hex (c / 16) == b'%') && not (hex (c % 16) == b'%')) ch
        hex_table h in
    ground arith

module _ (d : Decoder) where
  step_percent : unquote_step d b'%' ≡ record d { nbyte = 1 }
  unfolding unquote_step
  step_percent = refl

  step_high :
      (c : ℕ)
      → d.nbyte ≡ 1
      → c ≢ b'%'
      → unquote_step d c ≡ record d { ch_temp = recode_char c * 16 % 256; nbyte = 2 }
  unfolding unquote_step
  step_high c e h = rw (==_false c b'%' h, e)

  step_low :
      (c : ℕ)
      → d.nbyte ≡ 2
      → c ≢ b'%'
      → unquote_step d c ≡ (
          let v = bit_or d.ch_temp (recode_char c) in
          record d { ch_temp = v; res_temp = d.res_temp ++ v ∷ []; nbyte = 0 })
  unfolding unquote_step
  step_low c e h = rw (==_false c b'%' h, e)

-- What reading one byte of a text adds.
abbrev Adds : Decoder → ℕ → Decoder → Type 0
Adds d ch d' = (d'.nbyte ≡ 0) × (d'.res_temp ≡ d.res_temp ++ ch ∷ [])

unquote_loop-hex :
    (ch : ℕ) (d : Decoder)
    → ch < 256
    → d.nbyte ≡ 0
    → Adds d ch (unquote_loop d (b'%' ∷ hex (ch / 16) ∷ hex (ch % 16) ∷ []))
unfolding unquote_loop joined
unquote_loop-hex ch d h e =
    let (same, hi, lo) = hex_facts ch h in
    let d1 = record d { nbyte = 1 } in
    rw (step_percent d, step_high d1 (hex (ch / 16)) refl hi)
      (rw
        (step_low (record d { ch_temp = recode_char (hex (ch / 16)) * 16 % 256; nbyte = 2 })
          (hex (ch % 16)) refl lo)
        (refl, ap (λ c. d.res_temp ++ c ∷ []) same))

unquote_loop-unreserved :
    (ch : ℕ) (d : Decoder)
    → unreserved ch ≡ true
    → d.nbyte ≡ 0
    → Adds d ch (unquote_loop d (ch ∷ []))
unfolding unquote_loop unquote_step
unquote_loop-unreserved ch d u e = ground arith

-- One quoted byte is read back, whatever stands before it.
unquote_loop-quote_byte :
    (ch : ℕ) (d : Decoder) → ch < 256 → d.nbyte ≡ 0 → Adds d ch (unquote_loop d (quote_byte ch))
unfolding quote_byte
unquote_loop-quote_byte ch d h e = elim (Bool-cases (unreserved ch)) [
  | inl u ↦ rw u (unquote_loop-unreserved ch d u e)
  | inr u ↦ rw u (elim (Bool-cases (ch == b' ')) [
    | inl space ↦ unfold unquote_loop unquote_step in ground arith
    | inr other ↦ rw other (unquote_loop-hex ch d h e)
  ])
]

unquote_loop-quote :
    (s : Bytes) (d : Decoder)
    → AllBytes s
    → d.nbyte ≡ 0
    → (unquote_loop d (flat_map quote_byte s)).res_temp ≡ d.res_temp ++ s
unfolding flat_map
unquote_loop-quote [] d h e = unfold unquote_loop in rw append-nil
unquote_loop-quote (c ∷ s) d (hc, hs) e =
    let (n, r) = unquote_loop-quote_byte c d hc e in
    rw unquote_loop-append
      (unquote_loop-quote s (unquote_loop d (quote_byte c)) hs n ∙ rw (r, append_assoc))

quote_loop-flat_map : (s res : Bytes) → quote_loop s res ≡ res ++ flat_map quote_byte s
unfolding quote_loop flat_map
quote_loop-flat_map [] res = sym (append-nil res)
quote_loop-flat_map (c ∷ s) res = simp (quote_loop-flat_map s, append_assoc)

-- `unquote` gives back every text of bytes that `quote` has encoded.
pub unquote-quote : (s : Bytes) → AllBytes s → unquote (quote s) ≡ s
unfolding unquote quote
unquote-quote s h = rw quote_loop-flat_map (unquote_loop-quote s start h refl)

-- A byte that a query string can hold inside a name or a value.
abbrev pub IsPlain : ℕ → Type 0
IsPlain c = (c ≢ b' ') × (c ≢ b'=') × (c ≢ b'&') × (c ≢ b'\n') × (c ≢ b'\r')

abbrev is_plain : Bytes → Bool
is_plain [] = true
is_plain (c ∷ s) =
    not (c == b' ')
    && not (c == b'=')
    && not (c == b'&')
    && not (c == b'\n')
    && not (c == b'\r')
    && is_plain s

plain_table : holds_up_to 256 (λ ch. is_plain (quote_byte ch)) ≡ true
unfolding holds_up_to quote_byte
plain_table = refl

is_plain_sound : (s : Bytes) → is_plain s ≡ true → All IsPlain s
is_plain_sound [] h = tt
is_plain_sound (c ∷ s) h = (ground arith, is_plain_sound s (ground arith))

flat_map-IsPlain : (s : Bytes) → AllBytes s → All IsPlain (flat_map quote_byte s)
unfolding flat_map
flat_map-IsPlain [] h = tt
flat_map-IsPlain (c ∷ s) (hc, hs) =
    All-append IsPlain (quote_byte c) (flat_map quote_byte s)
      (is_plain_sound (quote_byte c)
        (holds_up_to-test 256 (λ ch. is_plain (quote_byte ch)) c plain_table hc))
      (flat_map-IsPlain s hs)

-- Quoted text has no space, no `=`, no `&` and no end of a line.
pub quote-IsPlain : (s : Bytes) → AllBytes s → All IsPlain (quote s)
unfolding quote
quote-IsPlain s h = rw quote_loop-flat_map (flat_map-IsPlain s h)

quote_byte-ne-nil : (c : ℕ) → quote_byte c ≢ []
unfolding quote_byte
quote_byte-ne-nil c = ground arith

append-ne-nil : (s t : Bytes) → s ≢ [] → s ++ t ≢ []
append-ne-nil [] t h = absurd (h refl)
append-ne-nil (c ∷ s) t h = λ e. cc

-- Text with a byte is quoted as text with a byte.
pub quote-ne-nil : (s : Bytes) → s ≢ [] → quote s ≢ []
unfolding quote flat_map
quote-ne-nil [] h = absurd (h refl)
quote-ne-nil (c ∷ s) h =
    rw quote_loop-flat_map
      (append-ne-nil (quote_byte c) (flat_map quote_byte s) (quote_byte-ne-nil c))
