-- ===== src/Object/Escapes.antt =====
-- src/object/artifact.rs: an escaped field has no separators, and reads back.
use aziky.Prelude.{
  ℕ, ◌≡◌, refl, ap, ◌∙◌, Bool, true, false, ◌||◌, List, [], ◌∷◌, All, ◌==◌, if◌then◌else◌, inl, inr,
  Bool-cases, ==_iff,
}
use aziky.Object.Metadata.{replace, escape_field}

-- The character that an escape stands for, by what follows the backslash.
abbrev pub unescaped : ℕ → ℕ
unescaped c = if c == 116 then 9 else if c == 110 then 10 else if c == 114 then 13 else c

-- A reader of fields; the Boolean says whether a backslash came before.
unfoldable pub unescape : Bool → List ℕ → List ℕ
unescape escape [] = []
unescape true (c ∷ text) = unescaped c ∷ unescape false text
unescape false (c ∷ text) =
    let plain = unescape false text in
    let escaped = unescape true text in if c == 92 then escaped else c ∷ plain

-- A byte that ends no field: not a tab, a newline or a carriage return.
abbrev pub IsFieldByte : ℕ → Type 0
IsFieldByte c = ((c == 9) || (c == 10) || (c == 13)) ≡ false

-- What a field begins with, and what follows.
record ReadsOn (c : ℕ) (value : List ℕ) : Type 0 where
  pub read : unescape false (escape_field (c ∷ value)) ≡ c ∷ unescape false (escape_field value)
  pub inside : All IsFieldByte (escape_field value) → All IsFieldByte (escape_field (c ∷ value))

escape_field-ReadsOn : (c : ℕ) (value : List ℕ) → ReadsOn c value
unfolding escape_field replace unescape
escape_field-ReadsOn c value = elim (Bool-cases (c == 92)) [
  | inl backslash ↦
      rw ((==_iff c 92).0 backslash) (record { read = refl; inside = λ h. (refl, (refl, h)) })
  | inr a ↦ elim (Bool-cases (c == 9)) [
    | inl tab ↦ rw ((==_iff c 9).0 tab) (record { read = refl; inside = λ h. (refl, (refl, h)) })
    | inr b ↦ elim (Bool-cases (c == 10)) [
      | inl newline ↦
          rw ((==_iff c 10).0 newline) (record { read = refl; inside = λ h. (refl, (refl, h)) })
      | inr d ↦ elim (Bool-cases (c == 13)) [
        | inl return ↦
            rw ((==_iff c 13).0 return) (record { read = refl; inside = λ h. (refl, (refl, h)) })
        | inr e ↦ record {
          read = rw (a, b, d, e, a) refl;
          inside = λ h. rw (a, b, d, e) (rw (b, d, e) refl, h);
        }
      ]
    ]
  ]
]

-- An escaped field reads back as the text, and has no tab, newline or carriage return, so that the
-- separators behind it are found.
pub escape_field-unescape :
    (value : List ℕ)
    → (unescape false (escape_field value) ≡ value) × All IsFieldByte (escape_field value)
unfolding escape_field replace unescape
escape_field-unescape [] = (refl, tt)
escape_field-unescape (c ∷ value) =
    let step = escape_field-ReadsOn c value in
    let (read, inside) = escape_field-unescape value in
    (step.read ∙ ap (◌∷◌ c) read, step.inside inside)
