-- ===== src/Object/Names.antt =====
-- src/object/artifact.rs: the names of the sections are read back from their table.
use mathlib.Core.List.{append-nil, append_assoc}
use aziky.Prelude.{
  some_is, ℕ, zero, suc, ◌%◌, ◌^◌, ◌<◌, ◌≡◌, refl, sym, ap, ◌∙◌, arith, false, some, List, [], ◌∷◌,
  ◌++◌, All, length, length-append, get_elem?, ◌==◌, if◌then◌else◌,
}
use aziky.Object.Slices.{drop}
use aziky.Object.Sections.{Section, push_string, push_names, section_name_table}

-- The text that begins at the front: the bytes up to the first 0.
unfoldable pub until_zero : List ℕ → List ℕ
until_zero [] = []
until_zero (byte ∷ bytes) = let rest = until_zero bytes in if byte == 0 then [] else byte ∷ rest

-- A text without a byte 0.
abbrev pub IsText : List ℕ → Type 0
IsText name = All (λ byte. 0 < byte) name

until_zero-append : (name rest : List ℕ) → IsText name → until_zero (name ++ 0 ∷ rest) ≡ name
unfolding until_zero
until_zero-append [] rest h = refl
until_zero-append (byte ∷ name) rest (p, h) =
    let positive : (byte == 0) ≡ false = ground arith in
    rw positive (ap (◌∷◌ byte) (until_zero-append name rest h))

drop-length : (xs ys : List ℕ) → drop (length xs) (xs ++ ys) ≡ ys
unfolding drop
drop-length [] ys = refl
drop-length (x ∷ xs) ys = drop-length xs ys

push_names-front :
    (table : List ℕ) (sections : List Section)
    → (added : List ℕ) × ((push_names table sections).0 ≡ table ++ added)
unfolding push_names push_string
push_names-front table [] = ([], sym (append-nil table))
push_names-front table (section ∷ sections) =
    let (added, e) = push_names-front (table ++ (section.name ++ 0 ∷ [])) sections in
    ((section.name ++ 0 ∷ []) ++ added, e ∙ append_assoc table (section.name ++ 0 ∷ []) added)

push_names-until_zero :
    (table : List ℕ) (sections : List Section)
    → All (λ section. IsText section.name) sections
    → length (push_names table sections).0 < 2 ^ 32
    → (i : ℕ) (section : Section) → get_elem? sections i ≡ some section
    → (offset : ℕ) × (get_elem? (push_names table sections).1 i ≡ some offset)
      × (until_zero (drop offset (push_names table sections).0) ≡ section.name)
unfolding push_names push_string
push_names-until_zero table [] texts small i section h = absurd (cc)
push_names-until_zero table (first ∷ sections) (text, texts) small zero section h =
    let (added, e) = push_names-front (table ++ (first.name ++ 0 ∷ [])) sections in
    let whole =
      e
      ∙ append_assoc table (first.name ++ 0 ∷ []) added
      ∙ ap (λ r. table ++ r) (append_assoc first.name (0 ∷ []) added) in
    let here : length table % 2 ^ 32 ≡ length table =
      omega (arith, ap length whole, length-append table (first.name ++ (0 ∷ added))) in
    (
      length table % 2 ^ 32,
      refl,
      ap (λ o. until_zero (drop o (push_names (table ++ (first.name ++ 0 ∷ [])) sections).0)) here
          ∙ ap (λ t. until_zero (drop (length table) t)) whole
          ∙ ap until_zero (drop-length table (first.name ++ (0 ∷ added)))
          ∙ until_zero-append first.name added text
          ∙ ap (λ s. s.name) (some_is h),
    )
push_names-until_zero table (first ∷ sections) (text, texts) small (suc i) section h =
    push_names-until_zero (table ++ (first.name ++ 0 ∷ [])) sections texts small i section h

-- In the table of names, the text at the offset that a section's header gets is its name, where
-- the names hold no byte 0 and the table is shorter than 2^32.
pub section_name_table-until_zero :
    (sections : List Section)
    → All (λ section. IsText section.name) sections
    → length (section_name_table sections).0 < 2 ^ 32
    → (i : ℕ) (section : Section) → get_elem? sections i ≡ some section
    → (offset : ℕ) × (get_elem? (section_name_table sections).1 i ≡ some offset)
      × (until_zero (drop offset (section_name_table sections).0) ≡ section.name)
unfolding section_name_table
section_name_table-until_zero sections texts small i section h =
    push_names-until_zero (0 ∷ []) sections texts small i section h
